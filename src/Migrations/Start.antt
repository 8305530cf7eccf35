-- ===== src/Migrations/Start.antt =====
-- The first migrations, up to the tables of tokens and jobs, in src/modules/database/migrations, statement by statement.
use nft_tracker.Prelude.{none, some, true, false, [], ◌∷◌}
use nft_tracker.Migrations.{
  Migration, create_extension, drop_extension, create_type, drop_type, create_table, drop_table,
  create_index, drop_index, add_column, drop_column, set_not_null, timestamptz, varchar, json,
  jsonb, boolean, numeric, integer, text_array, enum_of, SqlType, primary_key, unique_key, column,
  constraint, base_columns,
}

-- 1625330374248-CreateUUIDOssp.ts
abbrev pub create_uuid_ossp : Migration
create_uuid_ossp = record {
  up = create_extension "uuid-ossp" ∷ [];
  down = drop_extension "uuid-ossp" ∷ [];
}

-- 1693484935494-CreateWebhookAndConfigurationEntity.ts
abbrev pub create_webhook_and_configuration_entity : Migration
create_webhook_and_configuration_entity = record {
  up =
      create_table "configurations"
        (base_columns (
          ("key", column (SqlType.text) true (none))
          ∷ ("value", column (json) false (none))
          ∷ ("schema", column (json) true (some "'{}'"))
          ∷ ("active", column (boolean) true (some "true"))
          ∷ []))
        (("UQ_3c658898252e3694655de8a07e7", constraint unique_key ("key" ∷ []))
          ∷ ("PK_ef9fc29709cc5fc66610fc6a664", constraint primary_key ("id" ∷ []))
          ∷ [])
      ∷ create_index "IDX_7a634ce13d3400dbc5042440fe" (record {
        table = "configurations";
        columns = "deleted_at" ∷ [];
        unique = false;
        condition = some "deleted_at IS NULL";
      })
      ∷ create_table "webhook_attempt"
          (base_columns (
            ("url", column (varchar) true (none))
            ∷ ("headers", column (jsonb) false (none))
            ∷ ("body", column (jsonb) false (none))
            ∷ ("method", column (varchar) true (none))
            ∷ ("timeout", column (numeric) false (none))
            ∷ ("meta", column (jsonb) false (none))
            ∷ ("code", column (numeric) true (none))
            ∷ ("data", column (jsonb) false (none))
            ∷ ("client_id", column (varchar) false (none))
            ∷ ("retry", column (boolean) false (none))
            ∷ []))
          (("PK_e4ff77b66cdd20591ba6189a1f9", constraint primary_key ("id" ∷ [])) ∷ [])
      ∷ create_index "IDX_377bce23ebb90c1ec30e039d0a" (record {
        table = "webhook_attempt";
        columns = "deleted_at" ∷ [];
        unique = false;
        condition = some "deleted_at IS NULL";
      })
      ∷ [];
  down =
      drop_index "IDX_377bce23ebb90c1ec30e039d0a"
      ∷ drop_table "webhook_attempt"
      ∷ drop_index "IDX_7a634ce13d3400dbc5042440fe"
      ∷ drop_table "configurations"
      ∷ [];
}

-- 1693928210110-AddContractEntity.ts
abbrev pub add_contract_entity : Migration
add_contract_entity = record {
  up =
      create_table "contracts"
        (base_columns (
          ("name", column (varchar) true (none))
          ∷ ("symbol", column (varchar) true (none))
          ∷ ("address", column (varchar) true (none))
          ∷ ("chain_id", column (integer) true (none))
          ∷ ("total_supply", column (varchar) true (none))
          ∷ ("cache_media", column (boolean) true (none))
          ∷ []))
        (("PK_2c7b8f3a7b1acdd49497d83d0fb", constraint primary_key ("id" ∷ [])) ∷ [])
      ∷ create_index "IDX_7c3addba4fd7c997a9c444ab1b" (record {
        table = "contracts";
        columns = "deleted_at" ∷ [];
        unique = false;
        condition = some "deleted_at IS NULL";
      })
      ∷ create_index "IDX_15f4a7b7cdf9edd7bbdc168cd5" (record {
        table = "contracts";
        columns = "address" ∷ "chain_id" ∷ [];
        unique = true;
        condition = none;
      })
      ∷ [];
  down =
      drop_index "IDX_15f4a7b7cdf9edd7bbdc168cd5"
      ∷ drop_index "IDX_7c3addba4fd7c997a9c444ab1b"
      ∷ drop_table "contracts"
      ∷ [];
}

-- 1694704273798-ChangeTotalSupplyToNullable.ts
abbrev pub change_total_supply_to_nullable : Migration
change_total_supply_to_nullable = record {
  up = set_not_null "contracts" "total_supply" false ∷ [];
  down = set_not_null "contracts" "total_supply" true ∷ [];
}

-- 1695044831578-AddTokensEntities.ts
abbrev pub add_tokens_entities : Migration
add_tokens_entities = record {
  up =
      create_type "tokens_jobs_status_enum" ("created" ∷ "started" ∷ "completed" ∷ "failed" ∷ [])
      ∷ create_type "tokens_jobs_type_enum" ("verify_mint" ∷ "fetch_metadata" ∷ [])
      ∷ create_table "tokens_jobs"
          (base_columns (
            ("address", column (varchar) true (none))
            ∷ ("chain_id", column (integer) true (none))
            ∷ ("tokens_ids", column (text_array) true (none))
            ∷ ("tokens_uris", column (text_array) false (none))
            ∷ ("execute_at", column (timestamptz) false (none))
            ∷ ("status", column (enum_of "tokens_jobs_status_enum") true (some "'created'"))
            ∷ ("type", column (enum_of "tokens_jobs_type_enum") true (none))
            ∷ []))
          (("PK_d59942539562a3e376bbee9ff40", constraint primary_key ("id" ∷ [])) ∷ [])
      ∷ create_index "IDX_e65159b04d2a6c51cdca5aa8da" (record {
        table = "tokens_jobs";
        columns = "deleted_at" ∷ [];
        unique = false;
        condition = some "deleted_at IS NULL";
      })
      ∷ create_table "tokens"
          (base_columns (
            ("name", column (SqlType.text) false (none))
            ∷ ("description", column (SqlType.text) false (none))
            ∷ ("address", column (varchar) true (none))
            ∷ ("chain_id", column (integer) true (none))
            ∷ ("token_id", column (varchar) true (none))
            ∷ ("token_uri", column (SqlType.text) true (none))
            ∷ ("external_url", column (SqlType.text) false (none))
            ∷ ("image_raw_url", column (SqlType.text) false (none))
            ∷ ("image_gateway_url", column (SqlType.text) false (none))
            ∷ ("metadata", column (jsonb) false (some "'{}'"))
            ∷ []))
          (("PK_3001e89ada36263dabf1fb6210a", constraint primary_key ("id" ∷ [])) ∷ [])
      ∷ create_index "IDX_92d3e8c538a844ea1b14153fa4" (record {
        table = "tokens";
        columns = "deleted_at" ∷ [];
        unique = false;
        condition = some "deleted_at IS NULL";
      })
      ∷ create_index "IDX_4ee033a729483cd638948aa3d9" (record {
        table = "tokens";
        columns = "address" ∷ "token_id" ∷ "chain_id" ∷ [];
        unique = true;
        condition = none;
      })
      ∷ [];
  down =
      drop_index "IDX_4ee033a729483cd638948aa3d9"
      ∷ drop_index "IDX_92d3e8c538a844ea1b14153fa4"
      ∷ drop_table "tokens"
      ∷ drop_index "IDX_e65159b04d2a6c51cdca5aa8da"
      ∷ drop_table "tokens_jobs"
      ∷ drop_type "tokens_jobs_type_enum"
      ∷ drop_type "tokens_jobs_status_enum"
      ∷ [];
}

-- 1695135988319-AddDateControllerOnTokenJobEntity.ts
abbrev pub add_date_controller_on_token_job_entity : Migration
add_date_controller_on_token_job_entity = record {
  up =
      add_column "tokens_jobs" "complete_at" (column (timestamptz) false (none))
      ∷ add_column "tokens_jobs" "failed_at" (column (timestamptz) false (none))
      ∷ add_column "tokens_jobs" "started_at" (column (timestamptz) false (none))
      ∷ [];
  down =
      drop_column "tokens_jobs" "started_at"
      ∷ drop_column "tokens_jobs" "failed_at"
      ∷ drop_column "tokens_jobs" "complete_at"
      ∷ [];
}
