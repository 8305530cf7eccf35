-- ===== src/Migrations/October.antt =====
-- The migrations of October 2023, up to the table of transfers, in src/modules/database/migrations, statement by statement.
use nft_tracker.Prelude.{none, some, true, false, [], ◌∷◌}
use nft_tracker.Migrations.{
  Migration, create_type, drop_type, rename_type, create_table, drop_table, create_index,
  drop_index, add_column, drop_column, rename_column, set_not_null, set_type, add_constraint,
  drop_constraint, uuid, timestamptz, varchar, integer, bigint, enum_of, SqlType, primary_key,
  foreign_key, column, constraint, base_columns, index_on,
}

-- 1696348045289-AddTokenAssetEntity.ts
abbrev pub add_token_asset_entity : Migration
add_token_asset_entity = record {
  up =
      rename_column "tokens" "image_gateway_url" "asset_id"
      ∷ create_type "tokens_assets_status_enum"
          ("created" ∷ "uploading" ∷ "uploaded" ∷ "failed" ∷ [])
      ∷ create_table "tokens_assets"
          (base_columns (
            ("raw_url", column (SqlType.text) true (none))
            ∷ ("public_id", column (SqlType.text) true (none))
            ∷ ("url", column (SqlType.text) false (none))
            ∷ ("status", column (enum_of "tokens_assets_status_enum") true (some "'created'"))
            ∷ []))
          (("PK_193e95ad179a0ca8406d7c14a96", constraint primary_key ("id" ∷ [])) ∷ [])
      ∷ create_index "IDX_42df1f60cd9e61e198dca39a95" (record {
        table = "tokens_assets";
        columns = "deleted_at" ∷ [];
        unique = false;
        condition = some "deleted_at IS NULL";
      })
      ∷ create_index "IDX_c18bfa6a32d6ea135a70aa70db" (index_on "tokens_assets" ("raw_url" ∷ []))
      ∷ create_index "IDX_833b37801b142cd8900dd321a5" (index_on "tokens_assets" ("public_id" ∷ []))
      ∷ create_index "IDX_fe653dfd314a70728851c6440f" (index_on "tokens_assets" ("status" ∷ []))
      ∷ add_column "tokens_jobs" "asset_uri" (column (SqlType.text) false (none))
      ∷ rename_type "tokens_jobs_type_enum" "tokens_jobs_type_enum_old"
      ∷ create_type "tokens_jobs_type_enum"
          ("verify_mint" ∷ "fetch_metadata" ∷ "fetch_owner_address" ∷ "upload_asset" ∷ [])
      ∷ set_type "tokens_jobs" "type" (enum_of "tokens_jobs_type_enum")
      ∷ drop_type "tokens_jobs_type_enum_old"
      ∷ drop_column "tokens" "asset_id"
      ∷ add_column "tokens" "asset_id" (column (uuid) false (none))
      ∷ create_index "IDX_f75e4ed198f5c654eac5e98e50" (index_on "tokens_jobs" ("asset_uri" ∷ []))
      ∷ create_index "IDX_b81b5d1fb0318bc9ae63de60d0" (index_on "tokens" ("asset_id" ∷ []))
      ∷ add_constraint "tokens" "FK_b81b5d1fb0318bc9ae63de60d0c"
          (constraint (foreign_key "tokens_assets" ("id" ∷ [])) ("asset_id" ∷ []))
      ∷ [];
  down =
      drop_constraint "tokens" "FK_b81b5d1fb0318bc9ae63de60d0c"
      ∷ drop_index "IDX_b81b5d1fb0318bc9ae63de60d0"
      ∷ drop_index "IDX_f75e4ed198f5c654eac5e98e50"
      ∷ drop_column "tokens" "asset_id"
      ∷ add_column "tokens" "asset_id" (column (SqlType.text) false (none))
      ∷ create_type "tokens_jobs_type_enum_old"
          ("verify_mint" ∷ "fetch_metadata" ∷ "fetch_owner_address" ∷ [])
      ∷ set_type "tokens_jobs" "type" (enum_of "tokens_jobs_type_enum_old")
      ∷ drop_type "tokens_jobs_type_enum"
      ∷ rename_type "tokens_jobs_type_enum_old" "tokens_jobs_type_enum"
      ∷ drop_column "tokens_jobs" "asset_uri"
      ∷ drop_index "IDX_fe653dfd314a70728851c6440f"
      ∷ drop_index "IDX_833b37801b142cd8900dd321a5"
      ∷ drop_index "IDX_c18bfa6a32d6ea135a70aa70db"
      ∷ drop_index "IDX_42df1f60cd9e61e198dca39a95"
      ∷ drop_table "tokens_assets"
      ∷ drop_type "tokens_assets_status_enum"
      ∷ rename_column "tokens" "asset_id" "image_gateway_url"
      ∷ [];
}

-- 1696351177214-AddAddressAndChainIdWithNullable.ts
abbrev pub add_address_and_chain_id_with_nullable : Migration
add_address_and_chain_id_with_nullable = record {
  up =
      set_not_null "tokens_jobs" "address" false ∷ set_not_null "tokens_jobs" "chain_id" false ∷ [];
  down =
      set_not_null "tokens_jobs" "chain_id" true ∷ set_not_null "tokens_jobs" "address" true ∷ [];
}

-- 1696423872615-AddIndexTokenAsset.ts
abbrev pub add_index_token_asset : Migration
add_index_token_asset = record {
  up =
      drop_index "IDX_833b37801b142cd8900dd321a5"
      ∷ create_index "IDX_833b37801b142cd8900dd321a5" (record {
        table = "tokens_assets";
        columns = "public_id" ∷ [];
        unique = true;
        condition = none;
      })
      ∷ [];
  down =
      drop_index "IDX_833b37801b142cd8900dd321a5"
      ∷ create_index "IDX_833b37801b142cd8900dd321a5" (index_on "tokens_assets" ("public_id" ∷ []))
      ∷ [];
}

-- 1696515829028-AddRefreshTokenTypeOnTokenJobs.ts
abbrev pub add_refresh_token_type_on_token_jobs : Migration
add_refresh_token_type_on_token_jobs = record {
  up =
      rename_type "tokens_jobs_type_enum" "tokens_jobs_type_enum_old"
      ∷ create_type "tokens_jobs_type_enum" (
          "verify_mint" ∷ "fetch_metadata" ∷ "fetch_owner_address" ∷ "upload_asset"
          ∷ "refresh_token" ∷ [])
      ∷ set_type "tokens_jobs" "type" (enum_of "tokens_jobs_type_enum")
      ∷ drop_type "tokens_jobs_type_enum_old"
      ∷ [];
  down =
      create_type "tokens_jobs_type_enum_old"
        ("verify_mint" ∷ "fetch_metadata" ∷ "fetch_owner_address" ∷ "upload_asset" ∷ [])
      ∷ set_type "tokens_jobs" "type" (enum_of "tokens_jobs_type_enum_old")
      ∷ drop_type "tokens_jobs_type_enum"
      ∷ rename_type "tokens_jobs_type_enum_old" "tokens_jobs_type_enum"
      ∷ [];
}

-- 1697466460185-AddAttempsTokenJob.ts
abbrev pub add_attemps_token_job : Migration
add_attemps_token_job = record {
  up = add_column "tokens_jobs" "attempts" (column (integer) true (some "'0'")) ∷ [];
  down = drop_column "tokens_jobs" "attempts" ∷ [];
}

-- 1698069130114-AddTokenTransferEntity.ts
abbrev pub add_token_transfer_entity : Migration
add_token_transfer_entity = record {
  up =
      create_table "tokens_transfer"
        (base_columns (
          ("address", column (varchar) true (none))
          ∷ ("chain_id", column (integer) true (none))
          ∷ ("from_address", column (SqlType.text) true (none))
          ∷ ("to_address", column (SqlType.text) true (none))
          ∷ ("token_id", column (bigint) true (none))
          ∷ ("block_number", column (integer) true (none))
          ∷ ("transaction_hash", column (SqlType.text) true (none))
          ∷ ("transaction_index", column (integer) true (none))
          ∷ ("transferred_at", column (timestamptz) true (some "now()"))
          ∷ []))
        (("PK_5e959005d89b51e90a758733c14", constraint primary_key ("id" ∷ [])) ∷ [])
      ∷ create_index "IDX_eeb89986829fbf1e2dad72b7ac" (record {
        table = "tokens_transfer";
        columns = "deleted_at" ∷ [];
        unique = false;
        condition = some "deleted_at IS NULL";
      })
      ∷ create_index "IDX_2b2481871f767a969ef68e9c21" (index_on "tokens_transfer" ("address" ∷ []))
      ∷ create_index "IDX_f1606e501dba03db7a8acee5f2" (index_on "tokens_transfer" ("chain_id" ∷ []))
      ∷ create_index "IDX_c9c59bbc4df78da0e86e616e6b"
          (index_on "tokens_transfer" ("from_address" ∷ []))
      ∷ create_index "IDX_6b441b9ef7a71690bcbe87c1a0"
          (index_on "tokens_transfer" ("to_address" ∷ []))
      ∷ create_index "IDX_db33bd4c8892710766737fc60b" (index_on "tokens_transfer" ("token_id" ∷ []))
      ∷ create_index "IDX_0da7bb0a4f8a588a09de17f241"
          (index_on "tokens_transfer" ("transaction_hash" ∷ []))
      ∷ create_index "IDX_bb423ff7007548f19e8b8e1425"
          (index_on "tokens_transfer" ("transferred_at" ∷ []))
      ∷ create_index "IDX_471ef610f86a89a58877f18543" (record {
        table = "tokens_transfer";
        columns =
            "address" ∷ "token_id" ∷ "transaction_hash" ∷ "chain_id" ∷ "transaction_index" ∷ [];
        unique = true;
        condition = none;
      })
      ∷ create_index "IDX_8887c0fb937bc0e9dc36cb62f3" (index_on "tokens" ("address" ∷ []))
      ∷ create_index "IDX_146682b87089cb89412039459b" (index_on "tokens" ("chain_id" ∷ []))
      ∷ add_constraint "tokens_transfer" "FK_169352297cf2ad34feccf8969e3" (
          constraint (foreign_key "contracts" ("address" ∷ "chain_id" ∷ []))
            ("address" ∷ "chain_id" ∷ []))
      ∷ [];
  down =
      drop_constraint "tokens_transfer" "FK_169352297cf2ad34feccf8969e3"
      ∷ drop_index "IDX_146682b87089cb89412039459b"
      ∷ drop_index "IDX_8887c0fb937bc0e9dc36cb62f3"
      ∷ drop_index "IDX_471ef610f86a89a58877f18543"
      ∷ drop_index "IDX_bb423ff7007548f19e8b8e1425"
      ∷ drop_index "IDX_0da7bb0a4f8a588a09de17f241"
      ∷ drop_index "IDX_db33bd4c8892710766737fc60b"
      ∷ drop_index "IDX_6b441b9ef7a71690bcbe87c1a0"
      ∷ drop_index "IDX_c9c59bbc4df78da0e86e616e6b"
      ∷ drop_index "IDX_f1606e501dba03db7a8acee5f2"
      ∷ drop_index "IDX_2b2481871f767a969ef68e9c21"
      ∷ drop_index "IDX_eeb89986829fbf1e2dad72b7ac"
      ∷ drop_table "tokens_transfer"
      ∷ [];
}
