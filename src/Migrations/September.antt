-- ===== src/Migrations/September.antt =====
-- The migrations of September 2023 from the first indexes on, in src/modules/database/migrations, statement by statement.
use nft_tracker.Prelude.{none, true, false, [], ◌∷◌}
use nft_tracker.Migrations.{
  Migration, create_type, drop_type, rename_type, create_index, drop_index, add_column, drop_column,
  rename_column, set_not_null, set_type, add_constraint, drop_constraint, change_rows, timestamptz,
  bigint, enum_of, SqlType, foreign_key, column, constraint, index_on,
}

-- 1695307733037-CreateTokensJobsIndex.ts
abbrev pub create_tokens_jobs_index : Migration
create_tokens_jobs_index = record {
  up =
      create_index "IDX_322e5f50effa51ca1bec950382" (index_on "tokens_jobs" ("address" ∷ []))
      ∷ create_index "IDX_de10a773974dc24d757037af54" (index_on "tokens_jobs" ("chain_id" ∷ []))
      ∷ create_index "IDX_859e0bf0f7ceeb003a57936a0b" (index_on "tokens_jobs" ("tokens_ids" ∷ []))
      ∷ create_index "IDX_411a3bb44d905bf6bc0cddedda" (index_on "tokens_jobs" ("status" ∷ []))
      ∷ create_index "IDX_361720e9bd43933c0fb927a7c7" (index_on "tokens_jobs" ("type" ∷ []))
      ∷ [];
  down =
      drop_index "IDX_361720e9bd43933c0fb927a7c7"
      ∷ drop_index "IDX_411a3bb44d905bf6bc0cddedda"
      ∷ drop_index "IDX_859e0bf0f7ceeb003a57936a0b"
      ∷ drop_index "IDX_de10a773974dc24d757037af54"
      ∷ drop_index "IDX_322e5f50effa51ca1bec950382"
      ∷ [];
}

-- 1695651725767-ConvertTokenIdToBigInt.ts
abbrev pub convert_token_id_to_big_int : Migration
convert_token_id_to_big_int = record {
  up =
      drop_index "IDX_4ee033a729483cd638948aa3d9"
      ∷ add_column "tokens" "token_id_new" (column (bigint) false (none))
      ∷ change_rows "tokens"
      ∷ rename_column "tokens" "token_id" "token_id_old"
      ∷ rename_column "tokens" "token_id_new" "token_id"
      ∷ drop_column "tokens" "token_id_old"
      ∷ create_index "IDX_4ee033a729483cd638948aa3d9" (record {
        table = "tokens";
        columns = "address" ∷ "token_id" ∷ "chain_id" ∷ [];
        unique = true;
        condition = none;
      })
      ∷ [];
  down = [];
}

-- 1695651993226-SetTokenIdWithNotNull.ts
abbrev pub set_token_id_with_not_null : Migration
set_token_id_with_not_null = record {
  up =
      drop_index "IDX_4ee033a729483cd638948aa3d9"
      ∷ set_not_null "tokens" "token_id" true
      ∷ create_index "IDX_4ee033a729483cd638948aa3d9" (record {
        table = "tokens";
        columns = "address" ∷ "token_id" ∷ "chain_id" ∷ [];
        unique = true;
        condition = none;
      })
      ∷ [];
  down =
      drop_index "IDX_4ee033a729483cd638948aa3d9"
      ∷ set_not_null "tokens" "token_id" false
      ∷ create_index "IDX_4ee033a729483cd638948aa3d9" (record {
        table = "tokens";
        columns = "address" ∷ "chain_id" ∷ "token_id" ∷ [];
        unique = true;
        condition = none;
      })
      ∷ [];
}

-- 1695654174335-RRenameUniqueIndexToken.ts
abbrev pub rename_unique_index_token : Migration
rename_unique_index_token = record {
  up =
      drop_index "IDX_4ee033a729483cd638948aa3d9"
      ∷ create_index "UNIQUE_TOKEN_ADDRESS_TOKEN_ID_CHAIN" (record {
        table = "tokens";
        columns = "address" ∷ "token_id" ∷ "chain_id" ∷ [];
        unique = true;
        condition = none;
      })
      ∷ [];
  down =
      drop_index "UNIQUE_TOKEN_ADDRESS_TOKEN_ID_CHAIN"
      ∷ create_index "IDX_4ee033a729483cd638948aa3d9" (record {
        table = "tokens";
        columns = "address" ∷ "chain_id" ∷ "token_id" ∷ [];
        unique = true;
        condition = none;
      })
      ∷ [];
}

-- 1695734896893-AddAddressAndChainIdReferenceOnTokenEntity.ts
abbrev pub add_address_and_chain_id_reference_on_token_entity : Migration
add_address_and_chain_id_reference_on_token_entity = record {
  up =
      add_constraint "tokens" "FK_234cf91b074d8b361650ac45ae4" (
        constraint (foreign_key "contracts" ("address" ∷ "chain_id" ∷ []))
          ("address" ∷ "chain_id" ∷ []))
      ∷ [];
  down = drop_constraint "tokens" "FK_234cf91b074d8b361650ac45ae4" ∷ [];
}

-- 1695736702653-AddOwnerAddressTokenEntity.ts
abbrev pub add_owner_address_token_entity : Migration
add_owner_address_token_entity = record {
  up = add_column "tokens" "owner_address" (column (SqlType.text) false (none)) ∷ [];
  down = drop_column "tokens" "owner_address" ∷ [];
}

-- 1695737349115-AddNewTypeOnTokenJobs.ts
abbrev pub add_new_type_on_token_jobs : Migration
add_new_type_on_token_jobs = record {
  up =
      add_column "tokens" "last_owner_address_check_at" (column (timestamptz) false (none))
      ∷ add_column "tokens" "last_owner_address_change_at" (column (timestamptz) false (none))
      ∷ rename_type "tokens_jobs_type_enum" "tokens_jobs_type_enum_old"
      ∷ create_type "tokens_jobs_type_enum"
          ("verify_mint" ∷ "fetch_metadata" ∷ "fetch_owner_address" ∷ [])
      ∷ set_type "tokens_jobs" "type" (enum_of "tokens_jobs_type_enum")
      ∷ drop_type "tokens_jobs_type_enum_old"
      ∷ create_index "IDX_cdb95ba875fa7d66d81cb23ea6" (index_on "tokens" ("owner_address" ∷ []))
      ∷ create_index "IDX_a05879b143578c57005e1a6d25"
          (index_on "tokens" ("last_owner_address_check_at" ∷ []))
      ∷ create_index "IDX_e66bfd6f541ee73e447b856e52"
          (index_on "tokens" ("last_owner_address_change_at" ∷ []))
      ∷ [];
  down =
      drop_index "IDX_e66bfd6f541ee73e447b856e52"
      ∷ drop_index "IDX_a05879b143578c57005e1a6d25"
      ∷ drop_index "IDX_cdb95ba875fa7d66d81cb23ea6"
      ∷ create_type "tokens_jobs_type_enum_old" ("verify_mint" ∷ "fetch_metadata" ∷ [])
      ∷ set_type "tokens_jobs" "type" (enum_of "tokens_jobs_type_enum_old")
      ∷ drop_type "tokens_jobs_type_enum"
      ∷ rename_type "tokens_jobs_type_enum_old" "tokens_jobs_type_enum"
      ∷ drop_column "tokens" "last_owner_address_change_at"
      ∷ drop_column "tokens" "last_owner_address_check_at"
      ∷ [];
}
