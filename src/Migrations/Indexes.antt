-- ===== src/Migrations/Indexes.antt =====
-- The migrations of October 2023 after the table of transfers in src/modules/database/migrations, statement by statement.
use nft_tracker.Prelude.{none, some, true, false, [], ◌∷◌}
use nft_tracker.Migrations.{
  Migration, create_index, drop_index, add_column, drop_column, set_default, change_rows, boolean,
  column, index_on,
}

-- 1698242902306-AddTokenJobIndex.ts
abbrev pub add_token_job_index : Migration
add_token_job_index = record {
  up =
      create_index "IDX_0c59ea42fdf93adf68e6c28bff" (record {
        table = "tokens_jobs";
        columns = "type" ∷ "status" ∷ "execute_at" ∷ [];
        unique = false;
        condition = some "deleted_at IS NULL";
      })
      ∷ [];
  down = drop_index "IDX_0c59ea42fdf93adf68e6c28bff" ∷ [];
}

-- 1698243298307-AddTokensIndex.ts
abbrev pub add_tokens_index : Migration
add_tokens_index = record {
  up =
      create_index "IDX_62ccb4a646b93df3066fa393fb" (record {
        table = "tokens";
        columns = "last_owner_address_check_at" ∷ "owner_address" ∷ [];
        unique = false;
        condition = some "deleted_at IS NULL";
      })
      ∷ [];
  down = drop_index "IDX_62ccb4a646b93df3066fa393fb" ∷ [];
}

-- 1698244322611-AddTokenIndexAddressAndChainId.ts
abbrev pub add_token_index_address_and_chain_id : Migration
add_token_index_address_and_chain_id = record {
  up =
      create_index "IDX_48c23ee356fbf2f2f82f52ec91" (record {
        table = "tokens";
        columns = "address" ∷ "chain_id" ∷ [];
        unique = false;
        condition = some "deleted_at IS NULL";
      })
      ∷ [];
  down = drop_index "IDX_48c23ee356fbf2f2f82f52ec91" ∷ [];
}

-- 1698244423373-AddTokenJobsIndexAddressAndChainId.ts
abbrev pub add_token_jobs_index_address_and_chain_id : Migration
add_token_jobs_index_address_and_chain_id = record {
  up =
      create_index "IDX_329f0a9540399e2fb930a06925" (record {
        table = "tokens_jobs";
        columns = "address" ∷ "chain_id" ∷ [];
        unique = false;
        condition = some "deleted_at IS NULL";
      })
      ∷ [];
  down = drop_index "IDX_329f0a9540399e2fb930a06925" ∷ [];
}

-- 1698245256021-RemoveDefaultTokensMetadata.ts
abbrev pub remove_default_tokens_metadata : Migration
remove_default_tokens_metadata = record {
  up = set_default "tokens" "metadata" none ∷ change_rows "tokens" ∷ [];
  down = set_default "tokens" "metadata" (some "'{}'") ∷ [];
}

-- 1698247348898-AddHasMetadataOnTokenEntity.ts
abbrev pub add_has_metadata_on_token_entity : Migration
add_has_metadata_on_token_entity = record {
  up =
      add_column "tokens" "has_metadata" (column (boolean) true (some "false"))
      ∷ create_index "IDX_50cb81c0b051c122c0d05786b0" (index_on "tokens" ("has_metadata" ∷ []))
      ∷ change_rows "tokens"
      ∷ [];
  down = drop_index "IDX_50cb81c0b051c122c0d05786b0" ∷ drop_column "tokens" "has_metadata" ∷ [];
}

-- 1698247627802-AddIndexOnTokenEntity.ts
abbrev pub add_index_on_token_entity : Migration
add_index_on_token_entity = record {
  up =
      create_index "IDX_2d8a14b6e833815bff45c207dc" (record {
        table = "tokens";
        columns = "has_metadata" ∷ "created_at" ∷ [];
        unique = false;
        condition = some "deleted_at IS NULL";
      })
      ∷ [];
  down = drop_index "IDX_2d8a14b6e833815bff45c207dc" ∷ [];
}

-- 1698325540329-AddAssetIdIndex.ts
abbrev pub add_asset_id_index : Migration
add_asset_id_index = record {
  up =
      create_index "IDX_5a8d4b73fb260591ada89e89f3" (record {
        table = "tokens";
        columns = "asset_id" ∷ [];
        unique = false;
        condition = some "asset_id IS NULL";
      })
      ∷ [];
  down = drop_index "IDX_5a8d4b73fb260591ada89e89f3" ∷ [];
}

-- 1698336757028-AddHasAssetCollumn.ts
abbrev pub add_has_asset_collumn : Migration
add_has_asset_collumn = record {
  up =
      drop_index "IDX_5a8d4b73fb260591ada89e89f3"
      ∷ add_column "tokens" "has_asset" (column (boolean) true (some "false"))
      ∷ create_index "IDX_c3371f9873d28d6f4c102ec267" (index_on "tokens" ("has_asset" ∷ []))
      ∷ change_rows "tokens"
      ∷ [];
  down =
      drop_index "IDX_c3371f9873d28d6f4c102ec267"
      ∷ drop_column "tokens" "has_asset"
      ∷ create_index "IDX_5a8d4b73fb260591ada89e89f3" (record {
        table = "tokens";
        columns = "asset_id" ∷ [];
        unique = false;
        condition = some "asset_id IS NULL";
      })
      ∷ [];
}
