-- ===== src/Migrations/November.antt =====
-- The migrations of November 2023 in src/modules/database/migrations, statement by statement.
use nft_tracker.Prelude.{none, false, [], ◌∷◌}
use nft_tracker.Migrations.{
  Migration, create_index, drop_index, add_column, drop_column, add_constraint, drop_constraint,
  uuid, foreign_key, column, constraint, index_on,
}

-- 1699877504461-AddAssetTokenJobOnTokenEntity.ts
abbrev pub add_asset_token_job_on_token_entity : Migration
add_asset_token_job_on_token_entity = record {
  up =
      add_column "tokens" "asset_token_job_id" (column (uuid) false (none))
      ∷ create_index "IDX_ecd4c2a0bd9c0976592e247256"
          (index_on "tokens" ("asset_token_job_id" ∷ []))
      ∷ add_constraint "tokens" "FK_ecd4c2a0bd9c0976592e2472563"
          (constraint (foreign_key "tokens_jobs" ("id" ∷ [])) ("asset_token_job_id" ∷ []))
      ∷ [];
  down =
      drop_constraint "tokens" "FK_ecd4c2a0bd9c0976592e2472563"
      ∷ drop_index "IDX_ecd4c2a0bd9c0976592e247256"
      ∷ drop_column "tokens" "asset_token_job_id"
      ∷ [];
}
