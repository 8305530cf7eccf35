-- ===== src/Migrations/History.antt =====
-- Every migration that changes the schema, in order, and those that only add to it: reverting one of
-- them leads back to the schema that it was run on.
use nft_tracker.Prelude.{ℕ, ◌≡◌, refl, some, List, [], ◌∷◌, All, get_elem?, All-get_elem?}
use nft_tracker.Migrations.{Schema, Migration, run}
use nft_tracker.Migrations.Valid.{IsSchema}
use nft_tracker.Migrations.Revert.{revert_of, run-revert_of}
use nft_tracker.Migrations.Start.{
  create_uuid_ossp, create_webhook_and_configuration_entity, add_contract_entity,
  change_total_supply_to_nullable, add_tokens_entities, add_date_controller_on_token_job_entity,
}
use nft_tracker.Migrations.September.{
  create_tokens_jobs_index, convert_token_id_to_big_int, set_token_id_with_not_null,
  rename_unique_index_token, add_address_and_chain_id_reference_on_token_entity,
  add_owner_address_token_entity, add_new_type_on_token_jobs,
}
use nft_tracker.Migrations.October.{
  add_token_asset_entity, add_address_and_chain_id_with_nullable, add_index_token_asset,
  add_refresh_token_type_on_token_jobs, add_attemps_token_job, add_token_transfer_entity,
}
use nft_tracker.Migrations.Indexes.{
  add_token_job_index, add_tokens_index, add_token_index_address_and_chain_id,
  add_token_jobs_index_address_and_chain_id, remove_default_tokens_metadata,
  add_has_metadata_on_token_entity, add_index_on_token_entity, add_asset_id_index,
  add_has_asset_collumn,
}
use nft_tracker.Migrations.November.{add_asset_token_job_on_token_entity}

abbrev pub schema_migrations : List Migration
schema_migrations =
    create_uuid_ossp ∷ create_webhook_and_configuration_entity ∷ add_contract_entity
    ∷ change_total_supply_to_nullable ∷ add_tokens_entities
    ∷ add_date_controller_on_token_job_entity ∷ create_tokens_jobs_index
    ∷ convert_token_id_to_big_int ∷ set_token_id_with_not_null ∷ rename_unique_index_token
    ∷ add_address_and_chain_id_reference_on_token_entity ∷ add_owner_address_token_entity
    ∷ add_new_type_on_token_jobs ∷ add_token_asset_entity ∷ add_address_and_chain_id_with_nullable
    ∷ add_index_token_asset ∷ add_refresh_token_type_on_token_jobs ∷ add_attemps_token_job
    ∷ add_token_transfer_entity ∷ add_token_job_index ∷ add_tokens_index
    ∷ add_token_index_address_and_chain_id ∷ add_token_jobs_index_address_and_chain_id
    ∷ remove_default_tokens_metadata ∷ add_has_metadata_on_token_entity ∷ add_index_on_token_entity
    ∷ add_asset_id_index ∷ add_has_asset_collumn ∷ add_asset_token_job_on_token_entity ∷ []

abbrev pub additive_migrations : List Migration
additive_migrations =
    create_webhook_and_configuration_entity ∷ add_contract_entity ∷ add_tokens_entities
    ∷ add_date_controller_on_token_job_entity ∷ create_tokens_jobs_index
    ∷ add_address_and_chain_id_reference_on_token_entity ∷ add_owner_address_token_entity
    ∷ add_attemps_token_job ∷ add_token_transfer_entity ∷ add_token_job_index ∷ add_tokens_index
    ∷ add_token_index_address_and_chain_id ∷ add_token_jobs_index_address_and_chain_id
    ∷ add_has_metadata_on_token_entity ∷ add_index_on_token_entity ∷ add_asset_id_index
    ∷ add_asset_token_job_on_token_entity ∷ []

-- how the migration is taken back is how its statements are
abbrev IsAdditive : Migration → Type 0
IsAdditive m = revert_of m.up ≡ some m.down

additive_migrations-IsAdditive : All IsAdditive additive_migrations
additive_migrations-IsAdditive =
    ((
      refl,
      (
        refl,
        (
          refl,
          (
            refl,
            (
              refl,
              (
                refl,
                (
                  refl,
                  (
                    refl,
                    (refl, (refl, (refl, (refl, (refl, (refl, (refl, (refl, (refl, tt))))))))),
                  ),
                ),
              ),
            ),
          ),
        ),
      ),
    ))

-- A migration that only adds to the schema, run on a valid one and reverted at once, leads back to
-- the schema before it, whatever that was: each of its tables, columns, indexes, types and
-- constraints is gone, and nothing else. After the run the schema is valid again.
pub revert-run :
    (i : ℕ) {m : Migration} {s s' : Schema}
    → get_elem? additive_migrations i ≡ some m
    → IsSchema s
    → run m.up s ≡ some s'
    → (run m.down s' ≡ some s) × IsSchema s'
revert-run i {m} there valid h =
    run-revert_of m.up
      (All-get_elem? IsAdditive additive_migrations i additive_migrations-IsAdditive there) valid h
