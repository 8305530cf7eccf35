-- ===== src/Invariant/Handlers.antt =====
-- The rules for invariants on the handlers of tokens-job.processor.ts.
use nft_tracker.Prelude.{ℕ, Text, refl, Option, none, some, Bool, true, false, List, [], ◌∷◌, All}
use nft_tracker.Contracts.{sync_total_supply}
use nft_tracker.Store.Entities.{TokenJob, Token}
use nft_tracker.Store.World.{Db, World, Error}
use nft_tracker.Store.Exec.{Exec}
use nft_tracker.Store.Exec.Keeps.{
  Keeps, Holds, Keeps-pure, Keeps-throw, Keeps-gets, Keeps-bind, Keeps-try_catch, keeps_rules,
}
use nft_tracker.Store.Env.{Env}
use nft_tracker.Jobs.VerifyMint
use nft_tracker.Jobs.VerifyMint.{ResyncItem}
use nft_tracker.Jobs.FetchMetadata
use nft_tracker.Jobs.FetchOwnerAddress
use nft_tracker.Jobs.FetchOwnerAddress.{StaleOwners}
use nft_tracker.Jobs.UploadAsset
use nft_tracker.Jobs.RefreshToken
use nft_tracker.Processor.{
  Handler, execute_verify_mint, execute_fetch_metadata, execute_fetch_owner_address,
  execute_upload_asset, execute_refresh_token, check_job_frozen, create_fetch_jobs,
  create_verify_mint_jobs, create_fetch_owner_address_jobs, sync_supply, resync, run_each,
  promise_all, handle, check_job_frozen_handler, create_fetch_jobs_handler,
}
use nft_tracker.Invariant.{Withstands}
use nft_tracker.Invariant.Outside.{Keeps-new_date, Keeps-schedule_jobs, outside_rules}
use nft_tracker.Invariant.Services.{
  token_changes, Keeps-save_job, Keeps-create_job, Keeps-reset_frozen_jobs,
}
use nft_tracker.Invariant.Executes.{
  Keeps-verify_mint, Keeps-fetch_metadata_job, Keeps-fetch_owner_address, Keeps-upload_asset,
  Keeps-refresh_token,
}

module _ {P : World → Type 0} where
  Keeps-run_each :
      (ms : List (Exec Unit)) (thrown : Option Error)
      → All (λ m. Keeps P m) ms
      → Keeps P (run_each ms thrown)
  unfolding run_each
  Keeps-run_each [] none _ = Keeps-pure tt
  Keeps-run_each [] (some e) _ = Keeps-throw e
  Keeps-run_each (m ∷ ms) thrown (km, kms) =
      Keeps-bind _ _
        (Keeps-try_catch _ _ (Keeps-bind _ _ km (λ _. Keeps-pure thrown)) (λ e. Keeps-pure _))
        (λ thrown'. Keeps-run_each ms thrown' kms)

  Keeps-promise_all : (ms : List (Exec Unit)) → All (λ m. Keeps P m) ms → Keeps P (promise_all ms)
  unfolding promise_all
  Keeps-promise_all ms h = Keeps-run_each ms none h

module _ {env : Env} {P : Db → Type 0} {Q : TokenJob → Type 0} (h : Withstands env P Q) where
  Keeps-create_missing :
      (items : List Token) → Keeps (Holds P) (FetchMetadata.create_missing env items)
  unfolding FetchMetadata.create_missing FetchMetadata.create_if_none
  Keeps-create_missing [] = Keeps-pure tt
  Keeps-create_missing (item ∷ items) =
      Keeps-bind _ _ (Keeps-gets _)
        λ b. Keeps-bind _ _ (create_one b) (λ _. Keeps-create_missing items)
    where
      create_one : (b : Bool) → Keeps (Holds P) (FetchMetadata.create_if_none env item b)
      create_one true = Keeps-pure tt
      create_one false = search (outside_rules, Keeps-create_job h) depth 20

  Keeps-check_metadata :
      (picked : List Token → List Token)
      → Keeps (Holds P) (FetchMetadata.check_tokens_without_metadata_for_long_time env picked)
  unfolding FetchMetadata.check_tokens_without_metadata_for_long_time
  Keeps-check_metadata picked = search (keeps_rules, Keeps-create_missing) depth 20

  Keeps-cache_or_create :
      (uri : Option Text) (job : Option TokenJob)
      → Keeps (Holds P) (UploadAsset.cache_or_create env uri job)
  unfolding UploadAsset.cache_or_create
  Keeps-cache_or_create uri none = search (outside_rules, Keeps-create_job h) depth 20
  Keeps-cache_or_create uri (some job) = search (keeps_rules, h.token, token_changes) depth 20

  Keeps-cache_all : (uris : List (Option Text)) → Keeps (Holds P) (UploadAsset.cache_all env uris)
  unfolding UploadAsset.cache_all
  Keeps-cache_all [] = Keeps-pure tt
  Keeps-cache_all (uri ∷ uris) =
      Keeps-bind _ _ (Keeps-gets _)
        λ job. Keeps-bind _ _ (Keeps-cache_or_create uri job) (λ _. Keeps-cache_all uris)

  Keeps-check_media : Keeps (Holds P) (UploadAsset.check_tokens_without_media_cache env)
  unfolding UploadAsset.check_tokens_without_media_cache
  Keeps-check_media = search (keeps_rules, Keeps-cache_all) depth 20

  Keeps-create_for_group :
      (item : StaleOwners) (ids : List ℕ)
      → Keeps (Holds P) (FetchOwnerAddress.create_for_group env item ids)
  unfolding FetchOwnerAddress.create_for_group
  Keeps-create_for_group item ids = search (outside_rules, Keeps-create_job h) depth 20

  Keeps-create_for_groups :
      (item : StaleOwners) (groups : List (List ℕ))
      → Keeps (Holds P) (FetchOwnerAddress.create_for_groups env item groups)
  unfolding FetchOwnerAddress.create_for_groups
  Keeps-create_for_groups item [] = Keeps-pure tt
  Keeps-create_for_groups item (group ∷ groups) =
      Keeps-bind _ _ (Keeps-create_for_group item group) (λ _. Keeps-create_for_groups item groups)

  Keeps-create_for_items :
      (items : List StaleOwners) → Keeps (Holds P) (FetchOwnerAddress.create_for_items env items)
  unfolding FetchOwnerAddress.create_for_items
  Keeps-create_for_items [] = Keeps-pure tt
  Keeps-create_for_items (item ∷ items) =
      Keeps-bind _ _ (Keeps-create_for_groups item _) (λ _. Keeps-create_for_items items)

  Keeps-check_owners :
      Keeps (Holds P) (FetchOwnerAddress.check_tokens_owner_address_not_change_for_long_time env)
  unfolding FetchOwnerAddress.check_tokens_owner_address_not_change_for_long_time
  Keeps-check_owners = search (keeps_rules, Keeps-create_for_items) depth 20

  Keeps-save_resync : (items : List ResyncItem) → Keeps (Holds P) (VerifyMint.save_resync env items)
  unfolding VerifyMint.save_resync
  Keeps-save_resync [] = Keeps-pure tt
  Keeps-save_resync (item ∷ items) =
      Keeps-bind _ _ (Keeps-new_date env)
        λ at. Keeps-bind _ _ (Keeps-save_job h _ _) (λ _. Keeps-save_resync items)

  Keeps-resync : Keeps (Holds P) (VerifyMint.resync_verify_mint env)
  unfolding VerifyMint.resync_verify_mint
  Keeps-resync = search (outside_rules, Keeps-save_resync) depth 20

  Keeps-sync : Keeps (Holds P) (sync_total_supply env)
  unfolding sync_total_supply
  Keeps-sync = search (keeps_rules, h.counted)

  -- Whatever the handler, whether it returns or throws.
  pub handle-Keeps :
      (picked : List Token → List Token) (x : Handler) → Keeps (Holds P) (handle env picked x)
  unfolding handle check_job_frozen_handler create_fetch_jobs_handler
      VerifyMint.check_jobs_have_already_started_but_not_finished
      FetchMetadata.check_jobs_have_already_started_but_not_finished
      FetchOwnerAddress.check_jobs_have_already_started_but_not_finished
      UploadAsset.check_jobs_have_already_started_but_not_finished VerifyMint.schedule_next_jobs
      FetchMetadata.schedule_next_jobs FetchOwnerAddress.schedule_next_jobs
      UploadAsset.schedule_next_jobs RefreshToken.schedule_next_jobs
  handle-Keeps picked (execute_verify_mint id) = Keeps-verify_mint h id
  handle-Keeps picked (execute_fetch_metadata id) = Keeps-fetch_metadata_job h id
  handle-Keeps picked (execute_fetch_owner_address id) = Keeps-fetch_owner_address h id
  handle-Keeps picked (execute_upload_asset id) = Keeps-upload_asset h id
  handle-Keeps picked (execute_refresh_token id) = Keeps-refresh_token h id
  handle-Keeps picked check_job_frozen = Keeps-promise_all _ (
    Keeps-reset_frozen_jobs h _ refl,
    (
      Keeps-reset_frozen_jobs h _ refl,
      (
        Keeps-reset_frozen_jobs h _ refl,
        (Keeps-reset_frozen_jobs h _ refl, (Keeps-check_metadata picked, (Keeps-check_media, tt))),
      ),
    ),
  )
  handle-Keeps picked create_fetch_jobs = Keeps-promise_all _ (
    Keeps-schedule_jobs env _ _ _,
    (
      Keeps-schedule_jobs env _ _ _,
      (Keeps-schedule_jobs env _ _ _, (Keeps-schedule_jobs env _ _ _, tt)),
    ),
  )
  handle-Keeps picked create_verify_mint_jobs = Keeps-schedule_jobs env _ _ _
  handle-Keeps picked create_fetch_owner_address_jobs = Keeps-check_owners
  handle-Keeps picked sync_supply = Keeps-sync
  handle-Keeps picked resync = Keeps-resync
