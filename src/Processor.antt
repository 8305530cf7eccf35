-- ===== src/Processor.antt =====
-- modules/tokens/queue/tokens-job.processor.ts: the handlers of the queue `tokenJob`.
use nft_tracker.Prelude.{ℕ, Option, none, some, List, [], ◌∷◌}
use nft_tracker.Contracts.{sync_total_supply}
use nft_tracker.Store.Entities.{Token}
use nft_tracker.Store.World.{Error}
use nft_tracker.Store.Exec.{Exec, pure, throw, try_catch, ◌>>=◌, ◌>>◌}
use nft_tracker.Store.Env.{Env}
use nft_tracker.Jobs.VerifyMint
use nft_tracker.Jobs.FetchMetadata
use nft_tracker.Jobs.FetchOwnerAddress
use nft_tracker.Jobs.UploadAsset
use nft_tracker.Jobs.RefreshToken

-- The names under which the processor takes jobs, with the id that the job carries.
pub data Handler : Type 0 where
  execute_verify_mint execute_fetch_metadata execute_fetch_owner_address : ℕ → Handler
  execute_upload_asset execute_refresh_token : ℕ → Handler
  check_job_frozen create_fetch_jobs create_verify_mint_jobs : Handler
  create_fetch_owner_address_jobs sync_supply resync : Handler

-- `Promise.all`: every action runs, here in order; then the first error is thrown, if there is one
abbrev first_error : Option Error → Error → Option Error
first_error none e = some e
first_error (some e') e = some e'

abbrev conclude : Option Error → Exec Unit
conclude none = pure tt
conclude (some e) = throw e

unfoldable pub run_each : List (Exec Unit) → Option Error → Exec Unit
run_each [] thrown = conclude thrown
run_each (m ∷ ms) thrown =
    try_catch (m >> pure thrown) (λ e. pure (first_error thrown e)) >>= λ thrown'.
    run_each ms thrown'

unfoldable pub promise_all : List (Exec Unit) → Exec Unit
unfolding run_each
promise_all ms = run_each ms none

-- `picked` is the order in which the database takes up the tokens that lack metadata
module _ (env : Env) (picked : List Token → List Token) where
  unfoldable pub check_job_frozen_handler : Exec Unit
  check_job_frozen_handler = promise_all (
      VerifyMint.check_jobs_have_already_started_but_not_finished env
      ∷ FetchMetadata.check_jobs_have_already_started_but_not_finished env
      ∷ FetchOwnerAddress.check_jobs_have_already_started_but_not_finished env
      ∷ UploadAsset.check_jobs_have_already_started_but_not_finished env
      ∷ FetchMetadata.check_tokens_without_metadata_for_long_time env picked
      ∷ UploadAsset.check_tokens_without_media_cache env
      ∷ [])

  unfoldable pub create_fetch_jobs_handler : Exec Unit
  create_fetch_jobs_handler = promise_all (
      FetchMetadata.schedule_next_jobs env
      ∷ FetchOwnerAddress.schedule_next_jobs env
      ∷ UploadAsset.schedule_next_jobs env
      ∷ RefreshToken.schedule_next_jobs env
      ∷ [])

  unfoldable pub handle : Handler → Exec Unit
  handle (execute_verify_mint job_id) = VerifyMint.execute env job_id
  handle (execute_fetch_metadata job_id) = FetchMetadata.execute env job_id
  handle (execute_fetch_owner_address job_id) = FetchOwnerAddress.execute env job_id
  handle (execute_upload_asset job_id) = UploadAsset.execute env job_id
  handle (execute_refresh_token job_id) = RefreshToken.execute env job_id
  handle check_job_frozen = check_job_frozen_handler
  handle create_fetch_jobs = create_fetch_jobs_handler
  handle create_verify_mint_jobs = VerifyMint.schedule_next_jobs env
  handle create_fetch_owner_address_jobs =
      FetchOwnerAddress.check_tokens_owner_address_not_change_for_long_time env
  handle sync_supply = sync_total_supply env
  handle resync = VerifyMint.resync_verify_mint env
