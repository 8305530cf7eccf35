-- ===== src/Jobs/FetchMetadata.antt =====
-- modules/tokens/tokens-jobs-fetch-metadata.service.ts
pub mod Payload
pub mod Stale
use nft_tracker.Prelude.{
  ℕ, zero, suc, ◌+◌, ◌-◌, ◌*◌, ◌^◌, Text, text, Option, none, some, Bool, true, false, List, [],
  ◌∷◌, ◌++◌, ◌==◌, ◌===◌, ◌&&◌, ltb, is_empty, is_some, or_else, find_one, select, take, any,
  if◌then◌else◌,
}
use nft_tracker.Uri.{sanitize_uri, truthy}
use nft_tracker.Store.Entities.{
  TokenJob, TokenJobStatus, Token, TokenAsset, Json, fetch_metadata, same_type, same_status,
}
use nft_tracker.Store.World.{Error, too_many_requests, message, execute_fetch_metadata_by_job}
use nft_tracker.Store.Exec.{Exec, repository, pure, throw, gets, ask, try_catch, write, ◌>>=◌, ◌>>◌}
use nft_tracker.Store.Env.{Env, HttpFailure, HttpReply, body, failure}
use nft_tracker.Store.Tables.{
  new_date, update_jobs, update_tokens, has_token_key, has_id, is_ready, start_job, complete_job,
}
use nft_tracker.Jobs.Service.{create_job}
use nft_tracker.Jobs.Schedule.{reset_frozen_jobs, schedule_jobs}
use Payload.{SanitizedPayload, sanitize_payload, is_not_empty_object}

-- The token whose metadata is fetched, as a job or a caller names it.
pub record TokenKey : Type 0 where
  pub address : Option Text
  pub chain_id : Option ℕ
  pub token_id : Option ℕ

abbrev pub first {ℓ} : {A : Type ℓ} → List A → Option A
first [] = none
first (x ∷ xs) = some x

abbrev when_truthy : Option Text → Option Text
when_truthy none = none
when_truthy (some []) = none
when_truthy (some (c ∷ s)) = some (c ∷ s)

abbrev or_other : Option Text → Option Text → Option Text
or_other none b = b
or_other (some a) b = some a

-- `handleAxiosError`; the request always has failed with an `AxiosError` here
unfoldable pub handle_axios_error : HttpFailure → Error
handle_axios_error e = message (
    or_else (or_other (when_truthy e.data_message) (when_truthy e.error_message))
      (text "Unknown error")
    ++ text " by "
    ++ e.request_url)

abbrev is_too_many : Option ℕ → Bool
is_too_many none = false
is_too_many (some status) = status == 429

abbrev get_failed : HttpFailure → Error
get_failed e = if is_too_many e.status then too_many_requests else handle_axios_error e

-- `calculateExponentialBackoffTime`: a delay of `base_delay * 2 ^ (current_attempt - 1)`
unfoldable pub backoff_delay : ℕ → ℕ → ℕ
backoff_delay current_attempt base_delay = base_delay * 2 ^ (current_attempt - 1)

abbrev pub retry_job : ℕ → ℕ → ℕ → TokenJob → TokenJob
retry_job execute_at attempts now j = record j {
  status = TokenJobStatus.created;
  execute_at = some execute_at;
  attempts = attempts;
  failed_at = some now;
}

abbrev pub fail_once : ℕ → TokenJob → TokenJob
fail_once now j = record j { status = TokenJobStatus.failed; failed_at = some now; attempts = 1 }

-- A column whose value is undefined is left out of an update.
abbrev defined_or : Option ℕ → Option ℕ → Option ℕ
defined_or none old = old
defined_or (some new) old = some new

-- the `update` of `updateMetadataToken`
unfoldable pub set_metadata : SanitizedPayload → Option ℕ → Option ℕ → Token → Token
unfolding is_not_empty_object
set_metadata p asset_id asset_token_job_id t = record t {
  name = some p.name;
  description = some p.description;
  external_url = some p.external_url;
  image_raw_url = some p.image_raw_url;
  metadata = some p.metadata;
  has_metadata = is_not_empty_object p.metadata;
  asset_id = defined_or asset_id t.asset_id;
  has_asset = is_some asset_id;
  asset_token_job_id = defined_or asset_token_job_id t.asset_token_job_id;
}

abbrev text_equals : Option Text → Text → Bool
text_equals none t = false
text_equals (some s) t = s === t

abbrev pub asset_of : Text → List TokenAsset → Option ℕ
asset_of image assets = id_of (find_one (λ a. a.raw_url === image) assets)
  where
    id_of : Option TokenAsset → Option ℕ
    id_of none = none
    id_of (some a) = some a.id

abbrev pub asset_job_of : Text → List TokenJob → Option ℕ
asset_job_of image jobs = id_of (find_one (λ j. text_equals j.asset_uri image) jobs)
  where
    id_of : Option TokenJob → Option ℕ
    id_of none = none
    id_of (some j) = some j.id

module _ (env : Env) where
  unfoldable pub get_reply : HttpReply → Exec (Option Json)
  get_reply (body payload) = pure (some payload)
  get_reply (failure e) = throw (get_failed e)

  unfoldable pub fetch_metadata_from : Text → Exec (Option Json)
  unfolding get_reply
  fetch_metadata_from token_uri =
      let uri = sanitize_uri env.is_url token_uri in
      if env.is_url uri
      then ask (λ t. env.http_get t uri) >>= get_reply
      else pure (if env.is_json token_uri then env.parse_json token_uri else none)

  unfoldable pub update_metadata_token : TokenKey → Option Json → Exec Unit
  update_metadata_token key payload = do
    let p = sanitize_payload env.is_url payload
    let image = p.image_raw_url
    asset ← gets (λ w. if is_empty image then none else asset_of image w.db.assets)
    asset_token_job ← gets (λ w. if is_some asset then asset_job_of image w.db.jobs else none)
    write repository (
        update_tokens (has_token_key key.address key.chain_id key.token_id)
          (set_metadata p asset asset_token_job))

  unfoldable pub fetch_metadata_by_token_and_update : Text → TokenKey → Exec Unit
  fetch_metadata_by_token_and_update token_uri key = do
    payload ← fetch_metadata_from token_uri
    update_metadata_token key payload

  -- `calculateExponentialBackoffTime`
  unfoldable pub calculate_exponential_backoff_time : ℕ → ℕ → Exec ℕ
  calculate_exponential_backoff_time current_attempt base_delay = new_date env >>= λ now.
      pure (if ltb current_attempt 1 then now else now + backoff_delay current_attempt base_delay)

  unfoldable pub handle_error : TokenJob → Error → Exec Unit
  handle_error job too_many_requests = do
    let attempts = job.attempts + 1
    execute_at ← calculate_exponential_backoff_time attempts (60 * 1000)
    now ← new_date env
    write repository (update_jobs (has_id job.id) (retry_job execute_at attempts now))
    throw too_many_requests
  handle_error job error = do
    now ← new_date env
    write repository (update_jobs (has_id job.id) (fail_once now))
    throw error

  unfoldable pub execute_started : TokenJob → Text → Exec Unit
  execute_started job token_uri = do
    started_at ← new_date env
    write repository (update_jobs (has_id job.id) (start_job started_at))
    fetch_metadata_by_token_and_update token_uri
        (record { address = job.address; chain_id = job.chain_id; token_id = first job.tokens_ids })
    complete_at ← new_date env
    write repository (update_jobs (has_id job.id) (complete_job complete_at))

  unfoldable pub run_uris : TokenJob → Option (List Text) → Exec Unit
  run_uris job (some (token_uri ∷ more)) =
      try_catch (execute_started job token_uri) (handle_error job)
  run_uris job _ = pure tt

  unfoldable pub run_job : Option TokenJob → Exec Unit
  unfolding run_uris
  run_job none = pure tt
  run_job (some job) = run_uris job job.tokens_uris

  unfoldable pub execute : ℕ → Exec Unit
  unfolding run_job handle_error
  execute job_id = do
    now ← new_date env
    job ← gets (λ w. find_one (is_ready fetch_metadata now job_id) w.db.jobs)
    run_job job

  unfoldable pub check_jobs_have_already_started_but_not_finished : Exec Unit
  check_jobs_have_already_started_but_not_finished = reset_frozen_jobs env fetch_metadata

  -- `has_metadata = false AND created_at < NOW() - INTERVAL '1 hour'`; the database picks any ten
  -- in a random order, which is `picked`
  abbrev pub lacks_metadata : ℕ → Token → Bool
  lacks_metadata now t =
      (if t.has_metadata then false else true) && ltb (t.created_at + 3600000) now

  abbrev pub awaits_metadata : ℕ → TokenJob → Bool
  awaits_metadata token_id j =
      any (λ id. id == token_id) j.tokens_ids
      && same_type j.type fetch_metadata
      && same_status j.status TokenJobStatus.created

  unfoldable pub create_if_none : Token → Bool → Exec Unit
  create_if_none item true = pure tt
  create_if_none item false = do
    now ← new_date env
    create_job env (record {
      tokens_ids = item.token_id ∷ [];
      tokens_uris = some (item.token_uri ∷ []);
      address = some item.address;
      chain_id = some item.chain_id;
      type = fetch_metadata;
      asset_uri = none;
      execute_at = some now;
    })
    pure tt

  unfoldable pub create_missing : List Token → Exec Unit
  create_missing [] = pure tt
  create_missing (item ∷ items) = do
    already_exists ← gets (λ w. any (awaits_metadata item.token_id) w.db.jobs)
    create_if_none item already_exists
    create_missing items

  unfoldable pub check_tokens_without_metadata_for_long_time : (List Token → List Token) → Exec Unit
  unfolding create_missing create_if_none
  check_tokens_without_metadata_for_long_time picked = do
    now ← ask env.clock
    items ← gets (λ w. take 10 (picked (select (lacks_metadata now) w.db.tokens)))
    create_missing items

  unfoldable pub schedule_next_jobs : Exec Unit
  schedule_next_jobs = schedule_jobs env fetch_metadata (some 30) execute_fetch_metadata_by_job
