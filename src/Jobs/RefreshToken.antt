-- ===== src/Jobs/RefreshToken.antt =====
-- modules/tokens/tokens-jobs-refresh-token.service.ts
use nft_tracker.Prelude.{
  ℕ, Text, text, Option, none, some, Bool, true, false, List, [], ◌==◌, ◌===◌, ◌&&◌, or_else,
  is_empty, find_one, if◌then◌else◌,
}
use nft_tracker.Uri.{truthy}
use nft_tracker.Store.Entities.{TokenJob, Token, Contract, refresh_token}
use nft_tracker.Store.World.{Db, token_not_found, message, execute_refresh_token_by_job}
use nft_tracker.Store.Exec.{Exec, repository, pure, throw, gets, try_catch, write, ◌>>=◌, ◌>>◌}
use nft_tracker.Store.Env.{Env}
use nft_tracker.Store.Tables.{
  new_date, update_jobs, has_id, is_ready, start_job, complete_job, fail_job,
}
use nft_tracker.Jobs.Schedule.{reset_frozen_jobs, schedule_jobs}
use nft_tracker.Jobs.VerifyMint.{verify_mint_by_tokens_ids, place_of}
use nft_tracker.Jobs.FetchMetadata.{TokenKey, fetch_metadata_by_token_and_update, first}
use nft_tracker.Jobs.UploadAsset.{upload_asset_and_update_token}

-- the contract of a token, by the relation's columns
abbrev cache_media_of : Option Contract → Bool
cache_media_of none = false
cache_media_of (some c) = c.cache_media

abbrev contract_of : Token → List Contract → Option Contract
contract_of t = find_one (λ c. c.address === t.address && c.chain_id == t.chain_id)

abbrev matches : Option ℕ → ℕ → Bool
matches none n = true
matches (some m) n = m == n

module _ (env : Env) where
  -- `ILike(…)` of a missing value matches nothing; elsewhere in a `where` of a find, a property
  -- that is null or undefined is no condition
  abbrev like : Text → Option Text → Bool
  like address none = false
  like address (some pattern) = env.ilike address pattern

  abbrev find_token : TokenKey → Db → Option Token
  find_token key d =
      find_one
        (λ t.
          like t.address key.address
          && matches key.chain_id t.chain_id
          && matches key.token_id t.token_id)
        d.tokens

  unfoldable pub get_token : TokenKey → Exec (Option Token)
  get_token key = gets (λ w. find_token key w.db)

  unfoldable pub found_or_throw : TokenKey → Option Token → Exec Token
  found_or_throw key (some token) = pure token
  found_or_throw key none = throw (token_not_found key.address key.chain_id key.token_id)

  unfoldable pub cache_media_asset : Option Token → Exec Unit
  cache_media_asset none = pure tt
  cache_media_asset (some token) = do
    cached ← gets (λ w. cache_media_of (contract_of token w.db.contracts))
    if cached
        then if truthy token.image_raw_url
          then upload_asset_and_update_token env (or_else token.image_raw_url [])
          else throw (message (text "Token imageRawUrl is empty"))
        else pure tt

  abbrev pub key_of : TokenJob → TokenKey
  key_of job = record {
    address = job.address;
    chain_id = job.chain_id;
    token_id = first job.tokens_ids;
  }

  unfoldable pub execute_started : TokenJob → Exec Unit
  unfolding found_or_throw cache_media_asset
  execute_started job = do
    started_at ← new_date env
    write repository (update_jobs (has_id job.id) (start_job started_at))
    verify_mint_by_tokens_ids env false (place_of env job) job.tokens_ids
    found ← get_token (key_of job)
    token ← found_or_throw (key_of job) found
    fetch_metadata_by_token_and_update env token.token_uri (key_of job)
    refreshed ← get_token (key_of job)
    cache_media_asset refreshed
    complete_at ← new_date env
    write repository (update_jobs (has_id job.id) (complete_job complete_at))

  unfoldable pub run_job : Option TokenJob → Exec Unit
  run_job none = pure tt
  run_job (some job) =
      if is_empty job.tokens_ids
      then pure tt
      else try_catch (execute_started job) (λ error. do
        now ← new_date env
        write repository (update_jobs (has_id job.id) (fail_job now))
        throw error)

  unfoldable pub execute : ℕ → Exec Unit
  unfolding run_job
  execute job_id = do
    now ← new_date env
    job ← gets (λ w. find_one (is_ready refresh_token now job_id) w.db.jobs)
    run_job job

  unfoldable pub check_jobs_have_already_started_but_not_finished : Exec Unit
  check_jobs_have_already_started_but_not_finished = reset_frozen_jobs env refresh_token

  unfoldable pub schedule_next_jobs : Exec Unit
  schedule_next_jobs = schedule_jobs env refresh_token (some 30) execute_refresh_token_by_job
