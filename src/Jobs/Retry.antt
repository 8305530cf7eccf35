-- ===== src/Jobs/Retry.antt =====
-- How `execute` of tokens-jobs-fetch-metadata.service.ts leaves its job, and when it comes back.
use nft_tracker.Prelude.{
  ℕ, ◌+◌, ◌*◌, ◌^◌, ◌≡◌, refl, ap, Text, Option, none, some, List, [], ◌∷◌, ltb, find_one, arith,
  if◌then◌else◌,
}
use nft_tracker.Store.Entities.{TokenJob, TokenJobStatus, fetch_metadata}
use nft_tracker.Store.World.{
  World, Error, too_many_requests, aggregate, rpc_error, message, token_not_found,
  contract_already_exists, contract_not_found, unprocessable, internal_error, entity_not_found,
  chain_not_supported,
}
use nft_tracker.Store.Exec.{Result, repository, throw, write, ◌>>=◌, ◌>>◌}
use nft_tracker.Store.Exec.Ends.{Throws, Settles, Settles-try_catch, Throws-write}
use nft_tracker.Store.Env.{Env}
use nft_tracker.Store.Tables.{new_date, has_id, is_ready, update_jobs}
use nft_tracker.Jobs.FetchMetadata.{
  fail_once, backoff_delay, calculate_exponential_backoff_time, handle_error, execute_started,
  run_uris, run_job, execute,
}
use nft_tracker.Jobs.Outcome.{
  RowOf, RowOf-update, execute-run, Completes, Completes-bind, Completes-complete,
}

-- Created again, one attempt further, with the date of the next one: a minute after the answer,
-- and twice as long after each attempt.
pub record WillRetry (env : Env) (tried : ℕ) (j : TokenJob) : Type 0 where
  pub status : j.status ≡ TokenJobStatus.created
  pub attempts : j.attempts ≡ tried + 1
  pub execute_at : (tick : ℕ) × (j.execute_at ≡ some (env.clock tick + 60000 * 2 ^ tried))

pub record HasFailedOnce (j : TokenJob) : Type 0 where
  pub status : j.status ≡ TokenJobStatus.failed
  pub attempts : j.attempts ≡ 1

-- What becomes of a job after `attempts` attempts, by the error.
abbrev pub AfterError : Env → ℕ → Error → TokenJob → Type 0
AfterError env attempts too_many_requests = WillRetry env attempts
AfterError env attempts _ = HasFailedOnce

module _ (env : Env) (job : TokenJob) where
  next_date :
      (now : ℕ)
      → (if ltb (job.attempts + 1) 1 then now else now + backoff_delay (job.attempts + 1) 60000)
        ≡ now + 60000 * 2 ^ job.attempts
  unfolding backoff_delay
  next_date now = ground arith

  Throws-fail_once :
      (e : Error)
      → Throws {A = Unit {0}}
          (new_date env >>= λ now.
            write repository (update_jobs (has_id job.id) (fail_once now)) >> throw e)
          e
          (λ w. RowOf job.id HasFailedOnce w.db)
  unfolding new_date
  Throws-fail_once e = Throws-write env.clock _ e (λ now w.
      RowOf-update job.id _ (fail_once now) (λ j. record { status = refl; attempts = refl }) w.db)

  Throws-handle_error :
      (e : Error)
      → Throws (handle_error env job e) e (λ w. RowOf job.id (AfterError env job.attempts e) w.db)
  unfolding handle_error calculate_exponential_backoff_time new_date ◌>>=◌
  Throws-handle_error too_many_requests = record {
    thrown = λ w. refl;
    at = λ w.
        RowOf-update job.id _ _
          (λ j. record {
            status = refl;
            attempts = refl;
            execute_at = (w.ticks, ap some (next_date (env.clock w.ticks)));
          })
          w.db;
  }
  Throws-handle_error aggregate = Throws-fail_once aggregate
  Throws-handle_error (rpc_error reverted) = Throws-fail_once (rpc_error reverted)
  Throws-handle_error (message words) = Throws-fail_once (message words)
  Throws-handle_error (unprocessable words) = Throws-fail_once (unprocessable words)
  Throws-handle_error (internal_error words) = Throws-fail_once (internal_error words)
  Throws-handle_error (entity_not_found words) = Throws-fail_once (entity_not_found words)
  Throws-handle_error (chain_not_supported chain_id) =
      Throws-fail_once (chain_not_supported chain_id)
  Throws-handle_error (token_not_found address chain_id token_id) =
      Throws-fail_once (token_not_found address chain_id token_id)
  Throws-handle_error (contract_already_exists address chain_id) =
      Throws-fail_once (contract_already_exists address chain_id)
  Throws-handle_error (contract_not_found address chain_id) =
      Throws-fail_once (contract_not_found address chain_id)

  started-Completes : (uri : Text) → Completes env job (execute_started env job uri)
  unfolding execute_started
  started-Completes uri = search (Completes-bind, Completes-complete) depth 20

  -- The job is completed where the service returns, and otherwise as `AfterError` says.
  abbrev pub Retries : Result (Unit {0}) → World → Type 0
  Retries =
      Settles (λ w. RowOf job.id (λ j. j.status ≡ TokenJobStatus.completed) w.db)
        (λ e w. RowOf job.id (AfterError env job.attempts e) w.db)

  uris_end :
      (o : Option (List Text)) {uri : Text} {more : List Text}
      → o ≡ some (uri ∷ more)
      → (w : World) → Retries (run_uris env job o w).0 (run_uris env job o w).1
  unfolding run_uris
  uris_end none e w = cc
  uris_end (some []) e w = cc
  uris_end (some (uri ∷ more)) e w =
      Settles-try_catch _ (handle_error env job) (started-Completes uri) Throws-handle_error w

-- The fetch of metadata, for a job that is ready and names an address: if the service returns, the
-- job is completed. If it throws because the server was asked too often, the job is created anew
-- with one attempt more, to be executed 2 ^ attempts minutes after a time that the clock gave. On any
-- other error it has failed, with one attempt.
pub fetch_metadata-Retries :
    (env : Env) (job_id : ℕ) (w : World) (job : TokenJob) (uri : Text) (more : List Text)
    → find_one (is_ready fetch_metadata (env.clock w.ticks) job_id) w.db.jobs ≡ some job
    → job.tokens_uris ≡ some (uri ∷ more)
    → Retries env job (execute env job_id w).0 (execute env job_id w).1
unfolding execute run_job
fetch_metadata-Retries env job_id w job uri more found present =
    rw (execute-run env (λ now. is_ready fetch_metadata now job_id) (run_job env) w job found)
      (uris_end env job job.tokens_uris present _)
