-- ===== src/Jobs/Schedule.antt =====
-- What the services on jobs share word for word: `checkJobsHaveAlreadyStartedButNotFinished` and
-- `scheduleNextJobs`, which differ in the type, the limit and the name under which they queue.
pub mod Due
pub mod Queue
use nft_tracker.Prelude.{
  ℕ, ◌-◌, ◌*◌, Option, none, some, Bool, true, false, List, [], ◌∷◌, ◌++◌, map, ◌==◌, ◌&&◌, leb,
  any, select, take, insert_by, sort_by, if◌then◌else◌,
}
use nft_tracker.Store.Entities.{TokenJob, TokenJobType, TokenJobStatus, same_status, same_type}
use nft_tracker.Store.World.{World, QueueName, QueueJob}
use nft_tracker.Store.World
use nft_tracker.Store.Exec.{Exec, repository, pure, gets, ask, write, modify, parallel, ◌>>=◌, ◌>>◌}
use nft_tracker.Store.Env.{Env}
use nft_tracker.Store.Tables.{new_date, update_jobs, before}

-- `subMinutes(date, 5)`; a date before 1970 would be negative, and no job has one
abbrev pub five_minutes : ℕ
five_minutes = 5 * 60 * 1000

abbrev pub is_frozen : TokenJobType → ℕ → TokenJob → Bool
is_frozen type now j =
    same_status j.status TokenJobStatus.started
    && same_type j.type type
    && before j.started_at (now - five_minutes)

abbrev pub thaw : ℕ → TokenJob → TokenJob
thaw now j = record j { status = TokenJobStatus.created; execute_at = some now; started_at = none }

abbrev pub is_due : TokenJobType → ℕ → TokenJob → Bool
is_due type now j =
    same_status j.status TokenJobStatus.created && same_type j.type type && before j.execute_at now

-- `order: { executeAt: 'ASC' }`
abbrev pub executes_no_later : TokenJob → TokenJob → Bool
executes_no_later a b = earlier a.execute_at b.execute_at
  where
    earlier : Option ℕ → Option ℕ → Bool
    earlier (some s) (some t) = leb s t
    earlier _ none = true
    earlier none (some t) = false

abbrev limited : Option ℕ → List TokenJob → List TokenJob
limited none js = js
limited (some n) js = take n js

unfoldable pub due_jobs : TokenJobType → Option ℕ → ℕ → List TokenJob → List TokenJob
unfolding sort_by insert_by
due_jobs type limit now js = limited limit (sort_by executes_no_later (select (is_due type now) js))

-- `queue.add` with a `jobId`: a job that is in the queue already is not added again
abbrev same_name : QueueName → QueueName → Bool
same_name World.execute_verify_mint_by_job World.execute_verify_mint_by_job = true
same_name World.execute_fetch_metadata_by_job World.execute_fetch_metadata_by_job = true
same_name World.execute_fetch_owner_address_by_job World.execute_fetch_owner_address_by_job = true
same_name World.execute_upload_asset_by_job World.execute_upload_asset_by_job = true
same_name World.execute_refresh_token_by_job World.execute_refresh_token_by_job = true
same_name World.sync_block_job World.sync_block_job = true
same_name _ _ = false

abbrev pub is_queued : QueueName → ℕ → List QueueJob → Bool
is_queued name job_id = any (λ q. same_name q.name name && q.job_id == job_id)

abbrev pub enqueue : QueueName → ℕ → World → World
enqueue name job_id w = record w {
  queue =
      if is_queued name job_id w.queue
      then w.queue
      else w.queue ++ record { name = name; job_id = job_id } ∷ [];
}

module _ (env : Env) where
  unfoldable pub reset_frozen_jobs : TokenJobType → Exec Unit
  reset_frozen_jobs type = do
    now ← new_date env
    execute_at ← new_date env
    write repository (update_jobs (is_frozen type now) (thaw execute_at))

  unfoldable pub schedule_jobs : TokenJobType → Option ℕ → QueueName → Exec Unit
  schedule_jobs type limit name = do
    now ← new_date env
    jobs ← gets (λ w. due_jobs type limit now w.db.jobs)
    ids ← ask (λ t. env.order t (map (λ j. j.id) jobs))
    parallel ids (λ id. modify (enqueue name id) >> pure 0)
    pure tt
