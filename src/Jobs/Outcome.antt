-- ===== src/Jobs/Outcome.antt =====
-- How the execution of a job ends: what its row says when `execute` has returned or thrown.
use nft_tracker.Prelude.{
  ℕ, suc, ◌≡◌, refl, ap, ◌⊎◌, inl, inr, Option, none, some, Bool, true, false, List, [], ◌∷◌, ◌==◌,
  Text, find_one, is_empty, update_where, change, All, Bool-cases, arith,
}
use nft_tracker.Store.Entities.{TokenJob, TokenJobStatus, upload_asset, refresh_token}
use nft_tracker.Store.World.{Db, World, Error}
use nft_tracker.Store.Exec.{Result, Exec, repository, write, throw, try_catch, gets, ◌>>=◌, ◌>>◌}
use nft_tracker.Store.Exec.Ends.{
  Ensures, Ensures-bind, Ensures-write, Throws, Throws-write, Settles, Settles-try_catch,
}
use nft_tracker.Store.Env.{Env}
use nft_tracker.Store.Tables.{new_date, has_id, is_ready, update_jobs, complete_job, fail_job}
use nft_tracker.Jobs.FetchOwnerAddress
use nft_tracker.Jobs.UploadAsset
use nft_tracker.Jobs.RefreshToken

-- Every row under the id satisfies `R`; ids are unique, so it is the row of the job.
abbrev pub RowOf : ℕ → (TokenJob → Type 0) → Db → Type 0
RowOf id R d = All (λ j. j.id ≡ id → R j) d.jobs

pub RowOf-update :
    (id : ℕ) (R : TokenJob → Type 0) (f : TokenJob → TokenJob)
    → ((j : TokenJob) → R (f j))
    → (d : Db) → RowOf id R (update_jobs (has_id id) f d)
unfolding update_jobs
RowOf-update id R f holds d = rows d.jobs
  where
    row :
        (j : TokenJob)
        → (j.id == id ≡ true) ⊎ (j.id == id ≡ false)
        → (change (has_id id) f j).id ≡ id
        → R (change (has_id id) f j)
    row j (inl e) same = rw e (holds j)
    row j (inr e) same = absurd (ground arith)

    rows : (js : List TokenJob) → All (λ j. j.id ≡ id → R j) (update_where (has_id id) f js)
    rows [] = tt
    rows (j ∷ js) = (row j (Bool-cases (j.id == id)), rows js)

-- How three of the services leave the job: completed if they return, failed if they throw.
abbrev pub CompletedOrFailed : ℕ → Result (Unit {0}) → World → Type 0
CompletedOrFailed id =
    Settles (λ w. RowOf id (λ j. j.status ≡ TokenJobStatus.completed) w.db)
      (λ e w. RowOf id (λ j. j.status ≡ TokenJobStatus.failed) w.db)

module _ (env : Env) where
  -- A service's `execute` asks for the date and for the job, and runs what it finds.
  pub execute-run :
      (p : ℕ → TokenJob → Bool) (run : Option TokenJob → Exec Unit) (w : World) (job : TokenJob)
      → find_one (p (env.clock w.ticks)) w.db.jobs ≡ some job
      → (new_date env >>= λ now. gets (λ v. find_one (p now) v.db.jobs) >>= run) w
        ≡ run (some job) (record w { ticks = suc w.ticks })
  unfolding ◌>>=◌ new_date
  execute-run p run w job found = ap (λ o. run o (record w { ticks = suc w.ticks })) found

  module _ (job : TokenJob) where
    abbrev pub Completes : Exec Unit → Type 0
    Completes m = Ensures m (λ w. RowOf job.id (λ j. j.status ≡ TokenJobStatus.completed) w.db)

    pub Completes-bind :
        {A : Type 0} (m : Exec A) (f : A → Exec Unit)
        → ((a : A) → Completes (f a))
        → Completes (m >>= f)
    Completes-bind = Ensures-bind

    pub Completes-complete :
        (now : ℕ) → Completes (write repository (update_jobs (has_id job.id) (complete_job now)))
    Completes-complete now =
        Ensures-write _ (λ w. RowOf-update job.id _ (complete_job now) (λ j. refl) w.db)

    Throws-fail :
        (e : Error)
        → Throws {A = Unit}
            (new_date env >>= λ now.
              write repository (update_jobs (has_id job.id) (fail_job now)) >> throw e)
            e
            (λ w. RowOf job.id (λ j. j.status ≡ TokenJobStatus.failed) w.db)
    unfolding new_date
    Throws-fail e =
        Throws-write env.clock _ e (λ now w. RowOf-update job.id _ (fail_job now) (λ j. refl) w.db)

    -- `try { m } catch (error) { update(job.id, { status: Failed, … }); throw error }`
    ends :
        (m : Exec Unit)
        → Completes m
        → (w : World)
        → let r =
            try_catch m
              (λ e. new_date env >>= λ now.
                write repository (update_jobs (has_id job.id) (fail_job now)) >> throw e)
              w in
          CompletedOrFailed job.id r.0 r.1
    ends m completes = Settles-try_catch m _ completes Throws-fail

    upload-Completes : (uri : Text) → Completes (UploadAsset.execute_started env job uri)
    unfolding UploadAsset.execute_started
    upload-Completes uri = search (Completes-bind, Completes-complete) depth 20

    owner-Completes : Completes (FetchOwnerAddress.execute_started env job)
    unfolding FetchOwnerAddress.execute_started
    owner-Completes = search (Completes-bind, Completes-complete) depth 20

    refresh-Completes : Completes (RefreshToken.execute_started env job)
    unfolding RefreshToken.execute_started
    refresh-Completes = search (Completes-bind, Completes-complete) depth 20

module _ (env : Env) (job : TokenJob) where
  uri_ends :
      (o : Option Text) {uri : Text}
      → o ≡ some uri
      → (w : World)
      → CompletedOrFailed job.id
          (UploadAsset.run_uri env job o w).0
          (UploadAsset.run_uri env job o w).1
  unfolding UploadAsset.run_uri
  uri_ends none e w = cc
  uri_ends (some uri) e w = ends env job _ (upload-Completes env job uri) w

-- The upload of an asset, for a job that is ready and has an address: the job is completed if the
-- service returns and failed if it throws.
pub upload-CompletedOrFailed :
    (env : Env) (job_id : ℕ) (w : World) (job : TokenJob) (uri : Text)
    → find_one (is_ready upload_asset (env.clock w.ticks) job_id) w.db.jobs ≡ some job
    → job.asset_uri ≡ some uri
    → CompletedOrFailed job.id
        (UploadAsset.execute env job_id w).0
        (UploadAsset.execute env job_id w).1
unfolding UploadAsset.execute UploadAsset.run_job
upload-CompletedOrFailed env job_id w job uri found present =
    rw
      (execute-run env (λ now. is_ready upload_asset now job_id) (UploadAsset.run_job env) w job
        found)
      (uri_ends env job job.asset_uri present _)

-- The check of owners, for a job that is ready and names a token: the job is completed if the
-- service returns and failed if it throws.
pub owner-CompletedOrFailed :
    (env : Env) (job_id : ℕ) (w : World) (job : TokenJob)
    → find_one (FetchOwnerAddress.is_ready_of_any_type (env.clock w.ticks) job_id) w.db.jobs
      ≡ some job
    → is_empty job.tokens_ids ≡ false
    → CompletedOrFailed job.id
        (FetchOwnerAddress.execute env job_id w).0
        (FetchOwnerAddress.execute env job_id w).1
unfolding FetchOwnerAddress.execute FetchOwnerAddress.run_job
owner-CompletedOrFailed env job_id w job found present =
    rw
      (execute-run env (λ now. FetchOwnerAddress.is_ready_of_any_type now job_id)
        (FetchOwnerAddress.run_job env) w job found)
      (rw present (ends env job _ (owner-Completes env job) _))

-- The refresh of a token, for a job that is ready and names a token: the job is completed if the
-- service returns and failed if it throws.
pub refresh-CompletedOrFailed :
    (env : Env) (job_id : ℕ) (w : World) (job : TokenJob)
    → find_one (is_ready refresh_token (env.clock w.ticks) job_id) w.db.jobs ≡ some job
    → is_empty job.tokens_ids ≡ false
    → CompletedOrFailed job.id
        (RefreshToken.execute env job_id w).0
        (RefreshToken.execute env job_id w).1
unfolding RefreshToken.execute RefreshToken.run_job
refresh-CompletedOrFailed env job_id w job found present =
    rw
      (execute-run env (λ now. is_ready refresh_token now job_id) (RefreshToken.run_job env) w job
        found)
      (rw present (ends env job _ (refresh-Completes env job) _))
