-- ===== src/Jobs/Schedule/Queue.antt =====
-- What `scheduleNextJobs` does to the queue.
use nft_tracker.Prelude.{
  ℕ, suc, ◌≡◌, refl, sym, ap, ◌∙◌, Option, Bool, true, List, [], ◌∷◌, ◌++◌, map, ◌==◌, ◌||◌, any,
  All, Bool-cases, inl, inr, arith, ==_iff,
}
use nft_tracker.Store.Entities.{TokenJob, TokenJobType}
use nft_tracker.Store.World.{World, QueueName, QueueJob}
use nft_tracker.Store.World
use nft_tracker.Store.Exec.{ok, ◌>>=◌}
use nft_tracker.Store.Exec.Parallel.{each, parallel-modify, each-keeps}
use nft_tracker.Store.Env.{Env}
use nft_tracker.Store.Tables.{new_date}
use nft_tracker.Jobs.Schedule.{same_name, is_queued, enqueue, due_jobs, schedule_jobs}

same_name_refl : (name : QueueName) → same_name name name ≡ true
same_name_refl World.execute_verify_mint_by_job = refl
same_name_refl World.execute_fetch_metadata_by_job = refl
same_name_refl World.execute_fetch_owner_address_by_job = refl
same_name_refl World.execute_upload_asset_by_job = refl
same_name_refl World.execute_refresh_token_by_job = refl
same_name_refl World.sync_block_job = refl

is_queued-append :
    (name : QueueName) (id : ℕ) (qs rs : List QueueJob)
    → is_queued name id (qs ++ rs) ≡ is_queued name id qs || is_queued name id rs
is_queued-append name id [] rs = refl
is_queued-append name id (q ∷ qs) rs = ground (arith, is_queued-append name id qs rs)

is_queued-enqueue :
    (name : QueueName) (id : ℕ) (w : World) → is_queued name id (enqueue name id w).queue ≡ true
is_queued-enqueue name id w = ground (
  arith,
  same_name_refl name,
  is_queued-append name id w.queue (record { name = name; job_id = id } ∷ []),
)

-- what is in the queue stays there
stays-enqueue :
    (name other : QueueName) (id j : ℕ) (w : World)
    → is_queued other j w.queue ≡ true
    → is_queued other j (enqueue name id w).queue ≡ true
stays-enqueue name other id j w h =
    ground (arith, is_queued-append other j w.queue (record { name = name; job_id = id } ∷ []))

module _ (name : QueueName) where
  queued_by_each :
      (ids : List ℕ) (w : World)
      → All (λ id. is_queued name id (each (enqueue name) ids w).queue ≡ true) ids
  unfolding each
  queued_by_each [] w = tt
  queued_by_each (id ∷ ids) w = (
    each-keeps (enqueue name) (λ v. is_queued name id v.queue ≡ true)
        (λ i v. stays-enqueue name name i id v) ids (enqueue name id w)
        (is_queued-enqueue name id w),
    queued_by_each ids (enqueue name id w),
  )

any-map :
    (n : ℕ) (js : List TokenJob)
    → any (λ id. id == n) (map (λ j. j.id) js) ≡ any (λ j. j.id == n) js
any-map n [] = refl
any-map n (j ∷ js) = ap (λ b. j.id == n || b) (any-map n js)

scheduled :
    (env : Env) (type : TokenJobType) (limit : Option ℕ) (name : QueueName) (w : World)
    → let ids =
        env.order
          (suc w.ticks)
          (map (λ j. j.id) (due_jobs type limit (env.clock w.ticks) w.db.jobs)) in
      schedule_jobs env type limit name w
      ≡ (ok tt, each (enqueue name) ids (record w { ticks = suc (suc w.ticks) }))
unfolding schedule_jobs ◌>>=◌ new_date
scheduled env type limit name w = rw (parallel-modify (enqueue name) _ _) refl

any-All :
    (p : ℕ → Bool) (ids : List ℕ) (n : ℕ)
    → All (λ id. p id ≡ true) ids
    → any (λ id. id == n) ids ≡ true
    → p n ≡ true
any-All p [] n h e = cc
any-All p (id ∷ ids) n (hid, h) e = elim (Bool-cases (id == n)) [
  | inl same ↦ ap p (sym ((==_iff id n).0 same)) ∙ hid
  | inr other ↦ any-All p ids n h (rw other at e)
]

All-ids :
    (P : ℕ → Type 0) (js : List TokenJob)
    → ((n : ℕ) → any (λ j. j.id == n) js ≡ true → P n)
    → All (λ j. P j.id) js
All-ids P [] f = tt
All-ids P (j ∷ js) f =
    (f j.id (ground (arith, ==_iff j.id j.id)), All-ids P js (λ n e. f n (ground (arith, e))))

All-queued :
    (P : QueueName → ℕ → Type 0) (qs : List QueueJob)
    → ((name : QueueName) (n : ℕ) → is_queued name n qs ≡ true → P name n)
    → All (λ q. P q.name q.job_id) qs
All-queued P [] f = tt
All-queued P (q ∷ qs) f = (
  f q.name q.job_id (ground (arith, same_name_refl q.name, ==_iff q.job_id q.job_id)),
  All-queued P qs (λ name n e. f name n (ground (arith, e))),
)

-- After `scheduleNextJobs` every job that is due and within the limit is in the queue, under its
-- name, and what was in the queue is there still; it returns and changes no table. `parallel` is
-- taken to leave out none of the jobs that it is given.
pub schedule_jobs-queues :
    (env : Env)
    → ((tick : ℕ) (ids : List ℕ) (n : ℕ)
        → any (λ id. id == n) (env.order tick ids) ≡ any (λ id. id == n) ids)
    → (type : TokenJobType) (limit : Option ℕ) (name : QueueName) (w : World)
    → let after = schedule_jobs env type limit name w in
      (after.0 ≡ ok tt)
      × (after.1.db ≡ w.db)
      × All
          (λ j. is_queued name j.id after.1.queue ≡ true)
          (due_jobs type limit (env.clock w.ticks) w.db.jobs)
      × All (λ q. is_queued q.name q.job_id after.1.queue ≡ true) w.queue
schedule_jobs-queues env complete type limit name w =
    let jobs = due_jobs type limit (env.clock w.ticks) w.db.jobs in
    let asked = record w { ticks = suc (suc w.ticks) } in
    let ids = env.order (suc w.ticks) (map (λ j. j.id) jobs) in
    let queue = (each (enqueue name) ids asked).queue in
    rw (scheduled env type limit name w) (
      refl,
      each-keeps (enqueue name) (λ v. v.db ≡ w.db) (λ i v h. h) ids asked refl,
      All-ids (λ n. is_queued name n queue ≡ true) jobs
          (λ n due.
            any-All (λ id. is_queued name id queue) ids n (queued_by_each name ids asked)
              (complete (suc w.ticks) _ n ∙ any-map n jobs ∙ due)),
      All-queued (λ other n. is_queued other n queue ≡ true) w.queue
          (λ other n here.
            each-keeps (enqueue name) (λ v. is_queued other n v.queue ≡ true)
              (λ i v. stays-enqueue name other i n v) ids asked here),
    )
