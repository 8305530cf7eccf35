-- ===== src/Health/Live.antt =====
-- When the program counts as alive and as ready.
use nft_tracker.Prelude.{
  ℕ, Option, none, some, text, Bool-cases, inl, inr, ◌≡◌, ◌≢◌, refl, ap, ◌∙◌, ◌↔◌, Text, Bool, true,
  false, List, [], ◌∷◌, any, All,
}
use nft_tracker.Store.World.{Error}
use nft_tracker.Store.Exec.{Result, ok, err}
use nft_tracker.Health.{
  QueueInfo, Probes, indicators, queue_indicated, get_queue_status, queue_is_healthy, Indicated, up,
  down, raised, status_ok, status_error, HealthCheckResult, Checked, returned, rejected, failed,
  Indicators, liveness_indicators, readiness_indicators, wrapped, live, unless_error, ready,
  wrap_check_indicators, get_liveness, get_readiness,
}

abbrev pub is_raised : Indicated → Bool
is_raised (raised e) = true
is_raised _ = false

abbrev pub is_down : Indicated → Bool
is_down (down key message) = true
is_down _ = false

abbrev pub IsUp : Indicated → Type 0
IsUp (up key) = Unit
IsUp (down key message) = ⊥
IsUp (raised e) = ⊥

-- What terminus documents of a check, in a program that is not being shut down.
pub record IsHealthCheck (check : List Indicated → Checked) : Type 0 where
  pub all_up :
      (is : List Indicated)
      → All IsUp is
      → (r : HealthCheckResult) × (check is ≡ returned r) × (r.status ≡ status_ok)
  pub some_down :
      (is : List Indicated)
      → any is_raised is ≡ false
      → any is_down is ≡ true
      → (r : HealthCheckResult) × (check is ≡ rejected r) × (r.status ≡ status_error)
  pub some_raised :
      (is : List Indicated) → any is_raised is ≡ true → (e : Error) × (check is ≡ failed e)

-- the three ways that indicators can stand
data Standing (is : List Indicated) : Type 0 where
  all_up : All IsUp is → Standing is
  some_down : any is_raised is ≡ false → any is_down is ≡ true → Standing is
  some_raised : any is_raised is ≡ true → Standing is

Standing-up : (key : Text) {is : List Indicated} → Standing is → Standing (up key ∷ is)
Standing-up key (all_up h) = all_up (tt, h)
Standing-up key (some_down h k) = some_down h k
Standing-up key (some_raised h) = some_raised h

pub not_raised : (is : List Indicated) → All IsUp is → any is_raised is ≡ false
not_raised [] h = refl
not_raised (up key ∷ is) h = not_raised is h.1
not_raised (down key message ∷ is) h = absurd h.0
not_raised (raised e ∷ is) h = absurd h.0

pub not_down : (is : List Indicated) → All IsUp is → any is_down is ≡ false
not_down [] h = refl
not_down (up key ∷ is) h = not_down is h.1
not_down (down key message ∷ is) h = absurd h.0
not_down (raised e ∷ is) h = absurd h.0

Standing-down :
    (key message : Text) {is : List Indicated} → Standing is → Standing (down key message ∷ is)
Standing-down key message {is} (all_up h) = some_down (not_raised is h) refl
Standing-down key message (some_down h k) = some_down h refl
Standing-down key message (some_raised h) = some_raised h

standing : (is : List Indicated) → Standing is
standing [] = all_up tt
standing (up key ∷ is) = Standing-up key (standing is)
standing (down key message ∷ is) = Standing-down key message (standing is)
standing (raised e ∷ is) = some_raised refl

-- The queue is there, answers, and is ready.
abbrev pub IsReady : Option (Result QueueInfo) → Type 0
IsReady none = ⊥
IsReady (some (err e)) = ⊥
IsReady (some (ok info)) = info.is_ready ≡ true

IsReady-of :
    (key : Text) (queue : Option (Result QueueInfo))
    → IsUp (queue_indicated key (get_queue_status key queue))
    → IsReady queue
unfolding queue_indicated get_queue_status
IsReady-of key none h = h
IsReady-of key (some (err e)) h = h
IsReady-of key (some (ok info)) h = elim (Bool-cases info.is_ready) [
  | inl e ↦ e
  | inr e ↦ absurd (rw e at h)
]

IsUp-of :
    (key : Text) (queue : Option (Result QueueInfo))
    → IsReady queue
    → IsUp (queue_indicated key (get_queue_status key queue))
unfolding queue_indicated get_queue_status
IsUp-of key none h = h
IsUp-of key (some (err e)) h = h
IsUp-of key (some (ok info)) h = rw h tt

module _ (check : List Indicated → Checked) (laws : IsHealthCheck check) where
  live_up : (is : List Indicated) → All IsUp is → live (wrapped (check is)) ≡ ok tt
  unfolding live wrapped
  live_up is h =
      let (r, e, s) = laws.all_up is h in ap (λ c. live (wrapped c)) e ∙ ap unless_error s

  live_down :
      (is : List Indicated)
      → any is_raised is ≡ false
      → any is_down is ≡ true
      → live (wrapped (check is)) ≢ ok tt
  unfolding live wrapped
  live_down is h k q =
      let (r, e, s) = laws.some_down is h k in
      let there = ap (λ c. live (wrapped c)) e ∙ ap unless_error s in cc (there, q)

  live_raised : (is : List Indicated) → any is_raised is ≡ true → live (wrapped (check is)) ≢ ok tt
  unfolding live wrapped
  live_raised is h q = let (e, p) = laws.some_raised is h in cc (p, q)

  live-IsUp : (is : List Indicated) → live (wrapped (check is)) ≡ ok tt → All IsUp is
  live-IsUp is q = elim (standing is) [
    | all_up h ↦ h
    | some_down h k ↦ absurd (live_down is h k q)
    | some_raised h ↦ absurd (live_raised is h q)
  ]

  ready_reported :
      (is : List Indicated) → any is_raised is ≡ false → ready (wrapped (check is)) ≡ ok tt
  unfolding ready wrapped
  ready_reported is n = elim (standing is) [
    | all_up h ↦ (let (r, e, s) = laws.all_up is h in ap (λ c. ready (wrapped c)) e)
    | some_down h k ↦ (let (r, e, s) = laws.some_down is h k in ap (λ c. ready (wrapped c)) e)
    | some_raised h ↦ cc (h, n)
  ]

  -- The program counts as alive exactly as long as the database answers, the chains are all up, and
  -- the queues of the jobs and of the blocks are there and ready, with a check as terminus documents it
  -- and no shutdown on the way. What has become of the migrations, the memory and the queue of the
  -- webhooks plays no part.
  pub get_liveness-IsUp :
      (max_memory_heap max_memory_aloc : ℕ) (p : Probes)
      → (get_liveness check (indicators max_memory_heap max_memory_aloc p) ≡ ok tt) ↔ (
          IsUp p.ping_check
          × IsUp p.is_blockchain_healthy
          × IsReady (p.queues (text "tokenJob"))
          × IsReady (p.queues (text "evmEvents")))
  unfolding get_liveness wrap_check_indicators indicators queue_is_healthy
  get_liveness-IsUp heap aloc p =
      let jobs = p.queues (text "tokenJob") in
      let blocks = p.queues (text "evmEvents") in
      let is = liveness_indicators (indicators heap aloc p) in
      (
        (λ h.
            let (database, (chains, (of_jobs, (of_blocks, done)))) = live-IsUp is h in
            (database, chains, IsReady-of _ jobs of_jobs, IsReady-of _ blocks of_blocks)),
        (λ h. live_up is (h.0, (h.1, (IsUp-of _ jobs h.2, (IsUp-of _ blocks h.3, tt))))),
      )

  -- The program counts as ready whatever is down: the migrations, the database, the memory. Only an
  -- indicator that fails without a report is an error.
  get_readiness-ready :
      (i : Indicators)
      → any is_raised (readiness_indicators i) ≡ false
      → get_readiness check i ≡ ok tt
  unfolding get_readiness wrap_check_indicators
  get_readiness-ready i h = ready_reported (readiness_indicators i) h
