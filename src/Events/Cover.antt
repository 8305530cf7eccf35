-- ===== src/Events/Cover.antt =====
-- `syncBlock`: the blocks of a range that are put into the queue.
use nft_tracker.Prelude.{
  ℕ, zero, suc, ◌+◌, ◌-◌, ◌≤◌, ◌<◌, ◌≡◌, refl, sym, subst, true, false, List, [], ◌∷◌, ◌++◌, ◌==◌,
  ◌||◌, leb, ==_iff, Bool-cases, ◌⊎◌, inl, inr, All, All-of, All-append, All-self, Among,
  if◌then◌else◌, arith,
}
use nft_tracker.Events.{
  BlockJob, Events, is_block_queued, enqueue_block_sync, ascending, range, enqueue_blocks,
  sync_block, difference, pos, negsuc,
}

is_block_queued-append :
    (chain_id n : ℕ) (qs rs : List BlockJob)
    → is_block_queued chain_id n (qs ++ rs)
      ≡ is_block_queued chain_id n qs || is_block_queued chain_id n rs
is_block_queued-append chain_id n [] rs = refl
is_block_queued-append chain_id n (q ∷ qs) rs =
    ground (arith, is_block_queued-append chain_id n qs rs)

module _ (chain_id confirmations : ℕ) where
  queued-enqueue_block_sync :
      (n : ℕ) (s : Events)
      → is_block_queued chain_id n (enqueue_block_sync chain_id n confirmations s).queue ≡ true
  unfolding enqueue_block_sync
  queued-enqueue_block_sync n s = ground (
    arith,
    is_block_queued-append chain_id n s.queue
        (record { chain_id = chain_id; mined = n; block_number = difference n confirmations } ∷ []),
  )

  stays-enqueue_block_sync :
      (n m : ℕ) (s : Events)
      → is_block_queued chain_id m s.queue ≡ true
      → is_block_queued chain_id m (enqueue_block_sync chain_id n confirmations s).queue ≡ true
  unfolding enqueue_block_sync
  stays-enqueue_block_sync n m s h = ground (
    arith,
    is_block_queued-append chain_id m s.queue
        (record { chain_id = chain_id; mined = n; block_number = difference n confirmations } ∷ []),
  )

  step : ℕ → Events → Events
  step n s = if leb n 0 then s else enqueue_block_sync chain_id n confirmations s

  stays-step :
      (n m : ℕ) (s : Events)
      → is_block_queued chain_id m s.queue ≡ true
      → is_block_queued chain_id m (step n s).queue ≡ true
  unfolding step
  stays-step n m s h = elim (Bool-cases (leb n 0)) [
    | inl e ↦ rw e h
    | inr e ↦ rw e (stays-enqueue_block_sync n m s h)
  ]

  queued-step :
      (n m : ℕ) (s : Events) → m ≡ n → 0 < m → is_block_queued chain_id m (step n s).queue ≡ true
  unfolding step
  queued-step n m s same positive =
      let counts : leb n 0 ≡ false = ground arith in
      rw counts (
        subst
          (λ i.
            is_block_queued chain_id i (enqueue_block_sync chain_id n confirmations s).queue ≡ true)
          (sym same) (queued-enqueue_block_sync n s))

  stays-enqueue_blocks :
      (ns : List ℕ) (m : ℕ) (s : Events)
      → is_block_queued chain_id m s.queue ≡ true
      → is_block_queued chain_id m (enqueue_blocks chain_id confirmations ns s).queue ≡ true
  unfolding enqueue_blocks step
  stays-enqueue_blocks [] m s h = h
  stays-enqueue_blocks (n ∷ ns) m s h = stays-enqueue_blocks ns m (step n s) (stays-step n m s h)

  covers-ascending :
      (k from m : ℕ) (s : Events)
      → from ≤ m
      → m < from + k
      → 0 < m
      → is_block_queued chain_id m
          (enqueue_blocks chain_id confirmations (ascending k from) s).queue
        ≡ true
  unfolding ascending enqueue_blocks step
  covers-ascending zero from m s low high positive = absurd (omega arith)
  covers-ascending (suc k) from m s low high positive = elim (Bool-cases (m == from)) [
    | inl here ↦
        stays-enqueue_blocks (ascending k (suc from)) m (step from s)
          (queued-step from m s ((==_iff m from).0 here) positive)
    | inr later ↦
        covers-ascending k (suc from) m (step from s) (ground arith) (omega arith) positive
  ]

-- Every block from the first on and before the end, but for block 0, is in the queue afterwards.
pub sync_block_covers :
    (chain_id confirmations from to m : ℕ) (s : Events)
    → from ≤ m
    → m < to
    → 0 < m
    → is_block_queued chain_id m (sync_block chain_id confirmations from to s).queue ≡ true
unfolding sync_block range
sync_block_covers chain_id confirmations from to m s low high positive =
    let up : leb from to ≡ true = ground arith in
    rw up (covers-ascending chain_id confirmations (to - from) from m s low (omega arith) positive)

-- A job reads the block that lies as many blocks behind the mined one as there are confirmations,
-- before the first block of the chain where there are fewer.
pub data ReadsBehind (confirmations : ℕ) (j : BlockJob) : Type 0 where
  behind :
      (n : ℕ) → j.block_number ≡ pos n → n + confirmations ≡ j.mined → ReadsBehind confirmations j
  too_early :
      (n : ℕ)
      → j.block_number ≡ negsuc n
      → j.mined + suc n ≡ confirmations
      → ReadsBehind confirmations j

-- The jobs that were not in the queue before read the block behind theirs.
abbrev pub NewRead : ℕ → List BlockJob → List BlockJob → Type 0
NewRead confirmations before = All (λ j. Among j before ⊎ ReadsBehind confirmations j)

module _ (chain_id confirmations : ℕ) (before : List BlockJob) where
  block_job-ReadsBehind :
      (n : ℕ)
      → ReadsBehind confirmations
          (record { chain_id = chain_id; mined = n; block_number = difference n confirmations })
  block_job-ReadsBehind n = elim (Bool-cases (leb confirmations n)) [
    | inl e ↦ behind (n - confirmations) (rw e refl) (ground arith)
    | inr e ↦ too_early (confirmations - n - 1) (rw e refl) (ground arith)
  ]

  NewRead-enqueue_block_sync :
      (n : ℕ) (s : Events)
      → NewRead confirmations before s.queue
      → NewRead confirmations before (enqueue_block_sync chain_id n confirmations s).queue
  unfolding enqueue_block_sync
  NewRead-enqueue_block_sync n s h = elim (Bool-cases (is_block_queued chain_id n s.queue)) [
    | inl e ↦ rw e h
    | inr e ↦ rw e (All-append _ s.queue _ h (inr (block_job-ReadsBehind n), tt))
  ]

  NewRead-step :
      (n : ℕ) (s : Events)
      → NewRead confirmations before s.queue
      → NewRead confirmations before (step chain_id confirmations n s).queue
  unfolding step
  NewRead-step n s h = elim (Bool-cases (leb n 0)) [
    | inl e ↦ rw e h
    | inr e ↦ rw e (NewRead-enqueue_block_sync n s h)
  ]

  NewRead-enqueue_blocks :
      (ns : List ℕ) (s : Events)
      → NewRead confirmations before s.queue
      → NewRead confirmations before (enqueue_blocks chain_id confirmations ns s).queue
  unfolding enqueue_blocks step
  NewRead-enqueue_blocks [] s h = h
  NewRead-enqueue_blocks (n ∷ ns) s h =
      NewRead-enqueue_blocks ns (step chain_id confirmations n s) (NewRead-step n s h)

pub sync_block-NewRead :
    (chain_id confirmations from to : ℕ) (s : Events)
    → NewRead confirmations s.queue (sync_block chain_id confirmations from to s).queue
unfolding sync_block
sync_block-NewRead chain_id confirmations from to s =
    NewRead-enqueue_blocks chain_id confirmations s.queue (range from to) s
      (All-of s.queue (λ j m. inl m) (All-self s.queue))
