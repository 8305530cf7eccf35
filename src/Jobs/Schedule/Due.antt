-- ===== src/Jobs/Schedule/Due.antt =====
-- The jobs that `scheduleNextJobs` takes up: which, how many, in which order.
use nft_tracker.Prelude.{
  ℕ, ◌≤◌, ◌<◌, ◌≡◌, ◌⊎◌, inl, inr, Option, some, none, true, false, List, [], ◌∷◌, select, length,
  All, All-of, Among, Among-select, leb→le, ltb→lt, refl, three_of_and, arith, sort_by, IsSorted,
  All-sort_by, sort_by-IsSorted, All-take, take-IsSorted, length-take, Among-sort_by, Among-take,
  All-select,
}
use nft_tracker.Store.Entities.{TokenJob, TokenJobStatus, TokenJobType, same_status, same_type}
use nft_tracker.Store.Tables.{before}
use nft_tracker.Jobs.Schedule.{executes_no_later, is_due, due_jobs}

later_or_equal : (a b : TokenJob) → executes_no_later a b ≡ false → executes_no_later b a ≡ true
later_or_equal a b h = ground arith

no_later_trans :
    (a b c : TokenJob)
    → executes_no_later a b ≡ true
    → executes_no_later b c ≡ true
    → executes_no_later a c ≡ true
no_later_trans a b c h k = ground arith

-- A job is due that was created and not started yet, for a service of this type, and whose date of
-- execution has passed.
pub record IsDue (type : TokenJobType) (now : ℕ) (j : TokenJob) : Type 0 where
  pub created : j.status ≡ TokenJobStatus.created
  pub of_type : j.type ≡ type
  pub date : ℕ
  pub executes_at : j.execute_at ≡ some date
  pub in_past : date < now

-- the date of the first is no later than that of the second
abbrev pub NoLater : TokenJob → TokenJob → Type 0
NoLater a b = (s t : ℕ) → a.execute_at ≡ some s → b.execute_at ≡ some t → s ≤ t

abbrev pub InOrder : List TokenJob → Type 0
InOrder [] = Unit
InOrder (j ∷ js) = All (NoLater j) js × InOrder js

same_status-eq : (a b : TokenJobStatus) → same_status a b ≡ true → a ≡ b
same_status-eq a b h = ground arith

same_type-eq : (a b : TokenJobType) → same_type a b ≡ true → a ≡ b
same_type-eq a b h = ground arith

same_type_refl : (a : TokenJobType) → same_type a a ≡ true
same_type_refl a = ground arith

NoLater-of : (a b : TokenJob) → executes_no_later a b ≡ true → NoLater a b
NoLater-of a b h s t e f = leb→le s t (rw (e, f) at h)

InOrder-of : (js : List TokenJob) → IsSorted executes_no_later js → InOrder js
InOrder-of [] h = tt
InOrder-of (j ∷ js) (hj, h) = (All-of js (NoLater-of j) hj, InOrder-of js h)

before-some : (o : Option ℕ) (now : ℕ) → before o now ≡ true → (at : ℕ) × (o ≡ some at) × (at < now)
before-some none now h = cc
before-some (some at) now h = (at, refl, ltb→lt at now h)

IsDue-of :
    (type : TokenJobType) (now : ℕ) (j : TokenJob) → is_due type now j ≡ true → IsDue type now j
IsDue-of type now j h =
    let (created, of_type, dated) =
      three_of_and (same_status j.status TokenJobStatus.created) (same_type j.type type)
        (before j.execute_at now) h in
    let (at, e, passed) = before-some j.execute_at now dated in
    record {
      created = same_status-eq _ _ created;
      of_type = same_type-eq _ _ of_type;
      date = at;
      executes_at = e;
      in_past = passed;
    }

is_due-of :
    (type : TokenJobType) (now : ℕ) (j : TokenJob) → IsDue type now j → is_due type now j ≡ true
is_due-of type now j h =
    rw (h.created, h.of_type, h.executes_at, same_type_refl type) (ground (arith, h.in_past))

-- What is left for later: the list is full, and stands wholly before.
abbrev pub LeftFor : ℕ → TokenJob → List TokenJob → Type 0
LeftFor limit j due = (length due ≡ limit) × All (λ k. NoLater k j) due

-- The jobs that are taken up are all due, the earliest come first, and they are at most as many as
-- the limit. A job that is due is among them, unless they are as many as the limit already and none
-- of them has a later date.
pub due_jobs-IsDue :
    (type : TokenJobType) (limit now : ℕ) (js : List TokenJob)
    → let due = due_jobs type (some limit) now js in
      All (IsDue type now) due
      × InOrder due
      × (length due ≤ limit)
      × ((j : TokenJob) → Among j js → IsDue type now j → Among j due ⊎ LeftFor limit j due)
unfolding due_jobs
due_jobs-IsDue type limit now js =
    let chosen = select (is_due type now) js in
    let sorted = sort_by-IsSorted executes_no_later later_or_equal no_later_trans chosen in
    (
      All-take _ limit _ (
          All-sort_by executes_no_later _ chosen
            (All-of chosen (IsDue-of type now) (All-select (is_due type now) js))),
      InOrder-of _ (take-IsSorted executes_no_later limit _ sorted),
      length-take limit (sort_by executes_no_later chosen),
      λ j there h.
          elim (Among-take executes_no_later limit j (sort_by executes_no_later chosen) sorted (
            Among-sort_by executes_no_later j chosen
              (Among-select (is_due type now) j js (is_due-of type now j h) there))) [
                | inl found ↦ inl found
                | inr (full, before) ↦ inr (full, All-of _ (λ k e. NoLater-of k j e) before)
              ],
    )
