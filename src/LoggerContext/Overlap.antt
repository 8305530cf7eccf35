-- ===== src/LoggerContext/Overlap.antt =====
-- Calls on one object with a logger: those that lie within one another, and those that overlap.
use nft_tracker.Prelude.{
  ℕ, ◌≡◌, ◌≢◌, refl, ap, ◌∙◌, Text, true, false, List, [], ◌∷◌, ◌++◌, ◌==◌, ==_iff, arith,
}
use nft_tracker.LoggerContext.{Calls, CallEvent, begins, ends, on_call, run_calls}

-- Each call ends before any that was open when it began.
pub data Nested : List CallEvent → Type 0 where
  idle : Nested []
  call :
      (id : ℕ) (context : Text) (inner later : List CallEvent)
      → Nested inner
      → Nested later
      → Nested (begins id context ∷ (inner ++ ends id ∷ later))

run_calls-append :
    (es fs : List CallEvent) (s : Calls) → run_calls (es ++ fs) s ≡ run_calls fs (run_calls es s)
unfolding run_calls
run_calls-append [] fs s = refl
run_calls-append (e ∷ es) fs s = run_calls-append es fs (on_call e s)

==_refl : (n : ℕ) → (n == n) ≡ true
==_refl n = (==_iff n n).1 refl

==_ne : (a b : ℕ) → a ≢ b → (a == b) ≡ false
==_ne a b h = ground arith

-- the call that began last ends
ends-begins :
    (id : ℕ) (context : Text) (s : Calls) → on_call (ends id) (on_call (begins id context) s) ≡ s
unfolding on_call
ends-begins id context s = rw (==_refl id) (rw (==_refl id) refl)

-- However many calls there are, as long as each ends before those that it began in, the context of
-- the logger is afterwards what it was before, and no call is left open.
pub run_calls-Nested : {es : List CallEvent} → Nested es → (s : Calls) → run_calls es s ≡ s
unfolding run_calls
run_calls-Nested idle s = refl
run_calls-Nested (call id context inner later h k) s =
    run_calls-append inner (ends id ∷ later) (on_call (begins id context) s)
    ∙ ap (run_calls (ends id ∷ later)) (run_calls-Nested h (on_call (begins id context) s))
    ∙ ap (run_calls later) (ends-begins id context s)
    ∙ run_calls-Nested k s

ends-overlapped :
    (i j : ℕ) (m n : Text) (s : Calls)
    → (j == i) ≡ false
    → on_call (ends j) (on_call (ends i) (on_call (begins j n) (on_call (begins i m) s)))
      ≡ record { context = m; open_calls = s.open_calls }
unfolding on_call
ends-overlapped i j m n s h = ground (arith, ==_iff i i, ==_iff j j)

skip-Nested :
    {es : List CallEvent}
    → Nested es
    → (fs : List CallEvent) (s : Calls) → run_calls (es ++ fs) s ≡ run_calls fs s
skip-Nested {es} h fs s = run_calls-append es fs s ∙ ap (run_calls fs) (run_calls-Nested h s)

-- Where a call begins within another and ends after it, the logger is left with the context of the
-- first of them instead of its own, although no call is open any more. Calls that lie within one
-- another may have come between.
pub run_calls-overlapped :
    (i j : ℕ) (m n : Text) {es fs gs : List CallEvent}
    → Nested es
    → Nested fs
    → Nested gs
    → (s : Calls) → j ≢ i
    → run_calls (begins i m ∷ (es ++ begins j n ∷ (fs ++ ends i ∷ (gs ++ ends j ∷ [])))) s
      ≡ record { context = m; open_calls = s.open_calls }
unfolding run_calls
run_calls-overlapped i j m n {es} {fs} {gs} he hf hg s h =
    skip-Nested he (begins j n ∷ (fs ++ ends i ∷ (gs ++ ends j ∷ []))) first
    ∙ skip-Nested hf (ends i ∷ (gs ++ ends j ∷ [])) (on_call (begins j n) first)
    ∙ skip-Nested hg (ends j ∷ []) (on_call (ends i) (on_call (begins j n) first))
    ∙ ends-overlapped i j m n s (==_ne j i h)
  where
    first : Calls
    first = on_call (begins i m) s
