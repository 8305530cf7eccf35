-- ===== src/Store/Exec/Returns.antt =====
-- Actions that return, whatever the state: one rule for each way to build an action.
use nft_tracker.Prelude.{
  ℕ, ◌+◌, ◌≡◌, refl, Bool, true, false, Option, none, some, List, [], ◌∷◌, if◌then◌else◌,
}
use nft_tracker.Store.World.{Db, World, Error}
use nft_tracker.Store.Exec.{
  Result, ok, err, Exec, Connection, repository, runner, pure, gets, ask, ask_result, try_catch,
  write, ◌>>=◌, attempt, run_all, parallel, go_on, caught, has_failed, counted,
}

pub record Returns {A : Type 0} (m : Exec A) : Type 0 where
  pub at : (w : World) → (a : A) × ((m w).0 ≡ ok a)

module _ {A : Type 0} where
  pub Returns-pure : (a : A) → Returns (pure a)
  unfolding pure
  Returns-pure a = record { at = λ w. (a, refl) }

  pub Returns-gets : (f : World → A) → Returns (gets f)
  unfolding gets
  Returns-gets f = record { at = λ w. (f w, refl) }

  pub Returns-ask : (answer : ℕ → A) → Returns (ask answer)
  unfolding ask
  Returns-ask answer = record { at = λ w. (answer w.ticks, refl) }

  pub Returns-if : (b : Bool) (m n : Exec A) → Returns m → Returns n → Returns (if b then m else n)
  Returns-if true m n rm rn = rm
  Returns-if false m n rm rn = rn

  -- a `try` returns if its handler does
  pub Returns-try_catch :
      (m : Exec A) (h : Error → Exec A) → ((e : Error) → Returns (h e)) → Returns (try_catch m h)
  unfolding try_catch
  Returns-try_catch m h rh = record { at = λ w. let (r, w') = m w in handled r w' }
    where
      handled : (r : Result A) (w' : World) → (a : A) × ((caught r h w').0 ≡ ok a)
      handled (ok a) w' = (a, refl)
      handled (err e) w' = (rh e).at w'

  pub Returns-try : (m : Exec A) (h : Error → Exec A) → Returns m → Returns (try_catch m h)
  unfolding try_catch
  Returns-try m h rm = record {
    at = λ w. let (r, w') = m w in let (a, e) = rm.at w in handled r w' a e;
  }
    where
      handled :
          (r : Result A) (w' : World) (a : A) → r ≡ ok a → (b : A) × ((caught r h w').0 ≡ ok b)
      handled (ok b) w' a e = (b, refl)
      handled (err x) w' a e = cc

pub Returns-write : (c : Connection) (f : Db → Db) → Returns (write c f)
unfolding write
Returns-write repository f = record { at = λ w. (tt, refl) }
Returns-write runner f = record { at = λ w. (tt, refl) }

module _ {A B : Type 0} where
  pub Returns-bind :
      (m : Exec A) (f : A → Exec B) → Returns m → ((a : A) → Returns (f a)) → Returns (m >>= f)
  unfolding ◌>>=◌
  Returns-bind m f rm rf = record {
    at = λ w. let (r, w') = m w in let (a, e) = rm.at w in next r w' a e;
  }
    where
      next : (r : Result A) (w' : World) (a : A) → r ≡ ok a → (b : B) × ((go_on r f w').0 ≡ ok b)
      next (ok a) w' a' e = (rf a).at w'
      next (err x) w' a' e = cc

-- An answer that is never an error is returned.
pub Returns-ask_result :
    {A : Type 0} (answer : ℕ → Result A)
    → ((tick : ℕ) → (a : A) × (answer tick ≡ ok a))
    → Returns (ask_result answer)
unfolding ◌>>=◌
Returns-ask_result answer good = record { at = λ w. good w.ticks }

module _ {A : Type 0} (body : A → Exec ℕ) (returns : (x : A) → Returns (body x)) where
  -- `attempt` of a body that returns counts what it adds
  attempt-ok : (x : A) (w : World) → (n : ℕ) × ((attempt (body x) w).0 ≡ ok (some n))
  unfolding attempt ◌>>=◌
  attempt-ok x w = let (r, w') = body x w in let (n, e) = (returns x).at w in counting r w' n e
    where
      counting :
          (r : Result ℕ) (w' : World) (n : ℕ)
          → r ≡ ok n
          → (k : ℕ) × ((caught
                (go_on r (λ k. pure (some k)) w').0
                (λ e. pure none)
                (go_on r (λ k. pure (some k)) w').1).0
              ≡ ok (some k))
      counting (ok k) w' n e = (k, refl)
      counting (err x) w' n e = cc

  run_all-Returns : (xs : List A) (count : ℕ) → Returns (run_all body xs false count)
  unfolding run_all ◌>>=◌
  run_all-Returns [] count = Returns-pure count
  run_all-Returns (x ∷ xs) count = record {
    at = λ w.
        let (r, w') = attempt (body x) w in
        let (n, e) = attempt-ok x w in next (λ k. run_all-Returns xs k) r w' n e;
  }
    where
      next :
          ((k : ℕ) → Returns (run_all body xs false k))
          → (r : Result (Option ℕ)) (w' : World) (n : ℕ) → r ≡ ok (some n)
          → (k : ℕ) × ((go_on r (λ o. run_all body xs (has_failed false o) (counted count o)) w').0
              ≡ ok k)
      next rest (ok none) w' n e = cc
      next rest (ok (some k)) w' n e = (rest (count + k)).at w'
      next rest (err x) w' n e = cc

  pub Returns-parallel : (xs : List A) → Returns (parallel xs body)
  unfolding parallel
  Returns-parallel xs = run_all-Returns xs 0
