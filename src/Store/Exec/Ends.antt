-- ===== src/Store/Exec/Ends.antt =====
-- What holds when an action has ended: in the state in which it returns, or throws.
use nft_tracker.Prelude.{ℕ, suc, ◌≡◌, refl, some, false}
use nft_tracker.Store.World.{Db, World, Error}
use nft_tracker.Store.Exec.{
  Result, ok, err, Exec, repository, throw, ask, write, try_catch, ◌>>=◌, ◌>>◌, go_on, caught,
  run_transaction, settle,
}

-- Where `m` returns, the state satisfies `R`.
pub record Ensures {A : Type 0} (m : Exec A) (R : World → Type 0) : Type 0 where
  pub at : (w : World) (a : A) → (m w).0 ≡ ok a → R (m w).1

-- `m` throws `e`, and leaves a state that satisfies `R`.
pub record Throws {A : Type 0} (m : Exec A) (e : Error) (R : World → Type 0) : Type 0 where
  pub thrown : (w : World) → (m w).0 ≡ err e
  pub at : (w : World) → R (m w).1

-- What a result and the state beside it satisfy.
abbrev pub Settles :
    {A : Type 0} → (World → Type 0) → (Error → World → Type 0) → Result A → World → Type 0
Settles R E (ok a) w = R w
Settles R E (err e) w = E e w

pub Settles-ok :
    {A : Type 0} (R : World → Type 0) (E : Error → World → Type 0) (r : Result A) (w : World)
    {a : A}
    → r ≡ ok a
    → Settles R E r w
    → R w
Settles-ok R E (ok b) w e h = h
Settles-ok R E (err x) w e h = cc

module _ {A B : Type 0} {R : World → Type 0} where
  pub Ensures-bind :
      (m : Exec A) (f : A → Exec B) → ((a : A) → Ensures (f a) R) → Ensures (m >>= f) R
  unfolding ◌>>=◌
  Ensures-bind m f hf = record { at = λ w b e. let (r, w') = m w in next r w' b e }
    where
      next : (r : Result A) (w' : World) (b : B) → (go_on r f w').0 ≡ ok b → R (go_on r f w').1
      next (ok a) w' b e = (hf a).at w' b e
      next (err x) w' b e = cc

module _ {R : World → Type 0} where
  pub Ensures-write :
      (f : Db → Db) → ((w : World) → R (record w { db = f w.db })) → Ensures (write repository f) R
  unfolding write
  Ensures-write f holds = record { at = λ w a e. holds w }

  -- `const now = new Date(); await update(…); throw e`
  pub Throws-write :
      {A : Type 0} (clock : ℕ → ℕ) (f : ℕ → Db → Db) (e : Error)
      → ((now : ℕ) (w : World) → R (record w { db = f now w.db }))
      → Throws {A = A} (ask clock >>= λ now. write repository (f now) >> throw e) e R
  unfolding ◌>>=◌
  Throws-write clock f e holds = record {
    thrown = λ w. refl;
    at = λ w. holds (clock w.ticks) (record w { ticks = suc w.ticks });
  }

module _ {A : Type 0} {R : World → Type 0} {E : Error → World → Type 0} where
  pub Settles-try_catch :
      (m : Exec A) (h : Error → Exec A)
      → Ensures m R
      → ((e : Error) → Throws (h e) e (E e))
      → (w : World) → Settles R E (try_catch m h w).0 (try_catch m h w).1
  unfolding try_catch
  Settles-try_catch m h ensures throws w = let (r, w') = m w in ended r w' (λ a. ensures.at w a)
    where
      ended :
          (r : Result A) (w' : World)
          → ((a : A) → r ≡ ok a → R w')
          → Settles R E (caught r h w').0 (caught r h w').1
      ended (ok a) w' holds = holds a refl
      ended (err e) w' holds = rw ((throws e).thrown w') ((throws e).at w')

abbrev pub begun : World → World
begun w = record w { pending = some (λ d. d) }

module _ {R : Type 0} where
  settle-err :
      (r : Result R) (w : World) {e : Error}
      → (settle (r, w)).0 ≡ err e
      → (r ≡ err e) × ((settle (r, w)).1.db ≡ w.db)
  unfolding settle
  settle-err (ok a) w thrown = cc
  settle-err (err e) w thrown = (thrown, refl)

  -- A transaction that throws is rolled back: what is committed is what was committed in it.
  pub run_transaction-err :
      (m : Exec R) (w : World) {e : Error}
      → (run_transaction false m w).0 ≡ err e
      → ((m (begun w)).0 ≡ err e) × ((run_transaction false m w).1.db ≡ (m (begun w)).1.db)
  unfolding run_transaction
  run_transaction-err m w thrown = settle-err (m (begun w)).0 (m (begun w)).1 thrown

module _ {A : Type 0} where
  -- If a `try` throws after all, it does so in its handler, after an error of its body.
  pub try_catch-err :
      (m : Exec A) (h : Error → Exec A) (w : World) {e : Error}
      → (try_catch m h w).0 ≡ err e
      → (e' : Error) × (try_catch m h w ≡ h e' (m w).1)
  unfolding try_catch
  try_catch-err m h w = let (r, w') = m w in ended r w'
    where
      ended :
          (r : Result A) (w' : World) {e : Error}
          → (caught r h w').0 ≡ err e
          → (e' : Error) × (caught r h w' ≡ h e' w')
      ended (ok a) w' thrown = cc
      ended (err e') w' thrown = (e', refl)
