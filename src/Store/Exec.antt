-- ===== src/Store/Exec.antt =====
-- Methods as actions on the state. What a method wrote before it threw stays written, so the
-- state comes back beside an error too. `run_transaction` is common/helpers/transaction.helper.ts.
pub mod Keeps
pub mod Ends
pub mod Returns
pub mod Parallel
use nft_tracker.Prelude.{
  ℕ, suc, ◌+◌, Option, none, some, Bool, true, false, List, [], ◌∷◌, is_some, if◌then◌else◌,
}
use nft_tracker.Store.World.{Db, World, Error, aggregate}

pub data Result {ℓ} (A : Type ℓ) : Type ℓ where
  ok : A → Result A
  err : Error → Result A

abbrev pub Exec : Type 0 → Type 0
Exec A = World → Result A × World

-- The two ways to the database: the repository's own connection, where each statement commits,
-- and a query runner, whose statements join the transaction that is open on it.
pub data Connection : Type 0 where
  repository runner : Connection

module _ {A : Type 0} where
  pub pure : A → Exec A
  pure a w = (ok a, w)

  pub throw : Error → Exec A
  throw e w = (err e, w)

  pub lift : Result A → Exec A
  lift r w = (r, w)

  pub gets : (World → A) → Exec A
  gets f w = (ok (f w), w)

  -- One question to the outside. The answer depends on when it is asked.
  pub ask : (ℕ → A) → Exec A
  ask answer w = (ok (answer w.ticks), record w { ticks = suc w.ticks })

  abbrev caught : Result A → (Error → Exec A) → Exec A
  caught (ok a) h w = (ok a, w)
  caught (err e) h w = h e w

  -- `try { m } catch (e) { h e }`
  pub try_catch : Exec A → (Error → Exec A) → Exec A
  try_catch m h w = let (r, w') = m w in caught r h w'

joined : Option (Db → Db) → (Db → Db) → World → World
joined none f w = record w { db = f w.db }
joined (some g) f w = record w { pending = some (λ d. f (g d)) }

unfoldable pub write : Connection → (Db → Db) → Exec Unit
unfolding joined
write repository f w = (ok tt, record w { db = f w.db })
write runner f w = (ok tt, joined w.pending f w)

pub modify : (World → World) → Exec Unit
modify f w = (ok tt, f w)

module _ {A B : Type 0} where
  abbrev go_on : Result A → (A → Exec B) → Exec B
  go_on (ok a) f w = f a w
  go_on (err e) f w = (err e, w)

  infixl 10 ◌>>=◌ ◌>>◌
  -- opening this opens the other ways to build an action too
  unfoldable pub ◌>>=◌ : Exec A → (A → Exec B) → Exec B
  unfolding pure throw lift gets ask try_catch write modify
  ◌>>=◌ m f w = let (r, w') = m w in go_on r f w'

  abbrev pub ◌>>◌ : Exec A → Exec B → Exec B
  m >> n = m >>= λ _. n

pub applied : Option (Db → Db) → Db → Db
applied none d = d
applied (some g) d = g d

-- `isTransactionOwner`. The flag says whether a query runner is handed in: if not, a new one is
-- made, on which no transaction is active.
is_transaction_owner : Bool → World → Bool
is_transaction_owner given w = if given then (if is_some w.pending then false else true) else true

module _ {R : Type 0} where
  -- `commitTransaction` after a result, `rollbackTransaction` after an error
  settle : Result R × World → Result R × World
  unfolding applied
  settle (ok r, w) = (ok r, record w { db = applied w.pending w.db; pending = none })
  settle (err e, w) = (err e, record w { pending = none })

  unfoldable pub run_transaction : Bool → Exec R → Exec R
  unfolding is_transaction_owner settle
  run_transaction given callback w =
      if is_transaction_owner given w
      then settle (callback (record w { pending = some (λ d. d) }))
      else callback w

-- `parallel` of the package radash: the body is run on every item, and if any threw, one
-- `AggregateError` is thrown at the end. The items are listed in the order in which they are taken
-- up; a body returns what it adds to a counter that the bodies share.
-- A question to the outside that may be answered by an error, which is thrown.
module _ {A : Type 0} where
  abbrev pub ask_result : (ℕ → Result A) → Exec A
  ask_result answer = ask answer >>= lift

pub attempt : Exec ℕ → Exec (Option ℕ)
attempt m = try_catch (m >>= λ n. pure (some n)) (λ e. pure none)

abbrev has_failed : Bool → Option ℕ → Bool
has_failed failed none = true
has_failed failed (some n) = failed

abbrev counted : ℕ → Option ℕ → ℕ
counted count none = count
counted count (some n) = count + n

module _ {A : Type 0} where
  pub run_all : (A → Exec ℕ) → List A → Bool → ℕ → Exec ℕ
  run_all body [] failed count = if failed then throw aggregate else pure count
  run_all body (x ∷ xs) failed count =
      attempt (body x) >>= λ r. run_all body xs (has_failed failed r) (counted count r)

  unfoldable pub parallel : List A → (A → Exec ℕ) → Exec ℕ
  unfolding run_all attempt
  parallel items body = run_all body items false 0
