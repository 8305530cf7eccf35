-- ===== src/Action.antt =====
-- Methods on a state of their own: a function from the state to a result, or an error, and the
-- next state. The services that keep something in memory are written with these.
use nft_tracker.Prelude.{◌≡◌, refl}
use nft_tracker.Store.World.{Error}
use nft_tracker.Store.Exec.{Result, ok, err}

abbrev pub Action : Type 0 → Type 0 → Type 0
Action S A = S → Result A × S

module _ {S A : Type 0} where
  abbrev pub pure : A → Action S A
  pure a s = (ok a, s)

  abbrev pub throw : Error → Action S A
  throw e s = (err e, s)

  abbrev pub lift : Result A → Action S A
  lift r s = (r, s)

  abbrev pub gets : (S → A) → Action S A
  gets f s = (ok (f s), s)

  abbrev pub caught : Result A → (Error → Action S A) → Action S A
  caught (ok a) h s = (ok a, s)
  caught (err e) h s = h e s

  abbrev pub try_catch : Action S A → (Error → Action S A) → Action S A
  try_catch m h s = caught (m s).0 h (m s).1

module _ {S : Type 0} where
  abbrev pub modify : (S → S) → Action S Unit
  modify f s = (ok tt, f s)

module _ {S A B : Type 0} where
  abbrev pub go_on : Result A → (A → Action S B) → Action S B
  go_on (ok a) f s = f a s
  go_on (err e) f s = (err e, s)

  infixl 10 ◌>>=◌ ◌>>◌
  abbrev pub ◌>>=◌ : Action S A → (A → Action S B) → Action S B
  ◌>>=◌ m f s = go_on (m s).0 f (m s).1

  abbrev pub ◌>>◌ : Action S A → Action S B → Action S B
  m >> n = m >>= λ _. n

-- What holds before an action that leaves the state alone holds after all, if the rest keeps it.
pub stays :
    {S A B : Type 0} (P : S → Type 0) (r : Result A) (f : A → Action S B) (s : S)
    → P s
    → ((a : A) → r ≡ ok a → P (f a s).1)
    → P (go_on r f s).1
stays P (ok a) f s h next = next a refl
stays P (err e) f s h next = h
