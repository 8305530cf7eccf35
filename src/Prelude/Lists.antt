-- ===== src/Prelude/Lists.antt =====
-- Lists over the native numbers, predicates on all members, and tables: lists of rows.
use Prim.Native.Nat.{ℕ, zero, suc, ◌+◌}
use mathlib.Core.Path.{◌≡◌, refl, sym, ap, ◌∙◌, subst}
use mathlib.Core.Logic.{◌⊎◌, inl, inr}
use mathlib.Core.Bool.{Bool, true, false, ◌||◌}
use mathlib.Core.Option.{Option, none, some, some-injective}
use mathlib.Core.List.{List, [], ◌∷◌, ◌++◌}
use native.Mathlib.Omega.{arith}
use nft_tracker.Prelude.Tests.{if◌then◌else◌, Bool-cases}

module _ {ℓ} {A : Type ℓ} where
  abbrev pub length : List A → ℕ
  length [] = 0
  length (x ∷ xs) = suc (length xs)

  abbrev pub take : ℕ → List A → List A
  take zero xs = []
  take (suc n) [] = []
  take (suc n) (x ∷ xs) = x ∷ take n xs

  abbrev pub get_elem? : List A → ℕ → Option A
  get_elem? [] i = none
  get_elem? (x ∷ xs) zero = some x
  get_elem? (x ∷ xs) (suc i) = get_elem? xs i

  abbrev pub is_empty : List A → Bool
  is_empty [] = true
  is_empty (x ∷ xs) = false

  abbrev pub any : (A → Bool) → List A → Bool
  any p [] = false
  any p (x ∷ xs) = p x || any p xs

  abbrev pub select : (A → Bool) → List A → List A
  select p [] = []
  select p (x ∷ xs) = let rest = select p xs in if p x then x ∷ rest else rest

  abbrev pub find_one : (A → Bool) → List A → Option A
  find_one p [] = none
  find_one p (x ∷ xs) = if p x then some x else find_one p xs

  abbrev pub change : (A → Bool) → (A → A) → A → A
  change p f x = if p x then f x else x

  -- `UPDATE … SET f WHERE p`
  abbrev pub update_where : (A → Bool) → (A → A) → List A → List A
  update_where p f [] = []
  update_where p f (x ∷ xs) = change p f x ∷ update_where p f xs

  -- `INSERT … ON CONFLICT DO UPDATE SET f`: the row that passes the test is changed, or one is made
  abbrev pub upsert_row : (A → Bool) → (A → A) → A → List A → List A
  upsert_row p f new [] = new ∷ []
  upsert_row p f new (x ∷ xs) =
      let rest = upsert_row p f new xs in if p x then f x ∷ xs else x ∷ rest

  pub length-append : (xs ys : List A) → length (xs ++ ys) ≡ length xs + length ys
  length-append [] ys = omega arith
  length-append (x ∷ xs) ys = omega (arith, length-append xs ys)

module _ {ℓ κ} {A : Type ℓ} (P : A → Type κ) where
  abbrev pub All : List A → Type κ
  All [] = Unit
  All (x ∷ xs) = P x × All xs

  pub All-append : (xs ys : List A) → All xs → All ys → All (xs ++ ys)
  All-append [] ys h k = k
  All-append (x ∷ xs) ys (p, h) k = (p, All-append xs ys h k)

  pub All-update_where :
      (p : A → Bool) (f : A → A) (xs : List A)
      → ((x : A) → P x → p x ≡ true → P (f x))
      → All xs
      → All (update_where p f xs)
  All-update_where p f [] keep h = tt
  All-update_where p f (x ∷ xs) keep (hx, h) =
      (changed (Bool-cases (p x)), All-update_where p f xs keep h)
    where
      changed : (p x ≡ true) ⊎ (p x ≡ false) → P (change p f x)
      changed (inl e) = rw e (keep x hx e)
      changed (inr e) = rw e hx

  pub All-upsert_row :
      (p : A → Bool) (f : A → A) (new : A) (xs : List A)
      → ((x : A) → P x → P (f x))
      → P new
      → All xs
      → All (upsert_row p f new xs)
  All-upsert_row p f new [] keep hn h = (hn, tt)
  All-upsert_row p f new (x ∷ xs) keep hn (hx, h) = elim (Bool-cases (p x)) [
    | inl e ↦ rw e (keep x hx, h)
    | inr e ↦ rw e (hx, All-upsert_row p f new xs keep hn h)
  ]

  pub All-get_elem? : (xs : List A) (i : ℕ) {a : A} → All xs → get_elem? xs i ≡ some a → P a
  All-get_elem? [] i h e = cc
  All-get_elem? (x ∷ xs) zero (hx, h) e = subst P (some-injective _ _ e) hx
  All-get_elem? (x ∷ xs) (suc i) (hx, h) e = All-get_elem? xs i h e

  pub All-find_one : (p : A → Bool) (xs : List A) {a : A} → find_one p xs ≡ some a → All xs → P a
  All-find_one p [] e h = cc
  All-find_one p (x ∷ xs) {a} e (hx, h) = found (Bool-cases (p x)) (λ e'. All-find_one p xs e' h)
    where
      found : (p x ≡ true) ⊎ (p x ≡ false) → (find_one p xs ≡ some a → P a) → P a
      found (inl t) later = subst P (some-injective _ _ (rw t at e)) hx
      found (inr t) later = later (rw t at e)

module _ {ℓ} {A : Type ℓ} where
  -- what is found passes the test
  pub find_one-eq-some : (p : A → Bool) (xs : List A) {a : A} → find_one p xs ≡ some a → p a ≡ true
  find_one-eq-some p [] e = cc
  find_one-eq-some p (x ∷ xs) {a} e = found (Bool-cases (p x)) (find_one-eq-some p xs)
    where
      found : (p x ≡ true) ⊎ (p x ≡ false) → (find_one p xs ≡ some a → p a ≡ true) → p a ≡ true
      found (inl t) later = ap p (sym (some-injective _ _ (rw t at e))) ∙ t
      found (inr t) later = later (rw t at e)

  -- A search by a test that an update respects finds what it found before, if none of the rows that
  -- it looks for is updated.
  pub find_one-update_where :
      (q p : A → Bool) (f : A → A) (xs : List A)
      → ((x : A) → q (f x) ≡ q x)
      → All (λ x. q x ≡ true → p x ≡ false) xs
      → find_one q (update_where p f xs) ≡ find_one q xs
  find_one-update_where q p f [] same h = refl
  find_one-update_where q p f (x ∷ xs) same (hx, h) =
      ground (arith, same x, find_one-update_where q p f xs same h)

  pub find_one-append :
      (q : A → Bool) (xs ys : List A) {a : A}
      → find_one q xs ≡ some a
      → find_one q (xs ++ ys) ≡ some a
  find_one-append q [] ys e = cc
  find_one-append q (x ∷ xs) ys {a} e = elim (Bool-cases (q x)) [
    | inl t ↦ rw t (rw t at e)
    | inr t ↦ rw t (find_one-append q xs ys (rw t at e))
  ]

  pub All-of {κ κ'} :
      {P : A → Type κ} {P' : A → Type κ'} (xs : List A)
      → ((x : A) → P x → P' x)
      → All P xs
      → All P' xs
  All-of [] imp h = tt
  All-of (x ∷ xs) imp (hx, h) = (imp x hx, All-of xs imp h)

  -- what an upsert leaves in the place of what was found
  abbrev pub upserted : (A → A) → A → Option A → A
  upserted f new none = new
  upserted f new (some x) = f x

  pub find_one-upsert_row :
      (p : A → Bool) (f : A → A) (new : A) (xs : List A)
      → ((x : A) → p (f x) ≡ true)
      → p new ≡ true
      → find_one p (upsert_row p f new xs) ≡ some (upserted f new (find_one p xs))
  find_one-upsert_row p f new [] keeps e = rw e refl
  find_one-upsert_row p f new (x ∷ xs) keeps e = elim (Bool-cases (p x)) [
    | inl t ↦ rw t (rw (keeps x) refl)
    | inr t ↦ rw t (rw t (find_one-upsert_row p f new xs keeps e))
  ]

module _ {ℓ} {A : Type ℓ} where
  -- one of the members of a list
  abbrev pub Among : A → List A → Type ℓ
  Among z [] = Unit × ⊥
  Among z (x ∷ xs) = (z ≡ x) ⊎ Among z xs

  pub Among-select :
      (p : A → Bool) (z : A) (xs : List A) → p z ≡ true → Among z xs → Among z (select p xs)
  Among-select p z [] h m = m
  Among-select p z (x ∷ xs) h (inl e) = rw (ap p (sym e) ∙ h) (inl e)
  Among-select p z (x ∷ xs) h (inr m) = elim (Bool-cases (p x)) [
    | inl t ↦ rw t (inr (Among-select p z xs h m))
    | inr t ↦ rw t (Among-select p z xs h m)
  ]

  pub All-Among {κ} : (P : A → Type κ) (z : A) (xs : List A) → All P xs → Among z xs → P z
  All-Among P z [] h m = absurd (m.1)
  All-Among P z (x ∷ xs) (hx, h) (inl e) = subst P (sym e) hx
  All-Among P z (x ∷ xs) (hx, h) (inr m) = All-Among P z xs h m

  pub All-self : (xs : List A) → All (λ z. Among z xs) xs
  All-self [] = tt
  All-self (x ∷ xs) = (inl refl, All-of xs (λ z m. inr m) (All-self xs))

  pub find_one-Among : (p : A → Bool) (xs : List A) {a : A} → find_one p xs ≡ some a → Among a xs
  find_one-Among p xs e = All-find_one (λ z. Among z xs) p xs e (All-self xs)

  pub find_one-none :
      (p : A → Bool) (xs : List A) → find_one p xs ≡ none → All (λ x. p x ≡ false) xs
  find_one-none p [] e = tt
  find_one-none p (x ∷ xs) e = elim (Bool-cases (p x)) [
    | inl t ↦ absurd (cc (rw t at e))
    | inr t ↦ (t, find_one-none p xs (rw t at e))
  ]

  pub get_elem?-update_where :
      (p : A → Bool) (f : A → A) (xs : List A) (i : ℕ) {x : A}
      → get_elem? xs i ≡ some x
      → get_elem? (update_where p f xs) i ≡ some (change p f x)
  get_elem?-update_where p f [] i e = cc
  get_elem?-update_where p f (x ∷ xs) zero e = ap (λ y. some (change p f y)) (some-injective _ _ e)
  get_elem?-update_where p f (x ∷ xs) (suc i) e = get_elem?-update_where p f xs i e
