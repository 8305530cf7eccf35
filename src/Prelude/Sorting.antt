-- ===== src/Prelude/Sorting.antt =====
-- Lists in order: what PostgreSQL makes of an `ORDER BY`, rows that are equal in it as they come.
use Prim.Native.Nat.{ℕ, zero, suc, ◌≤◌}
use mathlib.Core.Path.{◌≡◌, refl, ap, ◌∙◌}
use mathlib.Core.Logic.{◌⊎◌, inl, inr}
use mathlib.Core.Bool.{Bool, true, false, ◌||◌}
use mathlib.Core.List.{List, [], ◌∷◌}
use native.Mathlib.Omega.{arith}
use nft_tracker.Prelude.Tests.{if◌then◌else◌, Bool-cases}
use nft_tracker.Prelude.Lists.{length, take, any, select, All, All-of, Among, All-Among}

module _ {ℓ} {A : Type ℓ} (before : A → A → Bool) where
  unfoldable pub insert_by : A → List A → List A
  insert_by x [] = x ∷ []
  insert_by x (y ∷ ys) = let rest = insert_by x ys in if before x y then x ∷ y ∷ ys else y ∷ rest

  unfoldable pub sort_by : List A → List A
  sort_by [] = []
  sort_by (x ∷ xs) = insert_by x (sort_by xs)

  -- Each member comes before all that follow it.
  abbrev pub IsSorted : List A → Type 0
  IsSorted [] = Unit
  IsSorted (x ∷ xs) = All (λ y. before x y ≡ true) xs × IsSorted xs

  module _ {κ} (P : A → Type κ) where
    All-insert_by : (x : A) (ys : List A) → P x → All P ys → All P (insert_by x ys)
    unfolding insert_by
    All-insert_by x [] h hs = (h, tt)
    All-insert_by x (y ∷ ys) h (hy, hs) = elim (Bool-cases (before x y)) [
      | inl e ↦ rw e (h, (hy, hs))
      | inr e ↦ rw e (hy, All-insert_by x ys h hs)
    ]

    pub All-sort_by : (xs : List A) → All P xs → All P (sort_by xs)
    unfolding sort_by
    All-sort_by [] h = tt
    All-sort_by (x ∷ xs) (hx, h) = All-insert_by x (sort_by xs) hx (All-sort_by xs h)

  behind_first :
      (z x y : A) (ys : List A)
      → ((Among z (x ∷ ys)) → Among z (insert_by x ys))
      → Among z (x ∷ y ∷ ys)
      → Among z (y ∷ insert_by x ys)
  behind_first z x y ys rest (inl here) = inr (rest (inl here))
  behind_first z x y ys rest (inr (inl next)) = inl next
  behind_first z x y ys rest (inr (inr later)) = inr (rest (inr later))

  Among-insert_by : (z x : A) (ys : List A) → Among z (x ∷ ys) → Among z (insert_by x ys)
  unfolding insert_by
  Among-insert_by z x [] m = m
  Among-insert_by z x (y ∷ ys) m = elim (Bool-cases (before x y)) [
    | inl e ↦ rw e m
    | inr e ↦ rw e (behind_first z x y ys (Among-insert_by z x ys) m)
  ]

  pub Among-sort_by : (z : A) (xs : List A) → Among z xs → Among z (sort_by xs)
  unfolding sort_by
  Among-sort_by z [] m = m
  Among-sort_by z (x ∷ xs) (inl e) = Among-insert_by z x (sort_by xs) (inl e)
  Among-sort_by z (x ∷ xs) (inr m) = Among-insert_by z x (sort_by xs) (inr (Among-sort_by z xs m))

  -- What is not among the first stands behind all of them.
  pub Among-take :
      (n : ℕ) (z : A) (xs : List A)
      → IsSorted xs
      → Among z xs
      → Among z (take n xs) ⊎ ((length (take n xs) ≡ n) × All (λ y. before y z ≡ true) (take n xs))
  Among-take zero z xs h m = inr (refl, tt)
  Among-take (suc n) z [] h m = inl m
  Among-take (suc n) z (x ∷ xs) h (inl e) = inl (inl e)
  Among-take (suc n) z (x ∷ xs) (hx, h) (inr m) = elim (Among-take n z xs h m) [
    | inl there ↦ inl (inr there)
    | inr (full, behind) ↦ inr (ap suc full, (All-Among _ z xs hx m, behind))
  ]

  any-insert_by : (p : A → Bool) (x : A) (ys : List A) → any p (insert_by x ys) ≡ p x || any p ys
  unfolding insert_by
  any-insert_by p x [] = refl
  any-insert_by p x (y ∷ ys) = ground (arith, any-insert_by p x ys)

  pub any-sort_by : (p : A → Bool) (xs : List A) → any p (sort_by xs) ≡ any p xs
  unfolding sort_by
  any-sort_by p [] = refl
  any-sort_by p (x ∷ xs) = any-insert_by p x (sort_by xs) ∙ ap (λ b. p x || b) (any-sort_by p xs)

  length-insert_by : (x : A) (ys : List A) → length (insert_by x ys) ≡ suc (length ys)
  unfolding insert_by
  length-insert_by x [] = refl
  length-insert_by x (y ∷ ys) = ground (arith, length-insert_by x ys)

  pub length-sort_by : (xs : List A) → length (sort_by xs) ≡ length xs
  unfolding sort_by
  length-sort_by [] = refl
  length-sort_by (x ∷ xs) = length-insert_by x (sort_by xs) ∙ ap suc (length-sort_by xs)

  module _ (total : (x y : A) → before x y ≡ false → before y x ≡ true)
      (transitive : (x y z : A) → before x y ≡ true → before y z ≡ true → before x z ≡ true) where
    insert_by-IsSorted : (x : A) (ys : List A) → IsSorted ys → IsSorted (insert_by x ys)
    unfolding insert_by
    insert_by-IsSorted x [] h = (tt, tt)
    insert_by-IsSorted x (y ∷ ys) (hy, h) = elim (Bool-cases (before x y)) [
      | inl e ↦ rw e ((e, All-of ys (λ z. transitive x y z e) hy), (hy, h))
      | inr e ↦ rw e (All-insert_by _ x ys (total x y e) hy, insert_by-IsSorted x ys h)
    ]

    pub sort_by-IsSorted : (xs : List A) → IsSorted (sort_by xs)
    unfolding sort_by
    sort_by-IsSorted [] = tt
    sort_by-IsSorted (x ∷ xs) = insert_by-IsSorted x (sort_by xs) (sort_by-IsSorted xs)

module _ {ℓ} {A : Type ℓ} where
  pub All-take {κ} : (P : A → Type κ) (n : ℕ) (xs : List A) → All P xs → All P (take n xs)
  All-take P zero xs h = tt
  All-take P (suc n) [] h = tt
  All-take P (suc n) (x ∷ xs) (hx, h) = (hx, All-take P n xs h)

  pub take-IsSorted :
      (before : A → A → Bool) (n : ℕ) (xs : List A)
      → IsSorted before xs
      → IsSorted before (take n xs)
  take-IsSorted before zero xs h = tt
  take-IsSorted before (suc n) [] h = tt
  take-IsSorted before (suc n) (x ∷ xs) (hx, h) = (All-take _ n xs hx, take-IsSorted before n xs h)

  pub length-take : (n : ℕ) (xs : List A) → length (take n xs) ≤ n
  length-take zero xs = omega arith
  length-take (suc n) [] = omega arith
  length-take (suc n) (x ∷ xs) = omega (arith, length-take n xs)

  pub take-all : (n : ℕ) (xs : List A) → length xs ≤ n → take n xs ≡ xs
  take-all zero [] h = refl
  take-all zero (x ∷ xs) h = absurd (omega arith)
  take-all (suc n) [] h = refl
  take-all (suc n) (x ∷ xs) h = ap (λ l. x ∷ l) (take-all n xs (omega arith))

  pub All-select : (p : A → Bool) (xs : List A) → All (λ x. p x ≡ true) (select p xs)
  All-select p [] = tt
  All-select p (x ∷ xs) = elim (Bool-cases (p x)) [
    | inl e ↦ rw e (e, All-select p xs)
    | inr e ↦ rw e (All-select p xs)
  ]
