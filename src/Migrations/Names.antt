-- ===== src/Migrations/Names.antt =====
-- Names and what they stand for, as functions from the names.
use Prim.Native.String.{String}
use text.Mathlib.Text.{◌==◌ as str_eq}
use text.Mathlib.TextEquality.{eq_iff}
use mathlib.Core.Path.{fun_ext}
use mathlib.Core.Option.{some-injective}
use nft_tracker.Prelude.{
  ◌≡◌, refl, sym, ap, ◌∙◌, Option, none, some, true, false, List, [], ◌∷◌, Bool-cases, inl, inr,
  ◌⊎◌, is_some, if◌then◌else◌, arith,
}

abbrev pub Dict : Type 0 → Type 0
Dict V = String → Option V

module _ {V : Type 0} where
  unfoldable pub put : String → V → Dict V → Dict V
  put k v d j = if str_eq k j then some v else d j

  unfoldable pub cut : String → Dict V → Dict V
  cut k d j = if str_eq k j then none else d j

  unfoldable pub of_list : List (String × V) → Dict V
  unfolding put
  of_list [] j = none
  of_list ((k, v) ∷ rest) j = put k v (of_list rest) j

  pub cut-put : (k : String) (v : V) (d : Dict V) → d k ≡ none → cut k (put k v d) ≡ d
  unfolding cut put
  cut-put k v d free = fun_ext at
    where
      at : (j : String) → cut k (put k v d) j ≡ d j
      at j = elim (Bool-cases (str_eq k j)) [
        | inl t ↦ rw t (sym (ap d (sym ((eq_iff k j).0 t)) ∙ free))
        | inr t ↦ rw t refl
      ]

  pub put-put : (k : String) (v w : V) (d : Dict V) → d k ≡ some v → put k v (put k w d) ≡ d
  unfolding put
  put-put k v w d there = fun_ext at
    where
      at : (j : String) → put k v (put k w d) j ≡ d j
      at j = elim (Bool-cases (str_eq k j)) [
        | inl t ↦ rw t (sym (ap d (sym ((eq_iff k j).0 t)) ∙ there))
        | inr t ↦ rw t refl
      ]

  pub put_self : (k : String) (v : V) (d : Dict V) → put k v d k ≡ some v
  unfolding put
  put_self k v d = rw ((eq_iff k k).1 refl) refl

  -- what was there under some name is there still
  pub is_some-put :
      (k j : String) (v : V) (d : Dict V) → is_some (d j) ≡ true → is_some (put k v d j) ≡ true
  unfolding put
  is_some-put k j v d h = ground arith

  pub put_other : (k j : String) (v : V) (d : Dict V) → str_eq k j ≡ false → put k v d j ≡ d j
  unfolding put
  put_other k j v d h = rw h refl

  pub put_cases :
      (k j : String) (v w : V) (d : Dict V)
      → put k v d j ≡ some w
      → ((k ≡ j) × (v ≡ w)) ⊎ ((str_eq k j ≡ false) × (d j ≡ some w))
  unfolding put
  put_cases k j v w d h = split (Bool-cases (str_eq k j))
    where
      split :
          (str_eq k j ≡ true) ⊎ (str_eq k j ≡ false)
          → ((k ≡ j) × (v ≡ w)) ⊎ ((str_eq k j ≡ false) × (d j ≡ some w))
      split (inl t) = inl ((eq_iff k j).0 t, some-injective _ _ (rw t at h))
      split (inr t) = inr (t, rw t at h)
