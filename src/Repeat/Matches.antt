-- ===== src/Repeat/Matches.antt =====
-- The repeatable jobs with one number among those of a queue.
use nft_tracker.Prelude.{
  ℕ, suc, ◌≡◌, refl, sym, ap, subst, Text, Bool, true, false, not, List, [], ◌∷◌, ◌++◌, ◌===◌, ◌||◌,
  inl, inr, leb, any, select, All, All-of, Bool-cases, ===_refl, arith,
}
use nft_tracker.Repeat.{Repeatable, has_id}

abbrev pub matches : Text → List Repeatable → List Repeatable
matches id = select (has_id id)

-- the jobs with the number all have their keys among those of a list
abbrev pub Covered : Text → List Repeatable → List Repeatable → Type 0
Covered id ms = All (λ j. has_id id j ≡ true → any (λ m. j.key === m.key) ms ≡ true)

pub two_or_more : (n : ℕ) → leb (suc (suc n)) 1 ≡ false
two_or_more n = ground arith

pub or_right : (a b : Bool) → b ≡ true → (a || b) ≡ true
or_right true b e = refl
or_right false b e = e

pub matches_taken :
    (id : Text) (j : Repeatable) (js : List Repeatable)
    → has_id id j ≡ true
    → matches id (j ∷ js) ≡ j ∷ matches id js
matches_taken id j js t = rw t refl

pub matches_left :
    (id : Text) (j : Repeatable) (js : List Repeatable)
    → has_id id j ≡ false
    → matches id (j ∷ js) ≡ matches id js
matches_left id j js t = rw t refl

pub Covered-matches : (id : Text) (js : List Repeatable) → Covered id (matches id js) js
Covered-matches id [] = tt
Covered-matches id (j ∷ js) = elim (Bool-cases (has_id id j)) [
  | inl t ↦
      subst (λ ms. Covered id ms (j ∷ js)) (sym (matches_taken id j js t))
        (
          (λ e. rw (===_refl j.key) refl),
          All-of js (λ x f e. or_right _ _ (f e)) (Covered-matches id js),
        )
  | inr t ↦
      subst (λ ms. Covered id ms (j ∷ js)) (sym (matches_left id j js t))
        ((λ e. absurd (cc (e, t))), Covered-matches id js)
]

pub Covered-select :
    (id : Text) (m : Repeatable) (ms js : List Repeatable)
    → Covered id (m ∷ ms) js
    → Covered id ms (select (λ j. not (j.key === m.key)) js)
Covered-select id m ms [] h = tt
Covered-select id m ms (j ∷ js) (hj, h) = elim (Bool-cases (j.key === m.key)) [
  | inl t ↦ rw t (Covered-select id m ms js h)
  | inr t ↦ rw t (rw t at hj, Covered-select id m ms js h)
]

pub matches-nil : (id : Text) (js : List Repeatable) → Covered id [] js → matches id js ≡ []
matches-nil id [] h = refl
matches-nil id (j ∷ js) (hj, h) = elim (Bool-cases (has_id id j)) [
  | inl t ↦ absurd (cc (hj t))
  | inr t ↦ rw t (matches-nil id js h)
]

pub matches-append :
    (id : Text) (js ks : List Repeatable) → matches id (js ++ ks) ≡ matches id js ++ matches id ks
matches-append id [] ks = refl
matches-append id (j ∷ js) ks = ground (arith, matches-append id js ks)

pub All-select :
    (P : Repeatable → Type 0) (p : Repeatable → Bool) (js : List Repeatable)
    → All P js
    → All P (select p js)
All-select P p [] h = tt
All-select P p (j ∷ js) (hj, h) = elim (Bool-cases (p j)) [
  | inl t ↦ rw t (hj, All-select P p js h)
  | inr t ↦ rw t (All-select P p js h)
]

-- the key of every job that has it stands among the matches
pub any-matches :
    (id key : Text) (js : List Repeatable)
    → All (λ j. j.key === key ≡ true → j.id === id ≡ true) js
    → any (λ j. j.key === key) js ≡ any (λ j. j.key === key) (matches id js)
any-matches id key [] h = refl
any-matches id key (j ∷ js) (hj, h) = elim (Bool-cases (has_id id j)) [
  | inl t ↦ rw t (ap (λ b. j.key === key || b) (any-matches id key js h))
  | inr t ↦ elim (Bool-cases (j.key === key)) [
    | inl k ↦ absurd (cc (hj k, t))
    | inr k ↦ rw (t, k) (any-matches id key js h)
  ]
]

pub matches_id : (id : Text) (js : List Repeatable) → All (λ j. has_id id j ≡ true) (matches id js)
matches_id id [] = tt
matches_id id (j ∷ js) = elim (Bool-cases (has_id id j)) [
  | inl t ↦ rw t (t, matches_id id js)
  | inr t ↦ rw t (matches_id id js)
]
