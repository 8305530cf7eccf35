-- ===== src/Migrations/Valid.antt =====
-- Schemas in which whatever an index or a constraint names is there, and what holds of them.
use Prim.Native.String.{String}
use text.Mathlib.Text.{◌==◌ as str_eq}
use text.Mathlib.TextEquality.{eq_iff}
use mathlib.Core.Path.{fun_ext}
use mathlib.Core.Option.{some-injective}
use nft_tracker.Prelude.{
  ◌≡◌, refl, sym, ap, ◌∙◌, ◌⊎◌, inl, inr, subst, Option, none, some, Bool, true, false, not, List,
  [], ◌∷◌, ◌&&◌, is_some, Bool-cases, arith,
}
use nft_tracker.Migrations.Names.{Dict, put, put_self, is_some-put, put_other, put_cases}
use nft_tracker.Migrations.{
  Column, Constraint, Table, Index, Schema, guard, has_columns, mentions, unless_index_on,
  unless_index_of, unless_constraint_of,
}

-- What an index or a constraint names is there.
pub record IsSchema (s : Schema) : Type 0 where
  pub indexed :
      (k : String) (i : Index)
      → s.indexes k ≡ some i
      → (t : Table) × (s.tables i.table ≡ some t) × (has_columns t.columns i.columns ≡ true)
  pub constrained :
      (n k : String) (t : Table) (c : Constraint)
      → s.tables n ≡ some t
      → t.constraints k ≡ some c
      → has_columns t.columns c.columns ≡ true

pub not-true : (b : Bool) → not b ≡ true → b ≡ false
not-true true h = cc
not-true false h = refl

pub is_some-none : {A : Type 0} (o : Option A) → is_some o ≡ false → o ≡ none
is_some-none none h = refl
is_some-none (some a) h = cc

pub guarded : (b : Bool) (s : Schema) {s' : Schema} → guard b s ≡ some s' → (b ≡ true) × (s ≡ s')
guarded true s h = (refl, ground (arith, h))
guarded false s h = cc

pub &&-true : (a b : Bool) → (a && b) ≡ true → (a ≡ true) × (b ≡ true)
&&-true true b h = (refl, h)
&&-true false b h = cc

-- A column that is not there is not mentioned.
not_mentioned :
    (columns : Dict Column) (c : String) (cs : List String)
    → columns c ≡ none
    → has_columns columns cs ≡ true
    → mentions c cs ≡ false
not_mentioned columns c [] free h = refl
not_mentioned columns c (d ∷ cs) free h =
    let (here, rest) = &&-true (is_some (columns d)) (has_columns columns cs) h in
    elim (Bool-cases (str_eq d c)) [
      | inl t ↦
          (let absent = ap (λ e. is_some (columns e)) ((eq_iff d c).0 t) ∙ ap is_some free in
            cc (absent, here))
      | inr t ↦ rw t (not_mentioned columns c cs free rest)
    ]

-- A column more does no harm.
pub has_columns-put :
    (columns : Dict Column) (k : String) (v : Column) (cs : List String)
    → has_columns columns cs ≡ true
    → has_columns (put k v columns) cs ≡ true
has_columns-put columns k v [] h = refl
has_columns-put columns k v (c ∷ cs) h =
    let (here, rest) = &&-true (is_some (columns c)) (has_columns columns cs) h in
    rw (is_some-put k c v columns here) (has_columns-put columns k v cs rest)

module _ (s : Schema) (valid : IsSchema s) where
  -- no index stands on a table that is not there
  pub indexes_on_new :
      (name : String) → s.tables name ≡ none → (λ k. unless_index_on name (s.indexes k)) ≡ s.indexes
  indexes_on_new name free = fun_ext (λ k. each k (s.indexes k) refl)
    where
      each :
          (k : String) (i : Option Index)
          → s.indexes k ≡ i
          → unless_index_on name (s.indexes k) ≡ s.indexes k
      each k none e = rw e refl
      each k (some i) e = rw e (kept (Bool-cases (str_eq i.table name)))
        where
          kept :
              (str_eq i.table name ≡ true) ⊎ (str_eq i.table name ≡ false)
              → unless_index_on name (some i) ≡ some i
          kept (inr t) = rw t refl
          kept (inl t) =
              let (u, there, h) = valid.indexed k i e in
              let absent = ap s.tables ((eq_iff i.table name).0 t) ∙ free in cc (absent, there)

  -- no index or constraint of a table names a column that is not there
  pub indexes_on_column :
      (name c : String) (t : Table)
      → s.tables name ≡ some t
      → t.columns c ≡ none
      → (λ k. unless_index_of name c (s.indexes k)) ≡ s.indexes
  indexes_on_column name c t here free = fun_ext (λ k. each k (s.indexes k) refl)
    where
      each :
          (k : String) (i : Option Index)
          → s.indexes k ≡ i
          → unless_index_of name c (s.indexes k) ≡ s.indexes k
      each k none e = rw e refl
      each k (some i) e = rw e (kept (Bool-cases (str_eq i.table name)))
        where
          kept :
              (str_eq i.table name ≡ true) ⊎ (str_eq i.table name ≡ false)
              → unless_index_of name c (some i) ≡ some i
          kept (inr t) = rw t refl
          kept (inl t) =
              let (u, there, h) = valid.indexed k i e in
              let same =
                some-injective u _ (sym there ∙ ap s.tables ((eq_iff i.table name).0 t) ∙ here) in
              rw t (
                rw (not_mentioned u.columns c i.columns (ap (λ w. w.columns c) same ∙ free) h) refl)

  pub constraints_on_column :
      (name c : String) (t : Table)
      → s.tables name ≡ some t
      → t.columns c ≡ none
      → (λ k. unless_constraint_of c (t.constraints k)) ≡ t.constraints
  constraints_on_column name c t here free = fun_ext (λ k. each k (t.constraints k) refl)
    where
      each :
          (k : String) (o : Option Constraint)
          → t.constraints k ≡ o
          → unless_constraint_of c (t.constraints k) ≡ t.constraints k
      each k none e = rw e refl
      each k (some x) e =
          rw e (
            rw (not_mentioned t.columns c x.columns free (valid.constrained name k t x here e))
              refl)

  -- an index or a constraint that is valid stays so when a table changes to one with its columns
  pub indexed-set_table :
      (name : String) (t t' : Table)
      → s.tables name ≡ some t
      → ((cs : List String) → has_columns t.columns cs ≡ true → has_columns t'.columns cs ≡ true)
      → (k : String) (i : Index) → s.indexes k ≡ some i
      → (u : Table) × (put name t' s.tables i.table ≡ some u)
        × (has_columns u.columns i.columns ≡ true)
  indexed-set_table name t t' here grows k i e =
      let (u, there, h) = valid.indexed k i e in
      elim (Bool-cases (str_eq name i.table)) [
        | inl x ↦
            (let same : name ≡ i.table = (eq_iff name i.table).0 x in
              let table_of = some-injective u t (sym there ∙ ap s.tables (sym same) ∙ here) in
              (
                t',
                ap (put name t' s.tables) (sym same) ∙ put_self name t' s.tables,
                grows i.columns (subst (λ w. has_columns w.columns i.columns ≡ true) table_of h),
              ))
        | inr x ↦ (u, put_other name i.table t' s.tables x ∙ there, h)
      ]

  pub constrained-set_table :
      (name : String) (t' : Table)
      → ((k : String) (c : Constraint)
          → t'.constraints k ≡ some c
          → has_columns t'.columns c.columns ≡ true)
      → (n k : String) (u : Table) (c : Constraint) → put name t' s.tables n ≡ some u
      → u.constraints k ≡ some c
      → has_columns u.columns c.columns ≡ true
  constrained-set_table name t' own n k u c e e' = elim (put_cases name n t' u s.tables e) [
    | inl (x, same) ↦
        subst (λ w. has_columns w.columns c.columns ≡ true) same
          (own k c (ap (λ w. w.constraints k) same ∙ e'))
    | inr (x, there) ↦ valid.constrained n k u c there e'
  ]
