-- ===== src/Migrations/Back.antt =====
-- Statements that make something new, and the statements that take it back, one by one.
use Prim.Native.String.{String}
use text.Mathlib.Text.{◌==◌ as str_eq}
use text.Mathlib.TextEquality.{eq_iff}
use nft_tracker.Prelude.{
  ◌≡◌, refl, ap, ◌∙◌, inl, inr, subst, Option, none, some, true, false, not, List, [], ◌∷◌, ◌&&◌,
  is_some, Bool-cases,
}
use nft_tracker.Migrations.Names.{
  Dict, put, cut, of_list, cut-put, put-put, put_self, put_other, put_cases,
}
use nft_tracker.Migrations.{
  Column, Constraint, Table, Index, Schema, Statement, create_type, drop_type, create_table,
  drop_table, create_index, drop_index, add_column, drop_column, add_constraint, drop_constraint,
  guard, with_table, set_table, has_columns, are_on, unless_index_on, unless_index_of,
  without_column, run_statement,
}
use nft_tracker.Migrations.Valid.{
  IsSchema, not-true, is_some-none, guarded, &&-true, has_columns-put, indexes_on_new,
  indexes_on_column, constraints_on_column, indexed-set_table, constrained-set_table,
}

-- A statement has led to a schema that is valid again, and from which another leads back.
abbrev pub Back : Statement → Schema → Schema → Type 0
Back p s s' = (run_statement p s' ≡ some s) × IsSchema s'

free_of : {A : Type 0} (o : Option A) → not (is_some o) ≡ true → o ≡ none
free_of o h = is_some-none o (not-true (is_some o) h)

with_table-some :
    (o : Option Table) (f : Table → Option Schema) {s' : Schema}
    → with_table o f ≡ some s'
    → (t : Table) × (o ≡ some t) × (f t ≡ some s')
with_table-some none f h = cc
with_table-some (some t) f h = (t, refl, h)

-- The constraints that a table is made with name columns of its own.
are_on-all :
    (columns : Dict Column) (constraints : List (String × Constraint)) (k : String) (c : Constraint)
    → are_on columns constraints ≡ true
    → of_list constraints k ≡ some c
    → has_columns columns c.columns ≡ true
unfolding of_list
are_on-all columns [] k c h q = cc
are_on-all columns ((n, x) ∷ rest) k c h q =
    let (here, on) = &&-true (has_columns columns x.columns) (are_on columns rest) h in
    elim (put_cases n k x c (of_list rest) q) [
      | inl (p, same) ↦ subst (λ z. has_columns columns z.columns ≡ true) same here
      | inr (p, q') ↦ are_on-all columns rest k c on q'
    ]

module _ (s : Schema) (valid : IsSchema s) where
  pub create_type-Back :
      (name : String) (values : List String) {s' : Schema}
      → run_statement (create_type name values) s ≡ some s'
      → Back (drop_type name) s s'
  unfolding run_statement
  create_type-Back name values {s'} h =
      let (fresh, e) = guarded (not (is_some (s.types name))) _ h in
      let s1 : Schema = record s { types = put name values s.types } in
      let dropped : Schema = record s { types = cut name (put name values s.types) } in
      subst (Back (drop_type name) s) e (
        ap (λ o. guard (is_some o) dropped) (put_self name values s.types) ∙ (λ i.
            some
              (record s { types = cut-put name values s.types (free_of (s.types name) fresh) i })),
        record { indexed = valid.indexed; constrained = valid.constrained },
      )

  pub create_index-Back :
      (name : String) (x : Index) {s' : Schema}
      → run_statement (create_index name x) s ≡ some s'
      → Back (drop_index name) s s'
  unfolding run_statement
  create_index-Back name x {s'} h =
      let (t, here, h') = with_table-some (s.tables x.table) _ h in
      let (b, e) =
        guarded (not (is_some (s.indexes name)) && has_columns t.columns x.columns) _ h' in
      let (fresh, there) =
        &&-true (not (is_some (s.indexes name))) (has_columns t.columns x.columns) b in
      let dropped : Schema = record s { indexes = cut name (put name x s.indexes) } in
      subst (Back (drop_index name) s) e (
        ap (λ o. guard (is_some o) dropped) (put_self name x s.indexes) ∙ (λ i.
            some
              (record s { indexes = cut-put name x s.indexes (free_of (s.indexes name) fresh) i })),
        record {
          indexed = λ k y q. elim (put_cases name k x y s.indexes q) [
            | inl (p, same) ↦
                subst
                  (λ z.
                    (u : Table) × (s.tables z.table ≡ some u)
                    × (has_columns u.columns z.columns ≡ true))
                  same (t, here, there)
            | inr (p, q') ↦ valid.indexed k y q'
          ];
          constrained = valid.constrained;
        },
      )

  pub create_table-Back :
      (name : String) (columns : List (String × Column)) (constraints : List (String × Constraint))
      {s' : Schema}
      → run_statement (create_table name columns constraints) s ≡ some s'
      → Back (drop_table name) s s'
  unfolding run_statement
  create_table-Back name columns constraints {s'} h =
      let (b, e) =
        guarded (not (is_some (s.tables name)) && are_on (of_list columns) constraints) _ h in
      let (fresh, on) =
        &&-true (not (is_some (s.tables name))) (are_on (of_list columns) constraints) b in
      let free = free_of (s.tables name) fresh in
      let t : Table = record { columns = of_list columns; constraints = of_list constraints } in
      let dropped : Schema = record s {
        tables = cut name (put name t s.tables);
        indexes = λ k. unless_index_on name (s.indexes k);
      } in
      subst (Back (drop_table name) s) e (
        ap (λ o. guard (is_some o) dropped) (put_self name t s.tables) ∙ (λ i. some (record s {
          tables = cut-put name t s.tables free i;
          indexes = indexes_on_new s valid name free i;
        })),
        record {
          indexed = λ k y q.
              let (u, there, has) = valid.indexed k y q in
              (u, put_other name y.table t s.tables (apart y.table u free there) ∙ there, has);
          constrained =
              constrained-set_table s valid name t
                (λ k c q. are_on-all (of_list columns) constraints k c on q);
        },
      )
    where
      apart :
          (n : String) (u : Table)
          → s.tables name ≡ none
          → s.tables n ≡ some u
          → str_eq name n ≡ false
      apart n u free there = elim (Bool-cases (str_eq name n)) [
        | inl x ↦ (let same = ap s.tables ((eq_iff name n).0 x) in cc (same, free, there))
        | inr x ↦ x
      ]

  pub add_column-Back :
      (table name : String) (column : Column) {s' : Schema}
      → run_statement (add_column table name column) s ≡ some s'
      → Back (drop_column table name) s s'
  unfolding run_statement
  add_column-Back table name column {s'} h =
      let (t, here, h') = with_table-some (s.tables table) _ h in
      let (fresh, e) = guarded (not (is_some (t.columns name))) _ h' in
      let free = free_of (t.columns name) fresh in
      let t' : Table = record t { columns = put name column t.columns } in
      let s1 : Schema = set_table table t' s in
      let dropped : Table → Schema = λ u. record s1 {
        tables = put table (without_column name u) s1.tables;
        indexes = λ k. unless_index_of table name (s1.indexes k);
      } in
      subst (Back (drop_column table name) s) e (
        ap (λ o. with_table o (λ u. guard (is_some (u.columns name)) (dropped u)))
              (put_self table t' s.tables)
            ∙ ap (λ o. guard (is_some o) (dropped t')) (put_self name column t.columns)
            ∙ (λ i. some (record s1 {
              tables =
                  put table
                    (record {
                      columns = cut-put name column t.columns free i;
                      constraints = constraints_on_column s valid table name t here free i;
                    })
                    s1.tables;
              indexes = indexes_on_column s valid table name t here free i;
            }))
            ∙ (λ i. some (record s { tables = put-put table t t' s.tables here i })),
        record {
          indexed =
              indexed-set_table s valid table t t' here (has_columns-put t.columns name column);
          constrained = constrained-set_table s valid table t' (λ k c q.
              has_columns-put t.columns name column c.columns
                (valid.constrained table k t c here q));
        },
      )

  pub add_constraint-Back :
      (table name : String) (x : Constraint) {s' : Schema}
      → run_statement (add_constraint table name x) s ≡ some s'
      → Back (drop_constraint table name) s s'
  unfolding run_statement
  add_constraint-Back table name x {s'} h =
      let (t, here, h') = with_table-some (s.tables table) _ h in
      let (b, e) =
        guarded (not (is_some (t.constraints name)) && has_columns t.columns x.columns) _ h' in
      let (fresh, on) =
        &&-true (not (is_some (t.constraints name))) (has_columns t.columns x.columns) b in
      let free = free_of (t.constraints name) fresh in
      let t' : Table = record t { constraints = put name x t.constraints } in
      let s1 : Schema = set_table table t' s in
      let dropped : Table → Schema =
        λ u. set_table table (record u { constraints = cut name u.constraints }) s1 in
      subst (Back (drop_constraint table name) s) e (
        ap (λ o. with_table o (λ u. guard (is_some (u.constraints name)) (dropped u)))
              (put_self table t' s.tables)
            ∙ ap (λ o. guard (is_some o) (dropped t')) (put_self name x t.constraints)
            ∙ (λ i. some (
                set_table table (record t { constraints = cut-put name x t.constraints free i })
                  s1))
            ∙ (λ i. some (record s { tables = put-put table t t' s.tables here i })),
        record {
          indexed = indexed-set_table s valid table t t' here (λ cs q. q);
          constrained = constrained-set_table s valid table t' (λ k c q.
              elim (put_cases name k x c t.constraints q) [
                | inl (p, same) ↦ subst (λ z. has_columns t.columns z.columns ≡ true) same on
                | inr (p, q') ↦ valid.constrained table k t c here q'
              ]);
        },
      )
