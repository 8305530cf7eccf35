-- ===== src/Migrations/Revert.antt =====
-- Lists of statements that add to a schema, and those that take them back.
use mathlib.Core.Option.{some-injective}
use nft_tracker.Prelude.{◌≡◌, refl, sym, ap, ◌∙◌, subst, Option, none, some, List, [], ◌∷◌, ◌++◌}
use nft_tracker.Migrations.{
  Schema, Statement, create_type, drop_type, create_table, drop_table, create_index, drop_index,
  add_column, drop_column, add_constraint, drop_constraint, create_extension, drop_extension,
  rename_type, rename_column, set_not_null, set_default, set_type, change_rows, run_statement,
  and_then, run,
}
use nft_tracker.Migrations.Valid.{IsSchema}
use nft_tracker.Migrations.Back.{
  Back, create_type-Back, create_table-Back, create_index-Back, add_column-Back,
  add_constraint-Back,
}

-- What takes a statement back that adds to a schema, or leaves it as it is; there is none for others.
abbrev pub counterpart : Statement → Option (List Statement)
counterpart (create_type name values) = some (drop_type name ∷ [])
counterpart (create_table name columns constraints) = some (drop_table name ∷ [])
counterpart (create_index name i) = some (drop_index name ∷ [])
counterpart (add_column table name column) = some (drop_column table name ∷ [])
counterpart (add_constraint table name constraint) = some (drop_constraint table name ∷ [])
counterpart (change_rows statement) = some []
counterpart _ = none

abbrev pub after : Option (List Statement) → Option (List Statement) → Option (List Statement)
after (some ps) (some qs) = some (ps ++ qs)
after _ _ = none

-- the statements that take others back, the last of them first
abbrev pub revert_of : List Statement → Option (List Statement)
revert_of [] = some []
revert_of (q ∷ qs) = after (revert_of qs) (counterpart q)

module _ (s : Schema) (valid : IsSchema s) where
  abbrev TakesBack : Schema → List Statement → Type 0
  TakesBack s' ps = (run ps s' ≡ some s) × IsSchema s'

  alone : (p : Statement) {s' : Schema} → Back p s s' → TakesBack s' (p ∷ [])
  unfolding run
  alone p (back, valid') = (ap (λ o. and_then o (run [])) back, valid')

  -- one statement
  run-counterpart :
      (q : Statement) {s' : Schema} (ps : List Statement)
      → counterpart q ≡ some ps
      → run_statement q s ≡ some s'
      → TakesBack s' ps
  unfolding run_statement run
  run-counterpart (create_type name values) {s'} ps e h =
      subst (TakesBack s') (some-injective _ _ e)
        (alone (drop_type name) (create_type-Back s valid name values h))
  run-counterpart (create_table name columns constraints) {s'} ps e h =
      subst (TakesBack s') (some-injective _ _ e)
        (alone (drop_table name) (create_table-Back s valid name columns constraints h))
  run-counterpart (create_index name i) {s'} ps e h =
      subst (TakesBack s') (some-injective _ _ e)
        (alone (drop_index name) (create_index-Back s valid name i h))
  run-counterpart (add_column table name column) {s'} ps e h =
      subst (TakesBack s') (some-injective _ _ e)
        (alone (drop_column table name) (add_column-Back s valid table name column h))
  run-counterpart (add_constraint table name x) {s'} ps e h =
      subst (TakesBack s') (some-injective _ _ e)
        (alone (drop_constraint table name) (add_constraint-Back s valid table name x h))
  run-counterpart (change_rows statement) {s'} ps e h =
      subst (TakesBack s') (some-injective _ _ e)
        (sym h, subst IsSchema (some-injective _ _ h) valid)
  run-counterpart (create_extension name) ps e h = cc
  run-counterpart (drop_extension name) ps e h = cc
  run-counterpart (drop_type name) ps e h = cc
  run-counterpart (rename_type old new) ps e h = cc
  run-counterpart (drop_table name) ps e h = cc
  run-counterpart (drop_index name) ps e h = cc
  run-counterpart (drop_column table name) ps e h = cc
  run-counterpart (rename_column table old new) ps e h = cc
  run-counterpart (set_not_null table column b) ps e h = cc
  run-counterpart (set_default table column d) ps e h = cc
  run-counterpart (set_type table column type) ps e h = cc
  run-counterpart (drop_constraint table name) ps e h = cc

run-append : (ps qs : List Statement) (s : Schema) → run (ps ++ qs) s ≡ and_then (run ps s) (run qs)
unfolding run
run-append [] qs s = refl
run-append (p ∷ ps) qs s = each (run_statement p s) (run-append ps qs)
  where
    each :
        (o : Option Schema)
        → ((t : Schema) → run (ps ++ qs) t ≡ and_then (run ps t) (run qs))
        → and_then o (run (ps ++ qs)) ≡ and_then (and_then o (run ps)) (run qs)
    each none later = refl
    each (some t) later = later t

and_then-some :
    (o : Option Schema) (f : Schema → Option Schema) {s' : Schema}
    → and_then o f ≡ some s'
    → (t : Schema) × (o ≡ some t) × (f t ≡ some s')
and_then-some none f h = cc
and_then-some (some t) f h = (t, refl, h)

after-some :
    (o r : Option (List Statement)) {ps : List Statement}
    → after o r ≡ some ps
    → (ps' bs : List Statement) × (o ≡ some ps') × (r ≡ some bs) × (ps' ++ bs ≡ ps)
after-some (some ps') (some bs) h = (ps', bs, refl, refl, some-injective _ _ h)
after-some none (some bs) h = cc
after-some none none h = cc
after-some (some ps') none h = cc

-- Statements that add to a valid schema leave it valid, and those that take them back lead back to it.
pub run-revert_of :
    (qs : List Statement) {ps : List Statement} {s s' : Schema}
    → revert_of qs ≡ some ps
    → IsSchema s
    → run qs s ≡ some s'
    → (run ps s' ≡ some s) × IsSchema s'
unfolding run
run-revert_of [] {ps} {s} {s'} e valid h =
    subst (λ ps. (run ps s' ≡ some s) × IsSchema s') (some-injective _ _ e)
      (sym h, subst IsSchema (some-injective _ _ h) valid)
run-revert_of (q ∷ qs) {ps} {s} {s'} e valid h =
    let (t, first, rest) = and_then-some (run_statement q s) (run qs) h in
    let (later, own, there, here, joined) = after-some (revert_of qs) (counterpart q) e in
    let (back, valid_t) = run-counterpart s valid q own here first in
    let (backs, valid') = run-revert_of qs there valid_t rest in
    (
      ap (λ ps. run ps s') (sym joined)
          ∙ run-append later own s'
          ∙ ap (λ o. and_then o (run own)) backs
          ∙ back,
      valid',
    )
