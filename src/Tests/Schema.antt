-- ===== src/Tests/Schema.antt =====
-- The migrations, run from the first on.
use nft_tracker.Prelude.{◌≡◌, refl, none, some, true, List, [], ◌∷◌, ◌++◌, is_some, or_else}
use nft_tracker.Migrations.{Schema, Statement, Migration, run, run_statement}
use nft_tracker.Migrations.Names.{put, cut, of_list}
use nft_tracker.Migrations.Valid.{IsSchema}
use nft_tracker.Migrations.History.{schema_migrations, revert-run}
use nft_tracker.Migrations.Start.{create_webhook_and_configuration_entity}

abbrev empty_schema : Schema
empty_schema = record {
  extensions = λ k. none;
  types = λ k. none;
  tables = λ k. none;
  indexes = λ k. none;
}

empty_schema-IsSchema : IsSchema empty_schema
empty_schema-IsSchema = record {
  indexed = λ k i e. absurd (cc (e));
  constrained = λ n k t c e e'. absurd (cc (e));
}

abbrev all_statements : List Migration → List Statement
all_statements [] = []
all_statements (m ∷ ms) = m.up ++ all_statements ms

abbrev all_reverted : List Migration → List Statement
all_reverted [] = []
all_reverted (m ∷ ms) = all_reverted ms ++ m.down

-- every migration runs after those before it, and all can be reverted again
history_runs : is_some (run (all_statements schema_migrations) empty_schema) ≡ true
unfolding run run_statement put cut of_list
history_runs = refl

history_reverts :
    is_some (run (all_statements schema_migrations ++ all_reverted schema_migrations) empty_schema)
    ≡ true
unfolding run run_statement put cut of_list
history_reverts = refl

abbrev first_schema : Schema
first_schema = or_else (run create_webhook_and_configuration_entity.up empty_schema) empty_schema

revert-run_example :
    (run create_webhook_and_configuration_entity.down first_schema ≡ some empty_schema)
    × IsSchema first_schema
unfolding run run_statement put cut of_list
revert-run_example = revert-run 0 refl empty_schema-IsSchema refl
