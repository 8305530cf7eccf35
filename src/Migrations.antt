-- ===== src/Migrations.antt =====
-- modules/database/migrations: the statements of SQL that the migrations run, on a schema of PostgreSQL
-- without its rows. A statement that names what is not there, or makes what is, is refused. What
-- refers to a table, a column or a type from elsewhere does not keep it from being dropped.
pub mod Back
pub mod History
pub mod Indexes
pub mod Names
pub mod November
pub mod October
pub mod September
pub mod Start
pub mod Revert
pub mod Valid
use Prim.Native.String.{String}
use package.text.Mathlib.Text.{◌==◌ as str_eq}
use nft_tracker.Prelude.{
  Option, none, some, Bool, true, false, not, List, [], ◌∷◌, ◌&&◌, any, is_some, if◌then◌else◌,
}
use nft_tracker.Migrations.Names.{Dict, put, cut, of_list}

pub data SqlType : Type 0 where
  uuid timestamptz text varchar json jsonb boolean numeric integer bigint text_array : SqlType
  enum_of : String → SqlType

pub record Column : Type 0 where
  pub type : SqlType
  pub not_null : Bool
  pub default : Option String

-- of the columns of a table; a foreign key names another table and its columns
pub data ConstraintKind : Type 0 where
  primary_key unique_key : ConstraintKind
  foreign_key : String → List String → ConstraintKind

pub record Constraint : Type 0 where
  pub kind : ConstraintKind
  pub columns : List String

pub record Table : Type 0 where
  pub columns : Dict Column
  pub constraints : Dict Constraint

pub record Index : Type 0 where
  pub table : String
  pub columns : List String
  pub unique : Bool
  pub condition : Option String

pub record Schema : Type 0 where
  pub extensions : Dict (Unit {0})
  pub types : Dict (List String)
  pub tables : Dict Table
  pub indexes : Dict Index

pub data Statement : Type 0 where
  create_extension drop_extension : String → Statement
  create_type : String → List String → Statement
  drop_type : String → Statement
  rename_type : String → String → Statement
  create_table : String → List (String × Column) → List (String × Constraint) → Statement
  drop_table : String → Statement
  create_index : String → Index → Statement
  drop_index : String → Statement
  add_column : String → String → Column → Statement
  drop_column : String → String → Statement
  rename_column : String → String → String → Statement
  set_not_null : String → String → Bool → Statement
  set_default : String → String → Option String → Statement
  set_type : String → String → SqlType → Statement
  add_constraint : String → String → Constraint → Statement
  drop_constraint : String → String → Statement
  -- a change of rows, which leaves the schema as it is
  change_rows : String → Statement

abbrev pub guard : Bool → Schema → Option Schema
guard true s = some s
guard false s = none

abbrev pub with_table : Option Table → (Table → Option Schema) → Option Schema
with_table none f = none
with_table (some t) f = f t

abbrev pub set_table : String → Table → Schema → Schema
set_table name t s = record s { tables = put name t s.tables }

abbrev pub has_columns : Dict Column → List String → Bool
has_columns columns [] = true
has_columns columns (c ∷ cs) = is_some (columns c) && has_columns columns cs

abbrev pub are_on : Dict Column → List (String × Constraint) → Bool
are_on columns [] = true
are_on columns ((k, c) ∷ rest) = has_columns columns c.columns && are_on columns rest

abbrev pub mentions : String → List String → Bool
mentions column = any (λ c. str_eq c column)

-- with a table go its indexes
abbrev pub unless_index_on : String → Option Index → Option Index
unless_index_on table none = none
unless_index_on table (some i) = if str_eq i.table table then none else some i

-- with a column go the indexes and the constraints that name it
abbrev pub unless_index_of : String → String → Option Index → Option Index
unless_index_of table column none = none
unless_index_of table column (some i) =
    if str_eq i.table table && mentions column i.columns then none else some i

abbrev pub unless_constraint_of : String → Option Constraint → Option Constraint
unless_constraint_of column none = none
unless_constraint_of column (some c) = if mentions column c.columns then none else some c

abbrev without_column : String → Table → Table
without_column column t = record {
  columns = cut column t.columns;
  constraints = λ k. unless_constraint_of column (t.constraints k);
}

abbrev change_column : String → (Column → Column) → Option Column → Table → Option Table
change_column name f none t = none
change_column name f (some c) t = some (record t { columns = put name (f c) t.columns })

abbrev alter : String → String → (Column → Column) → Schema → Option Schema
alter table column f s =
    with_table (s.tables table) λ t. store_table (change_column column f (t.columns column) t)
  where
    store_table : Option Table → Option Schema
    store_table none = none
    store_table (some t) = some (set_table table t s)

-- a type is renamed in the columns that have it
abbrev renamed_type : String → String → SqlType → SqlType
renamed_type old new (enum_of n) = if str_eq n old then enum_of new else enum_of n
renamed_type old new type = type

abbrev renamed_column : String → String → Option Column → Option Column
renamed_column old new none = none
renamed_column old new (some c) = some (record c { type = renamed_type old new c.type })

abbrev renamed_table : String → String → Option Table → Option Table
renamed_table old new none = none
renamed_table old new (some t) =
    some (record t { columns = λ c. renamed_column old new (t.columns c) })

rename_in : String → String → List String → List String
rename_in old new [] = []
rename_in old new (c ∷ cs) = (if str_eq c old then new else c) ∷ rename_in old new cs

renamed_index : String → String → String → Option Index → Option Index
unfolding rename_in
renamed_index table old new none = none
renamed_index table old new (some i) =
    some (if str_eq i.table table then record i { columns = rename_in old new i.columns } else i)

renamed_constraint : String → String → Option Constraint → Option Constraint
unfolding rename_in
renamed_constraint old new none = none
renamed_constraint old new (some c) = some (record c { columns = rename_in old new c.columns })

rename_in_table : String → String → String → Schema → Option Column → Table → Option Schema
unfolding renamed_index renamed_constraint
rename_in_table table old new s none t = none
rename_in_table table old new s (some c) t = guard (not (is_some (t.columns new))) (record s {
  tables =
      put table
        (record {
          columns = put new c (cut old t.columns);
          constraints = λ k. renamed_constraint old new (t.constraints k);
        })
        s.tables;
  indexes = λ k. renamed_index table old new (s.indexes k);
})

rename_values : String → Schema → Option (List String) → Option Schema
rename_values new s none = none
rename_values new s (some values) = some (record s { types = put new values s.types })

unfoldable pub run_statement : Statement → Schema → Option Schema
unfolding rename_in_table rename_values
run_statement (create_extension name) s = some (record s { extensions = put name tt s.extensions })
run_statement (drop_extension name) s = some (record s { extensions = cut name s.extensions })
run_statement (create_type name values) s =
    guard (not (is_some (s.types name))) (record s { types = put name values s.types })
run_statement (drop_type name) s =
    guard (is_some (s.types name)) (record s { types = cut name s.types })
run_statement (rename_type old new) s =
    if is_some (s.types new)
    then none
    else rename_values new
        (record s { types = cut old s.types; tables = λ t. renamed_table old new (s.tables t) })
        (s.types old)
run_statement (create_table name columns constraints) s =
    guard (not (is_some (s.tables name)) && are_on (of_list columns) constraints)
      (set_table name (record { columns = of_list columns; constraints = of_list constraints }) s)
run_statement (drop_table name) s =
    guard (is_some (s.tables name))
      (record s { tables = cut name s.tables; indexes = λ k. unless_index_on name (s.indexes k) })
run_statement (create_index name i) s = with_table (s.tables i.table) λ t.
    guard (not (is_some (s.indexes name)) && has_columns t.columns i.columns)
      (record s { indexes = put name i s.indexes })
run_statement (drop_index name) s =
    guard (is_some (s.indexes name)) (record s { indexes = cut name s.indexes })
run_statement (add_column table name column) s = with_table (s.tables table) λ t.
    guard (not (is_some (t.columns name)))
      (set_table table (record t { columns = put name column t.columns }) s)
run_statement (drop_column table name) s = with_table (s.tables table) λ t.
    guard (is_some (t.columns name)) (record s {
      tables = put table (without_column name t) s.tables;
      indexes = λ k. unless_index_of table name (s.indexes k);
    })
run_statement (rename_column table old new) s =
    with_table (s.tables table) λ t. rename_in_table table old new s (t.columns old) t
run_statement (set_not_null table column not_null) s =
    alter table column (λ c. record c { not_null = not_null }) s
run_statement (set_default table column default) s =
    alter table column (λ c. record c { default = default }) s
run_statement (set_type table column type) s = alter table column (λ c. record c { type = type }) s
run_statement (add_constraint table name constraint) s = with_table (s.tables table) λ t.
    guard (not (is_some (t.constraints name)) && has_columns t.columns constraint.columns)
      (set_table table (record t { constraints = put name constraint t.constraints }) s)
run_statement (drop_constraint table name) s = with_table (s.tables table) λ t.
    guard (is_some (t.constraints name))
      (set_table table (record t { constraints = cut name t.constraints }) s)
run_statement (change_rows statement) s = some s

abbrev pub and_then : Option Schema → (Schema → Option Schema) → Option Schema
and_then none f = none
and_then (some s) f = f s

-- `queryRunner.query` for one statement after another
unfoldable pub run : List Statement → Schema → Option Schema
run [] s = some s
run (q ∷ qs) s = and_then (run_statement q s) (run qs)

pub record Migration : Type 0 where
  pub up : List Statement
  pub down : List Statement

-- the notation of the migrations
abbrev pub column : SqlType → Bool → Option String → Column
column type not_null default = record { type = type; not_null = not_null; default = default }

abbrev pub constraint : ConstraintKind → List String → Constraint
constraint kind columns = record { kind = kind; columns = columns }

abbrev pub index_on : String → List String → Index
index_on table columns = record {
  table = table;
  columns = columns;
  unique = false;
  condition = none;
}

-- the columns of `BaseEntity`, and the others
abbrev pub base_columns : List (String × Column) → List (String × Column)
base_columns rest =
    ("id", column uuid true (some "uuid_generate_v4()"))
    ∷ ("created_at", column timestamptz true (some "now()"))
    ∷ ("updated_at", column timestamptz true (some "now()"))
    ∷ ("deleted_at", column timestamptz false none)
    ∷ rest
