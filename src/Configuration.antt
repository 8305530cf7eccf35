-- ===== src/Configuration.antt =====
-- modules/configuration: the entries of the table `configurations`, and the copy of the active ones
-- that the service keeps in memory. What the index on `key` refuses is left out. The packages ajv,
-- genson-js, change-case and json-schema-to-typescript are parameters.
pub mod Changes
pub mod Files
pub mod Store
use nft_tracker.Prelude.{
  ℕ, Text, text, Option, none, some, Bool, true, false, not, List, [], ◌∷◌, ◌++◌, ◌==◌, ◌===◌, ◌&&◌,
  any, select, find_one, map, or_else, update_where, upsert_row, if◌then◌else◌,
}
use nft_tracker.Store.Entities.{Json, null, str, arr, obj, Fields, field}
use nft_tracker.Store.World.{Error, message, unprocessable, entity_not_found}
use nft_tracker.Store.Exec.{Result, ok, err}
use nft_tracker.Configuration.Files.{Typed, and_then, types_of, get_migration_template}
use nft_tracker.Action.{Action, pure, throw, lift, gets, modify, try_catch, ◌>>=◌, ◌>>◌}

pub record ConfigurationEntity : Type 0 where
  pub id : ℕ
  pub key : Text
  pub value : Json
  pub schema : Json
  pub active : Bool

pub record CreateConfigurationDto : Type 0 where
  pub key : Text
  pub value : Json
  pub schema : Option Json
  pub active : Bool

-- every column may be left out
pub record UpdateConfigurationDto : Type 0 where
  pub key : Option Text
  pub value : Option Json
  pub schema : Option Json
  pub active : Option Bool

pub record Configurations : Type 0 where
  pub table : List ConfigurationEntity
  pub store : List ConfigurationEntity
  pub loaded : Bool

pub record Tools : Type 0 where
  -- the transformer of the column `key`
  pub constant_case : Text → Text
  -- `ajv.compile(schema)` and what it says of a value; a schema may be refused
  pub is_valid : Json → Json → Result Bool
  pub errors : Json → Json → Text
  pub create_schema : Json → Json
  -- `compile` of json-schema-to-typescript, of a schema and a key
  pub compile : Json → Text → Result Text
  pub pascal_case : Text → Text
  -- `Date.now()` and an id as texts
  pub timestamp : Text
  pub print_id : ℕ → Text
  -- the statement that inserts an entry, and its parameters as JSON
  pub insert_query : ConfigurationEntity → Text × Text
  -- `fs.writeFileSync`, of a path and what is written
  pub write_file : Text → Text → Result (Unit {0})

-- `Object.keys(schema || {}).length > 0`
abbrev pub has_rules : Option Json → Bool
has_rules (some (obj (field key value more))) = true
has_rules (some (arr (ℕ.suc n))) = true
has_rules (some (str (c ∷ s))) = true
has_rules _ = false

abbrev pub has_key : Text → ConfigurationEntity → Bool
has_key key c = c.key === key

abbrev pub has_id : ℕ → ConfigurationEntity → Bool
has_id id c = c.id == id

-- `tempStore.set(conf.key, conf)`
unfoldable pub set : ConfigurationEntity → List ConfigurationEntity → List ConfigurationEntity
set conf store = upsert_row (has_key conf.key) (λ old. conf) conf store

abbrev value_of : Option ConfigurationEntity → Option Json
value_of none = none
value_of (some c) = some c.value

-- `store.get(key)?.value`
abbrev pub read : Text → List ConfigurationEntity → Option Json
read key store = value_of (find_one (has_key key) store)

module _ {A : Type 0} where
  abbrev pub after : Result (Unit {0}) → Result A → Result A
  after (ok _) r = r
  after (err e) r = err e

module _ (tools : Tools) where
  open tools use {constant_case}

  abbrev judged : Json → Json → Result Bool → Result (Unit {0})
  judged schema value (err e) = err e
  judged schema value (ok true) = ok tt
  judged schema value (ok false) = err (unprocessable (tools.errors schema value))

  unfoldable pub validate : Option Json → Json → Result (Unit {0})
  validate none schema = err (unprocessable (text "Value is undefined"))
  validate (some value) schema = judged schema value (tools.is_valid schema value)

  unfoldable pub resolve_schema : CreateConfigurationDto → Json
  resolve_schema dto =
      if has_rules dto.schema then or_else dto.schema null else tools.create_schema dto.value

  abbrev pub check : ConfigurationEntity → Result (Unit {0})
  check conf = if conf.active then validate (some conf.value) conf.schema else ok tt

  -- the loop of `load`
  unfoldable pub collect :
      List ConfigurationEntity → List ConfigurationEntity → Result (List ConfigurationEntity)
  collect [] store = ok store
  collect (conf ∷ confs) store =
      after (check conf) (collect confs (if conf.active then set conf store else store))

  abbrev typed : List ConfigurationEntity → List Typed
  typed = map (λ c. (c.key, c.schema))

  unfoldable pub generate_types : List ConfigurationEntity → Result (Unit {0})
  unfolding types_of
  generate_types store =
      and_then (types_of tools.compile (typed store))
        (tools.write_file (text "src/modules/configuration/interfaces/schema-generated.ts"))

  abbrev migration_name : ConfigurationEntity → Text
  migration_name c = tools.pascal_case c.key ++ text "Conf"

  unfoldable pub create_migration : ConfigurationEntity → Result (Unit {0})
  unfolding get_migration_template
  create_migration c =
      let (sql, params) = tools.insert_query c in
      tools.write_file
        (text "src/modules/database/migrations/"
          ++ tools.timestamp
          ++ text "-"
          ++ migration_name c
          ++ text ".ts")
        (get_migration_template (tools.print_id c.id) (migration_name c ++ tools.timestamp) sql
          params)

  unfoldable pub load : Action Configurations Unit
  load = do
    confs ← gets (λ s. s.table)
    store ← lift (collect confs [])
    modify (λ s. record s { store = store; loaded = true })

  unfoldable pub get : Text → Action Configurations (Option Json)
  get key = do
    loaded ← gets (λ s. s.loaded)
    if loaded then pure tt else load
    gets (λ s. read key s.store)

  abbrev pub new_row : ℕ → CreateConfigurationDto → ConfigurationEntity
  new_row id dto = record {
    id = id;
    key = constant_case dto.key;
    value = dto.value;
    schema = resolve_schema dto;
    active = dto.active;
  }

  unfoldable pub create_new :
      ℕ
      → CreateConfigurationDto
      → Option ConfigurationEntity
      → Action Configurations ConfigurationEntity
  create_new id dto (some found) = throw (unprocessable dto.key)
  create_new id dto none = do
    lift (validate (some dto.value) (resolve_schema dto))
    modify (λ s. record s { table = s.table ++ new_row id dto ∷ [] })
    load
    store ← gets (λ s. s.store)
    lift (generate_types store)
    lift (create_migration (new_row id dto))
    pure (new_row id dto)

  unfoldable pub create : ℕ → CreateConfigurationDto → Action Configurations ConfigurationEntity
  create id dto = do
    found ← gets (λ s. find_one (has_key (constant_case dto.key)) s.table)
    create_new id dto found

  abbrev key_or : Option Text → Text → Text
  key_or none old = old
  key_or (some key) old = constant_case key

  abbrev pub changed : UpdateConfigurationDto → Json → ConfigurationEntity → ConfigurationEntity
  changed dto schema c = record c {
    key = key_or dto.key c.key;
    value = or_else dto.value c.value;
    schema = schema;
    active = or_else dto.active c.active;
  }

  abbrev pub schema_for : UpdateConfigurationDto → ConfigurationEntity → Json
  schema_for dto c = if has_rules dto.schema then or_else dto.schema null else c.schema

  abbrev pub found_or_fail :
      ℕ → Option ConfigurationEntity → Action Configurations ConfigurationEntity
  found_or_fail id none = throw (entity_not_found (text "ConfigurationEntity"))
  found_or_fail id (some c) = pure c

  unfoldable pub update_found :
      ℕ
      → UpdateConfigurationDto
      → Option ConfigurationEntity
      → Action Configurations ConfigurationEntity
  update_found id dto none = throw (unprocessable (text "not found"))
  update_found id dto (some c) = do
    lift (validate dto.value (schema_for dto c))
    modify (λ s. record s {
      table = update_where (has_id id) (changed dto (schema_for dto c)) s.table;
    })
    try_catch load (λ e. pure tt)
    result ← gets (λ s. find_one (has_id id) s.table)
    found_or_fail id result

  unfoldable pub update : ℕ → UpdateConfigurationDto → Action Configurations ConfigurationEntity
  update id dto = do found ← gets (λ s. find_one (has_id id) s.table); update_found id dto found

  unfoldable pub find_all : Action Configurations (List ConfigurationEntity)
  find_all = gets (λ s. s.table)

  unfoldable pub find_all_actives : Action Configurations (List ConfigurationEntity)
  find_all_actives = gets (λ s. select (λ c. c.active) s.table)

  unfoldable pub find_one_by_id : ℕ → Action Configurations (Option ConfigurationEntity)
  find_one_by_id id = gets (λ s. find_one (has_id id) s.table)

  unfoldable pub find_one_or_fail : ℕ → Action Configurations ConfigurationEntity
  find_one_or_fail id = do c ← gets (λ s. find_one (has_id id) s.table); found_or_fail id c

  -- nothing is loaded afterwards
  unfoldable pub remove : ℕ → Action Configurations Bool
  remove id = do
    modify (λ s. record s { table = select (λ c. not (c.id == id)) s.table })
    pure true
