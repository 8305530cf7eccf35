-- ===== src/Configuration/Files.antt =====
-- The texts that the service writes during development: the types of the entries of the
-- configuration, and the migration that makes an entry. The package json-schema-to-typescript is a
-- parameter.
use nft_tracker.Prelude.{Text, text, List, [], ◌∷◌, ◌++◌, map, is_empty, if◌then◌else◌}
use nft_tracker.Store.Entities.{Json}
use nft_tracker.Store.World.{internal_error}
use nft_tracker.Store.Exec.{Result, ok, err}

module _ {A B : Type 0} where
  abbrev pub and_then : Result A → (A → Result B) → Result B
  and_then (ok a) f = f a
  and_then (err e) f = err e

-- `join` with a text between
unfoldable pub join_with : Text → List Text → Text
join_with between [] = []
join_with between (t ∷ []) = t
join_with between (t ∷ u ∷ ts) = t ++ between ++ join_with between (u ∷ ts)

abbrev pub line_end : Text
line_end = b'\n' ∷ []

abbrev pub quoted : Text → Text
quoted name = b'\'' ∷ (name ++ b'\'' ∷ [])

-- the key and the schema of an entry
abbrev pub Typed : Type 0
Typed = Text × Json

unfoldable pub names_of : List Typed → List Text
names_of [] = []
names_of ((key, schema) ∷ confs) = key ∷ names_of confs

abbrev pub export_schemas : List Text → Text
export_schemas names = text "export type ConfigSchema = " ++ join_with (text " | ") names

abbrev pub export_keys : List Text → Text
export_keys names = text "export type ConfigKeys = " ++ join_with (text " | ") (map quoted names)

abbrev pub export_storage : List Text → Text
export_storage names =
    text "export interface ConfigStorage {"
    ++ line_end
    ++ join_with line_end (map (λ name. name ++ b':' ∷ (name ++ b';' ∷ [])) names)
    ++ text " }"
    ++ line_end

abbrev pub content_of : List Text → List Text → Text
content_of types names = join_with (b'\n' ∷ b'\n' ∷ []) (
    line_end
    ∷ join_with [] types
    ∷ export_schemas names
    ∷ export_keys names
    ∷ export_storage names
    ∷ [])

module _ (compile : Json → Text → Result Text) where
  -- the loop over the entries in memory
  unfoldable pub compile_all : List Typed → Result (List Text)
  compile_all [] = ok []
  compile_all ((key, schema) ∷ confs) =
      and_then (compile schema key) λ ts. and_then (compile_all confs) λ types. ok (ts ∷ types)

  unfoldable pub types_of : List Typed → Result Text
  unfolding compile_all names_of join_with
  types_of confs = and_then (compile_all confs) λ types.
      if is_empty types
      then err (internal_error (text "No types to generate"))
      else ok (content_of types (names_of confs))

-- `getMigrationTemplate`, a line at a time
unfoldable pub get_migration_template : Text → Text → Text → Text → Text
unfolding join_with
get_migration_template id name sql params = join_with line_end (
    []
    ∷ text "    import { MigrationInterface, QueryRunner } from 'typeorm';"
    ∷ []
    ∷ (text "    export class " ++ name ++ text " implements MigrationInterface {")
    ∷ (text "      name = " ++ quoted name ++ text ";")
    ∷ []
    ∷ text "      public async up(queryRunner: QueryRunner): Promise<void> {"
    ∷ (text "        await queryRunner.query(`" ++ sql ++ text "`, " ++ params ++ text ");")
    ∷ text "      }"
    ∷ []
    ∷ text "      public async down(queryRunner: QueryRunner): Promise<void> {"
    ∷ (text "        await queryRunner.query(`DELETE from \"configurations\" WHERE id = "
        ++ quoted id
        ++ text ";`);")
    ∷ text "      }"
    ∷ text "    }"
    ∷ []
    ∷ text "    "
    ∷ [])
