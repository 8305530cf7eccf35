-- ===== src/Transformers.antt =====
-- modules/database/database.helpers.ts: the transformers of the columns, which TypeORM applies to a
-- value on its way to the database (`to`) and back (`from`). `constantCase` of the package
-- change-case is a parameter.
pub mod Stored
use nft_tracker.Prelude.{ℕ, ◌-◌, Text, Bool, if◌then◌else◌, leb, ◌&&◌, map, to_lower}

mutual
  pub data Value : Type 0 where
    string : Text → Value
    array : Values → Value
    -- null, a number, an object: told apart by a number
    other : ℕ → Value

  pub data Values : Type 0 where
    end : Values
    item : Value → Values → Values

-- `databaseValue.map`: what is no string becomes the whole array
abbrev pub each : (Text → Text) → Value → Values → Values
each convert database_value end = end
each convert database_value (item (string s) rest) =
    item (string (convert s)) (each convert database_value rest)
each convert database_value (item (array vs) rest) =
    item database_value (each convert database_value rest)
each convert database_value (item (other n) rest) =
    item database_value (each convert database_value rest)

-- the three functions of the source differ in what they make of a string
unfoldable pub transform : (Text → Text) → Value → Value
transform convert (array vs) = array (each convert (array vs) vs)
transform convert (string s) = string (convert s)
transform convert (other n) = other n

-- `toUpperCase` on the ASCII letters; other letters stay as they are here
abbrev pub upper : ℕ → ℕ
upper c = if leb 97 c && leb c 122 then c - 32 else c

abbrev pub to_upper : Text → Text
to_upper = map upper

unfoldable pub transform_to_lowercase : Value → Value
unfolding transform
transform_to_lowercase = transform to_lower

unfoldable pub transform_to_uppercase : Value → Value
unfolding transform
transform_to_uppercase = transform to_upper

unfoldable pub transform_to_constant_case : (Text → Text) → Value → Value
unfolding transform
transform_to_constant_case constant_case = transform constant_case

pub record ValueTransformer : Type 0 where
  pub to : Value → Value
  pub from : Value → Value

abbrev pub lowercase : ValueTransformer
lowercase = record { to = transform_to_lowercase; from = transform_to_lowercase }

abbrev pub uppercase : ValueTransformer
uppercase = record { to = transform_to_uppercase; from = transform_to_uppercase }

abbrev pub constant_case_transformer : (Text → Text) → ValueTransformer
constant_case_transformer constant_case = record {
  to = transform_to_constant_case constant_case;
  from = transform_to_constant_case constant_case;
}
