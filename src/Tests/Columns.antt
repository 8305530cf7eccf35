-- ===== src/Tests/Columns.antt =====
-- The theorem on the transformers, applied, and an array that is not one of strings alone.
use nft_tracker.Prelude.{◌≡◌, refl, text}
use nft_tracker.Transformers
use nft_tracker.Transformers.{Value, string, array, other, end, item, lowercase}
use nft_tracker.Transformers.Stored

abbrev mixed : Value
mixed = array (item (string (text "A")) (item (other 1) end))

-- the number has become the array
mixed_stored : lowercase.to mixed ≡ array (item (string (text "a")) (item mixed end))
unfolding Transformers.transform_to_lowercase
mixed_stored = refl
