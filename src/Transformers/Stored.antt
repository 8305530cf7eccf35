-- ===== src/Transformers/Stored.antt =====
-- What comes back from a column with a transformer.
use nft_tracker.Prelude.{ℕ, suc, ◌+◌, ◌≡◌, Text, false, ◌&&◌, leb, All}
use nft_tracker.Transformers.{Value, Values, string, array, other, end, item}

-- an array, if it is one, of strings alone
abbrev pub AreStrings : Values → Type 0
AreStrings end = Unit
AreStrings (item (string s) rest) = AreStrings rest
AreStrings (item (array vs) rest) = ⊥
AreStrings (item (other n) rest) = ⊥

abbrev pub IsFlat : Value → Type 0
IsFlat (array vs) = AreStrings vs
IsFlat (string s) = Unit
IsFlat (other n) = Unit

mutual
  size : Value → ℕ
  size (string s) = 1
  size (array vs) = suc (sizes vs)
  size (other n) = 1

  sizes : Values → ℕ
  sizes end = 0
  sizes (item v rest) = size v + sizes rest

-- no letter in upper case
abbrev pub InLowerCase : Text → Type 0
InLowerCase = All (λ c. (leb b'A' c && leb c b'Z') ≡ false)

abbrev pub AreInLowerCase : Values → Type 0
AreInLowerCase end = Unit
AreInLowerCase (item (string s) rest) = InLowerCase s × AreInLowerCase rest
AreInLowerCase (item (array vs) rest) = AreInLowerCase rest
AreInLowerCase (item (other n) rest) = AreInLowerCase rest

abbrev pub IsInLowerCase : Value → Type 0
IsInLowerCase (array vs) = AreInLowerCase vs
IsInLowerCase (string s) = InLowerCase s
IsInLowerCase (other n) = Unit
