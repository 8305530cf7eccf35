-- ===== src/Uri/Hex.antt =====
-- `BigInt(tokenId).toString(16).padStart(64, '0')` of ERC721.provider.ts.
use native.Mathlib.Nat.{pow-succ'}
use nft_tracker.Prelude.{
  ℕ, zero, suc, ◌+◌, ◌-◌, ◌*◌, ◌/◌, ◌%◌, ◌^◌, ◌≤◌, ◌<◌, Text, ◌≡◌, refl, ap, ◌∙◌, [], ◌∷◌, ltb,
  ltb→lt, length, if◌then◌else◌, Bool-cases, inl, inr, arith,
}

abbrev pub digit : ℕ → ℕ
digit d = if ltb d 10 then b'0' + d else b'a' + (d - 10)

-- the digits of `n` before those of `acc`; `n` rounds are more than enough
hex_from : ℕ → ℕ → Text → Text
hex_from zero n acc = digit (n % 16) ∷ acc
hex_from (suc fuel) n acc =
    let more = hex_from fuel (n / 16) (digit (n % 16) ∷ acc) in
    if ltb n 16 then digit (n % 16) ∷ acc else more

unfoldable pub to_hex : ℕ → Text
unfolding hex_from
to_hex n = hex_from n n []

fill : ℕ → ℕ → Text → Text
fill zero c s = s
fill (suc k) c s = c ∷ fill k c s

unfoldable pub pad_start : ℕ → ℕ → Text → Text
unfolding fill
pad_start width c s = fill (width - length s) c s

-- The number that a hexadecimal text stands for, read from the left.
abbrev pub value_of_digit : ℕ → ℕ
value_of_digit c = if ltb c b'a' then c - b'0' else c - b'a' + 10

unfoldable pub from_hex : ℕ → Text → ℕ
from_hex n [] = n
from_hex n (c ∷ s) = from_hex (n * 16 + value_of_digit c) s

value_of_digit-digit : (d : ℕ) → d < 16 → value_of_digit (digit d) ≡ d
value_of_digit-digit d h = ground arith

digit_step : (n : ℕ) (acc : Text) → from_hex (n / 16) (digit (n % 16) ∷ acc) ≡ from_hex n acc
unfolding from_hex
digit_step n acc =
    let e : n / 16 * 16 + value_of_digit (digit (n % 16)) ≡ n =
      omega (arith, value_of_digit-digit (n % 16)) in
    ap (λ k. from_hex k acc) e

digit_last : (n : ℕ) (acc : Text) → n < 16 → from_hex 0 (digit (n % 16) ∷ acc) ≡ from_hex n acc
unfolding from_hex
digit_last n acc h =
    let e : 0 * 16 + value_of_digit (digit (n % 16)) ≡ n =
      omega (arith, value_of_digit-digit (n % 16)) in
    ap (λ k. from_hex k acc) e

from_hex-hex_from :
    (fuel n : ℕ) (acc : Text) → n ≤ fuel → from_hex 0 (hex_from fuel n acc) ≡ from_hex n acc
unfolding hex_from
from_hex-hex_from zero n acc h = digit_last n acc (omega arith)
from_hex-hex_from (suc fuel) n acc h = elim (Bool-cases (ltb n 16)) [
  | inl small ↦ rw small (digit_last n acc (ltb→lt n 16 small))
  | inr big ↦
      rw big
        (from_hex-hex_from fuel (n / 16) (digit (n % 16) ∷ acc) (ground arith) ∙ digit_step n acc)
]

from_hex-fill : (k : ℕ) (s : Text) → from_hex 0 (fill k b'0' s) ≡ from_hex 0 s
unfolding fill from_hex
from_hex-fill zero s = refl
from_hex-fill (suc k) s = from_hex-fill k s

-- The digits that stand for `{id}` in a token's address stand for its number.
pub from_hex-pad_start : (width n : ℕ) → from_hex 0 (pad_start width b'0' (to_hex n)) ≡ n
unfolding pad_start to_hex from_hex
from_hex-pad_start width n =
    from_hex-fill (width - length (to_hex n)) (to_hex n) ∙ from_hex-hex_from n n [] (omega arith)

length-fill : (k c : ℕ) (s : Text) → length (fill k c s) ≡ k + length s
unfolding fill
length-fill zero c s = omega arith
length-fill (suc k) c s = omega (arith, length-fill k c s)

div_below : (n p : ℕ) → n < 16 * p → n / 16 < p
div_below n p h = omega arith

length-hex_from :
    (k fuel n : ℕ) (acc : Text)
    → n < 16 ^ suc k
    → n ≤ fuel
    → length (hex_from fuel n acc) ≤ suc k + length acc
unfolding hex_from
length-hex_from k zero n acc h f = omega arith
length-hex_from zero (suc fuel) n acc h f = ground arith
length-hex_from (suc k) (suc fuel) n acc h f =
    let less : n / 16 < 16 ^ suc k = div_below n (16 ^ suc k) (rw (← pow-succ' 16 (suc k)) h) in
    ground (arith, length-hex_from k fuel (n / 16) (digit (n % 16) ∷ acc) less)

-- A token id of 256 bits takes exactly 64 digits.
pub length-pad_start : (n : ℕ) → n < 16 ^ 64 → length (pad_start 64 b'0' (to_hex n)) ≡ 64
unfolding pad_start to_hex
length-pad_start n h = omega (
  arith,
  length-fill (64 - length (to_hex n)) b'0' (to_hex n),
  length-hex_from 63 n n [] h (omega arith),
)
