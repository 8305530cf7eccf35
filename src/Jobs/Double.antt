-- ===== src/Jobs/Double.antt =====
-- JavaScript numbers that are not negative and not fractional: 53 bits of precision, rounded to
-- nearest, ties to even (`Number(tokenId)` and `+` in tokens-jobs-verify-mint.service.ts).
use nft_tracker.Prelude.{
  ℕ, zero, suc, ◌+◌, ◌*◌, ◌/◌, ◌%◌, ◌^◌, ◌<◌, ◌≡◌, true, refl, ltb, ◌==◌, ◌&&◌, ◌||◌, if◌then◌else◌,
  arith,
}

abbrev pub max_exact : ℕ
max_exact = 9007199254740992

-- how many bits beyond 53 a number has
excess : ℕ → ℕ → ℕ
excess zero n = 0
excess (suc fuel) n = let rest = excess fuel (n / 2) in if ltb n max_exact then 0 else suc rest

abbrev round_up : ℕ → ℕ → ℕ → ℕ
round_up quotient remainder half =
    if ltb half remainder || remainder == half && quotient % 2 == 1 then quotient + 1 else quotient

abbrev round_at : ℕ → ℕ → ℕ
round_at n zero = n
round_at n (suc e) = round_up (n / 2 ^ suc e) (n % 2 ^ suc e) (2 ^ e) * 2 ^ suc e

unfoldable pub to_double : ℕ → ℕ
unfolding excess
to_double n = round_at n (excess n n)

-- `a + b` on doubles
unfoldable pub add_double : ℕ → ℕ → ℕ
unfolding to_double
add_double a b = to_double (a + b)

excess-zero : (fuel n : ℕ) → ltb n max_exact ≡ true → excess fuel n ≡ 0
unfolding excess
excess-zero zero n h = refl
excess-zero (suc fuel) n h = rw h

-- A number below 2 ^ 53 is represented exactly.
pub to_double_exact : (n : ℕ) → n < max_exact → to_double n ≡ n
unfolding to_double
to_double_exact n h = rw (excess-zero n n (ground arith))

pub add_double_exact : (a b : ℕ) → a + b < max_exact → add_double a b ≡ a + b
unfolding add_double
add_double_exact a b h = to_double_exact (a + b) h
