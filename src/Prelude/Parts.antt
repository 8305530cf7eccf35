-- ===== src/Prelude/Parts.antt =====
-- Texts in parts: `split`, `join`, `trim`, `includes`.
use Prim.Native.Nat.{ℕ}
use mathlib.Core.Path.{◌≡◌, refl, ap, ◌∙◌}
use mathlib.Core.Bool.{Bool, false, ◌&&◌, ◌||◌}
use mathlib.Core.List.{List, [], ◌∷◌, ◌++◌}
use native.Mathlib.Omega.{arith}
use nft_tracker.Prelude.Tests.{leb, ◌==◌, if◌then◌else◌, is_some}
use nft_tracker.Prelude.Lists.{All, is_empty, any}
use nft_tracker.Prelude.Texts.{Text, strip_prefix}

-- the white space and the ends of lines that `trim` takes off
abbrev pub is_space : ℕ → Bool
is_space c =
    (leb 9 c && leb c 13)
    || any (λ d. d == c)
        (32 ∷ 0xa0 ∷ 0x1680 ∷ 0x2028 ∷ 0x2029 ∷ 0x202f ∷ 0x205f ∷ 0x3000 ∷ 0xfeff ∷ [])
    || (leb 0x2000 c && leb c 0x200a)

abbrev pub trim_start : Text → Text
trim_start [] = []
trim_start (c ∷ s) = if is_space c then trim_start s else c ∷ s

abbrev pub trim_end : Text → Text
trim_end [] = []
trim_end (c ∷ s) = let rest = trim_end s in if is_space c && is_empty rest then [] else c ∷ rest

unfoldable pub trim : Text → Text
trim s = trim_end (trim_start s)

abbrev pub onto_first : ℕ → List Text → List Text
onto_first c [] = (c ∷ []) ∷ []
onto_first c (w ∷ ws) = (c ∷ w) ∷ ws

-- `split` at a single character
unfoldable pub split_on : ℕ → Text → List Text
split_on sep [] = [] ∷ []
split_on sep (c ∷ s) =
    let rest = split_on sep s in if c == sep then [] ∷ rest else onto_first c rest

unfoldable pub join : ℕ → List Text → Text
join sep [] = []
join sep (w ∷ []) = w
join sep (w ∷ v ∷ ws) = w ++ sep ∷ join sep (v ∷ ws)

abbrev pub Lacks : ℕ → Text → Type 0
Lacks sep = All (λ c. (c == sep) ≡ false)

split_on-append :
    (sep : ℕ) (w s : Text) → Lacks sep w → split_on sep (w ++ sep ∷ s) ≡ w ∷ split_on sep s
unfolding split_on
split_on-append sep [] s h = ground arith
split_on-append sep (c ∷ w) s (e, h) = rw (e, split_on-append sep w s h) refl

split_on-whole : (sep : ℕ) (w : Text) → Lacks sep w → split_on sep w ≡ w ∷ []
unfolding split_on
split_on-whole sep [] h = refl
split_on-whole sep (c ∷ w) (e, h) = rw (e, split_on-whole sep w h) refl

-- Words that hold no separator come back from their list.
pub split_on-join :
    (sep : ℕ) (w : Text) (ws : List Text)
    → All (Lacks sep) (w ∷ ws)
    → split_on sep (join sep (w ∷ ws)) ≡ w ∷ ws
unfolding join
split_on-join sep w [] (h, k) = split_on-whole sep w h
split_on-join sep w (v ∷ ws) (h, k) =
    split_on-append sep w (join sep (v ∷ ws)) h ∙ ap (w ∷◌) (split_on-join sep v ws k)

-- `includes`
abbrev pub includes : Text → Text → Bool
includes part [] = is_empty part
includes part (c ∷ s) = is_some (strip_prefix part (c ∷ s)) || includes part s

-- `split(part)[0]`
abbrev pub before_part : Text → Text → Text
before_part part [] = []
before_part part (c ∷ s) =
    let rest = before_part part s in if is_some (strip_prefix part (c ∷ s)) then [] else c ∷ rest
