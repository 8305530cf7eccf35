-- ===== src/Jobs/VerifyMint/Ids.antt =====
-- `getNextSequentialFromTokensIds`: the ids that are verified after those of a job.
use nft_tracker.Prelude.{
  ℕ, zero, suc, ◌+◌, ◌<◌, ◌≤◌, ◌≡◌, refl, sym, ap, ◌∙◌, List, [], ◌∷◌, ltb, All, if◌then◌else◌,
  arith,
}
use nft_tracker.Jobs.Double.{max_exact, to_double_exact, add_double, add_double_exact}
use nft_tracker.Jobs.VerifyMint.{max_double, count_up, get_next_sequential_from_tokens_ids}

abbrev pub consecutive : ℕ → ℕ → List ℕ
consecutive zero n = []
consecutive (suc k) n = n ∷ consecutive k (suc n)

abbrev pub maximum : ℕ → List ℕ → ℕ
maximum highest [] = highest
maximum highest (id ∷ ids) = maximum (if ltb highest id then id else highest) ids

maximum-above : (highest : ℕ) (ids : List ℕ) → highest ≤ maximum highest ids
maximum-above highest [] = omega arith
maximum-above highest (id ∷ ids) =
    ground (arith, maximum-above (if ltb highest id then id else highest) ids)

maximum-bounds : (highest : ℕ) (ids : List ℕ) → All (λ id. id ≤ maximum highest ids) ids
maximum-bounds highest [] = tt
maximum-bounds highest (id ∷ ids) =
    let higher = if ltb highest id then id else highest in
    (ground (arith, maximum-above higher ids), maximum-bounds higher ids)

max_double-maximum :
    (highest : ℕ) (ids : List ℕ)
    → maximum highest ids < max_exact
    → max_double highest ids ≡ maximum highest ids
max_double-maximum highest [] h = refl
max_double-maximum highest (id ∷ ids) h =
    let higher = if ltb highest id then id else highest in
    let exact = to_double_exact id (ground (arith, maximum-above higher ids)) in
    rw exact (max_double-maximum higher ids h)

next-exact :
    (highest index : ℕ)
    → highest + index + 1 < max_exact
    → add_double (add_double highest index) 1 ≡ highest + index + 1
next-exact highest index h =
    ap (λ n. add_double n 1) (add_double_exact highest index (omega arith))
    ∙ add_double_exact (highest + index) 1 h

count_up-consecutive :
    (k highest index start : ℕ)
    → start ≡ highest + index + 1
    → highest + index + k < max_exact
    → count_up k highest index ≡ consecutive k start
unfolding count_up
count_up-consecutive zero highest index start e h = refl
count_up-consecutive (suc k) highest index start e h =
    let head = next-exact highest index (omega arith) ∙ sym e in
    let tail = count_up-consecutive k highest (suc index) (suc start) (omega arith) (omega arith) in
    cc (head, tail)

-- While the ids stay below 2 ^ 53, the next ones are the numbers that follow the greatest of them,
-- in order and without a gap, as many as are asked for.
pub get_next_sequential_from_tokens_ids-consecutive :
    (id : ℕ) (ids : List ℕ) (number_of_items : ℕ)
    → maximum id ids + number_of_items < max_exact
    → get_next_sequential_from_tokens_ids (id ∷ ids) number_of_items
      ≡ consecutive number_of_items (suc (maximum id ids))
unfolding get_next_sequential_from_tokens_ids
get_next_sequential_from_tokens_ids-consecutive id ids number_of_items h =
    let first = to_double_exact id (omega (arith, maximum-above id ids)) in
    let greatest = max_double-maximum id ids (omega arith) in
    rw (first, greatest)
      (count_up-consecutive number_of_items (maximum id ids) 0 _ (omega arith) (omega arith))
