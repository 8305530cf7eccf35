-- ===== src/Iterator.antt =====
-- common/helpers/iterator.helper.ts. The pages that the package nestjs-typeorm-paginate answers with
-- are a parameter. The loop runs on fuel, one for each row.
use nft_tracker.Prelude.{
  ℕ, zero, suc, ◌+◌, ◌*◌, ◌≡◌, ◌≤◌, ◌<◌, refl, sym, ap, ◌∙◌, Bool, true, false, List, [], ◌∷◌, ◌++◌,
  ◌&&◌, leb, take, length, is_empty, length-append, if◌then◌else◌, arith,
}

pub record Page (A : Type 0) : Type 0 where
  pub items : List A
  pub current_page : ℕ
  pub total_pages : ℕ

abbrev pub drop : {A : Type 0} → ℕ → List A → List A
drop zero xs = xs
drop (suc n) [] = []
drop (suc n) (x ∷ xs) = drop n xs

suc_add : (m n : ℕ) → suc (m + n) ≡ suc m + n
suc_add m n = omega arith

module _ {A : Type 0} where
  -- `result.meta` is that of the first page throughout
  abbrev pub reads_on : Page A → List A → Bool
  reads_on first items = is_empty items && leb first.current_page first.total_pages

  unfoldable pub iterate : (ℕ → Page A) → Page A → ℕ → ℕ → List A → List A
  iterate paginate first zero page items = []
  iterate paginate first (suc fuel) page [] = []
  iterate paginate first (suc fuel) page (x ∷ items) =
      x
      ∷ iterate paginate first fuel (if reads_on first items then suc page else page)
          (if reads_on first items then (paginate (suc page)).items else items)

  -- what the generator yields
  unfoldable pub async_paginate_raw_and_entities : (ℕ → Page A) → ℕ → List A
  unfolding iterate
  async_paginate_raw_and_entities paginate fuel =
      iterate paginate (paginate 1) fuel 1 (paginate 1).items

  take-drop : (n : ℕ) (xs : List A) → take n xs ++ drop n xs ≡ xs
  take-drop zero xs = refl
  take-drop (suc n) [] = refl
  take-drop (suc n) (x ∷ xs) = ap (λ ys. x ∷ ys) (take-drop n xs)

  drop-nil : (n : ℕ) → ◌≡◌ {A = List A} (drop n []) []
  drop-nil zero = refl
  drop-nil (suc n) = refl

  drop-drop : (m n : ℕ) (xs : List A) → drop n (drop m xs) ≡ drop (m + n) xs
  drop-drop zero n xs = ap (λ k. drop k xs) (omega arith)
  drop-drop (suc m) n [] = drop-nil n ∙ sym (drop-nil (suc m + n))
  drop-drop (suc m) n (x ∷ xs) = drop-drop m n xs ∙ ap (λ k. drop k (x ∷ xs)) (suc_add m n)

  pub drop-length : (n : ℕ) (xs : List A) → length xs ≤ n → drop n xs ≡ []
  drop-length zero [] h = refl
  drop-length zero (x ∷ xs) h = absurd (omega (arith, h))
  drop-length (suc n) [] h = refl
  drop-length (suc n) (x ∷ xs) h = drop-length n xs (omega (arith, h))

  -- a page without items is past the end
  take-empty : (n : ℕ) (xs : List A) → 0 < n → take n xs ≡ [] → xs ≡ []
  take-empty zero xs h e = absurd (omega (arith, h))
  take-empty (suc n) [] h e = refl
  take-empty (suc n) (x ∷ xs) h e = cc

  length-take-drop : (n : ℕ) (xs : List A) → length (take n xs) + length (drop n xs) ≡ length xs
  length-take-drop n xs = sym (length-append (take n xs) (drop n xs)) ∙ ap length (take-drop n xs)

  nil_of : (xs : List A) → is_empty xs ≡ true → xs ≡ []
  nil_of [] e = refl
  nil_of (x ∷ xs) e = cc

  not_nil : (xs : List A) → is_empty xs ≡ false → 0 < length xs
  not_nil [] e = cc
  not_nil (x ∷ xs) e = omega arith

  append-nil : (xs ys : List A) → xs ++ ys ≡ [] → xs ≡ []
  append-nil [] ys e = refl
  append-nil (x ∷ xs) ys e = cc

  iterate-nil :
      (paginate : ℕ → Page A) (fuel page : ℕ) → iterate paginate (paginate 1) fuel page [] ≡ []
  unfolding iterate
  iterate-nil paginate zero page = refl
  iterate-nil paginate (suc fuel) page = refl

-- What the pages promise: they are the rows, in turn and `limit` at a time, and there are enough
-- of them.
pub record IsPaged {A : Type 0} (paginate : ℕ → Page A) (limit : ℕ) (rows : List A) : Type 0 where
  pub items : (page : ℕ) → (paginate (suc page)).items ≡ take limit (drop (page * limit) rows)
  pub current_page : (page : ℕ) → (paginate page).current_page ≡ page
  pub total_pages : (page : ℕ) → length rows ≤ (paginate page).total_pages * limit

pub no_offset : (limit : ℕ) → 0 * limit ≡ 0
no_offset limit = omega arith

next_offset : (page limit : ℕ) → page * limit + limit ≡ suc page * limit
next_offset page limit = omega arith

some_page : (n total limit : ℕ) → 0 < n → n ≤ total * limit → leb 1 total ≡ true
some_page n zero limit h e = absurd (omega (arith, h, e))
some_page n (suc total) limit h e = ground arith

module _ {A : Type 0} (paginate : ℕ → Page A) (limit : ℕ) (rows : List A)
    (paged : IsPaged paginate limit rows) (positive : 0 < limit) where
  -- the rows behind the pages up to one
  abbrev left : ℕ → List A
  left page = drop (page * limit) rows

  left-suc : (page : ℕ) → left (suc page) ≡ drop limit (left page)
  left-suc page =
      ap (λ k. drop k rows) (sym (next_offset page limit))
      ∙ sym (drop-drop (page * limit) limit rows)

  pub next_page : (page : ℕ) → (paginate (suc page)).items ++ left (suc page) ≡ left page
  next_page page = rw (paged.items page, left-suc page) (take-drop limit (left page))

  last_page : (page : ℕ) → (paginate (suc page)).items ≡ [] → left (suc page) ≡ []
  last_page page e =
      left-suc page
      ∙ ap (drop limit) (take-empty limit (left page) positive (sym (paged.items page) ∙ e))
      ∙ drop-nil limit

  iterate-append :
      (fuel page : ℕ) (items : List A)
      → (items ≡ [] → left page ≡ [])
      → leb (paginate 1).current_page (paginate 1).total_pages ≡ true
      → length items + length (left page) ≤ fuel
      → iterate paginate (paginate 1) fuel page items ≡ items ++ left page
  unfolding iterate
  iterate-append zero page [] ends more enough = sym (ends refl)
  iterate-append (suc fuel) page [] ends more enough = sym (ends refl)
  iterate-append zero page (x ∷ items) ends more enough = absurd (omega (arith, enough))
  iterate-append (suc fuel) page (x ∷ []) ends more enough = rw more (
      ap (λ ys. x ∷ ys)
        (iterate-append fuel (suc page) (paginate (suc page)).items (last_page page) more (
            omega (
              arith,
              enough,
              ap length (next_page page),
              length-append (paginate (suc page)).items (left (suc page)),
            ))
          ∙ next_page page))
  iterate-append (suc fuel) page (x ∷ y ∷ items) ends more enough =
      ap (λ ys. x ∷ ys)
        (iterate-append fuel page (y ∷ items) (λ e. absurd (cc (e))) more (omega (arith, enough)))

  first_page : (paginate 1).items ++ left 1 ≡ rows
  first_page = next_page 0 ∙ ap (λ k. drop k rows) (no_offset limit)

  -- Each row is yielded once and in its place, from the first page to the last, and one step for
  -- each row is enough: the loop ends.
  pub async_paginate_raw_and_entities_complete :
      (fuel : ℕ) → length rows ≤ fuel → async_paginate_raw_and_entities paginate fuel ≡ rows
  unfolding async_paginate_raw_and_entities
  async_paginate_raw_and_entities_complete fuel enough = by_rows (is_empty rows) refl
    where
      by_rows :
          (b : Bool)
          → is_empty rows ≡ b
          → iterate paginate (paginate 1) fuel 1 (paginate 1).items ≡ rows
      by_rows true none_ =
          let none_left = nil_of rows none_ in
          ap (iterate paginate (paginate 1) fuel 1)
            (append-nil (paginate 1).items (left 1) (first_page ∙ none_left))
          ∙ iterate-nil paginate fuel 1
          ∙ sym none_left
      by_rows false some_ =
          iterate-append fuel 1 (paginate 1).items (last_page 0)
            (ap (λ c. leb c (paginate 1).total_pages) (paged.current_page 1)
              ∙ some_page (length rows) (paginate 1).total_pages limit (not_nil rows some_)
                  (paged.total_pages 1))
            (omega (arith, enough, ap length first_page, length-append (paginate 1).items (left 1)))
          ∙ first_page
