-- ===== src/Settings/Words.antt =====
-- Lists of settings: what is written between commas is read back, without the spaces around it.
use nft_tracker.Prelude.{
  ℕ, ◌≡◌, refl, ap, ◌∙◌, Text, some, true, false, List, [], ◌∷◌, ◌++◌, ◌==◌, ◌&&◌, map, is_empty,
  is_space, trim, trim_start, trim_end, All, All-of, All-append, Lacks, join, split_on-join, ==_iff,
  Bool-cases, inl, inr, if◌then◌else◌,
}
use nft_tracker.Settings.{split_clear}

abbrev pub AreSpaces : Text → Type 0
AreSpaces = All (λ c. is_space c ≡ true)

-- A word has no space at its ends.
abbrev pub IsTrimmed : Text → Type 0
IsTrimmed [] = Unit
IsTrimmed (c ∷ w) = (is_space c ≡ false) × (trim_end (c ∷ w) ≡ c ∷ w)

-- A word as it may stand in the list: with spaces before and after it.
pub record Spelled : Type 0 where
  pub before : Text
  pub word : Text
  pub after : Text
  pub spaces_before : AreSpaces before
  pub spaces_after : AreSpaces after
  pub trimmed : IsTrimmed word
  pub no_comma : Lacks b',' word

abbrev pub spelling : Spelled → Text
spelling p = p.before ++ (p.word ++ p.after)

trim_start-spaces : (p s : Text) → AreSpaces p → trim_start (p ++ s) ≡ trim_start s
trim_start-spaces [] s h = refl
trim_start-spaces (c ∷ p) s (e, h) = rw e (trim_start-spaces p s h)

trim_start_all : (p : Text) → AreSpaces p → trim_start p ≡ []
trim_start_all [] h = refl
trim_start_all (c ∷ p) (e, h) = rw e (trim_start_all p h)

trim_end_all : (q : Text) → AreSpaces q → trim_end q ≡ []
trim_end_all [] h = refl
trim_end_all (c ∷ q) (e, h) = rw (e, trim_end_all q h) refl

trim_end-spaces : (s q : Text) → AreSpaces q → trim_end (s ++ q) ≡ trim_end s
trim_end-spaces [] q h = trim_end_all q h
trim_end-spaces (c ∷ s) q h =
    ap (λ rest. if is_space c && is_empty rest then [] else c ∷ rest) (trim_end-spaces s q h)

trim-word : (w q : Text) → IsTrimmed w → AreSpaces q → trim_end (trim_start (w ++ q)) ≡ w
trim-word [] q t h = ap trim_end (trim_start_all q h)
trim-word (c ∷ w) q (first, last) h = rw first (trim_end-spaces (c ∷ w) q h ∙ last)

trim-spelling : (p : Spelled) → trim (spelling p) ≡ p.word
unfolding trim
trim-spelling p =
    ap trim_end (trim_start-spaces p.before (p.word ++ p.after) p.spaces_before)
    ∙ trim-word p.word p.after p.trimmed p.spaces_after

space_no_comma : (c : ℕ) → is_space c ≡ true → (c == b',') ≡ false
space_no_comma c h = elim (Bool-cases (c == b',')) [
  | inl e ↦ cc (h, ap is_space ((==_iff c b',').0 e))
  | inr e ↦ e
]

Lacks-spaces : (s : Text) → AreSpaces s → Lacks b',' s
Lacks-spaces s h = All-of s space_no_comma h

Lacks-spelling : (ps : List Spelled) → All (Lacks b',') (map spelling ps)
Lacks-spelling [] = tt
Lacks-spelling (p ∷ ps) = (
  All-append _ p.before _ (Lacks-spaces p.before p.spaces_before)
      (All-append _ p.word _ p.no_comma (Lacks-spaces p.after p.spaces_after)),
  Lacks-spelling ps,
)

map-trim : (ps : List Spelled) → map trim (map spelling ps) ≡ map (λ p. p.word) ps
map-trim [] = refl
map-trim (p ∷ ps) = cc (trim-spelling p, map-trim ps)

-- A list of one word or more, with commas between them and any spaces around each, is read as its
-- words, where none of these holds a comma or has a space at its ends.
pub split_clear-join :
    (p : Spelled) (ps : List Spelled)
    → split_clear (some (join b',' (map spelling (p ∷ ps)))) ≡ p.word ∷ map (λ q. q.word) ps
unfolding split_clear
split_clear-join p ps =
    ap (map trim) (split_on-join b',' (spelling p) (map spelling ps) (Lacks-spelling (p ∷ ps)))
    ∙ map-trim (p ∷ ps)
