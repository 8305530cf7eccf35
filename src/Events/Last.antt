-- ===== src/Events/Last.antt =====
-- `saveLastBlockNumberSync`: the last block of each chain.
use nft_tracker.Prelude.{
  ℕ, ◌≤◌, ◌≡◌, refl, ap, ◌∙◌, ◌⊎◌, Option, none, some, true, false, List, [], ◌∷◌, ◌==◌, find_one,
  or_else, upsert_row, ==_iff, Bool-cases, inl, inr, arith,
}
use nft_tracker.Events.{
  LastBlock, Events, get_latest_block_number_sync, save_last_block_number_sync, block_of,
  set_last_block, is_greater,
}

found-upsert_row :
    (chain_id n : ℕ) (es : List LastBlock)
    → find_one
        (λ e. e.chain_id == chain_id)
        (upsert_row
          (λ e. e.chain_id == chain_id)
          (λ e. record e { block_number = n })
          (record { chain_id = chain_id; block_number = n })
          es)
      ≡ some (record { chain_id = chain_id; block_number = n })
found-upsert_row chain_id n [] = ground (arith, ==_iff chain_id chain_id)
found-upsert_row chain_id n (e ∷ es) = elim (Bool-cases (e.chain_id == chain_id)) [
  | inl t ↦ rw t (
      rw t (
        ap (λ c. some (record { chain_id = c; block_number = n }))
          ((==_iff e.chain_id chain_id).0 t)))
  | inr t ↦ rw t (rw t (found-upsert_row chain_id n es))
]

above : (o : Option ℕ) (n : ℕ) → is_greater o n ≡ true → or_else o 0 ≤ n
above none n h = omega arith
above (some m) n h = ground arith

below : (o : Option ℕ) (n : ℕ) → is_greater o n ≡ false → n ≤ or_else o 0
below none n h = cc
below (some m) n h = ground arith

saved :
    (chain_id n : ℕ) (s : Events)
    → or_else (get_latest_block_number_sync chain_id (set_last_block chain_id n s)) 0 ≡ n
unfolding get_latest_block_number_sync
saved chain_id n s =
    let entry : LastBlock = record { chain_id = chain_id; block_number = n } in
    let value : or_else (block_of (some entry)) 0 ≡ n = ground arith in
    ap (λ o. or_else (block_of o) 0) (found-upsert_row chain_id n s.last_blocks) ∙ value

other-upsert_row :
    (c d n : ℕ) (es : List LastBlock)
    → (c == d) ≡ false
    → find_one
        (λ e. e.chain_id == d)
        (upsert_row
          (λ e. e.chain_id == c)
          (λ e. record e { block_number = n })
          (record { chain_id = c; block_number = n })
          es)
      ≡ find_one (λ e. e.chain_id == d) es
other-upsert_row c d n [] h = rw h refl
other-upsert_row c d n (e ∷ es) h = elim (Bool-cases (e.chain_id == c)) [
  | inl t ↦
      let differs : (e.chain_id == d) ≡ false = ap (λ k. k == d) ((==_iff e.chain_id c).0 t) ∙ h in
      rw t (rw differs refl)
  | inr t ↦ rw t (elim (Bool-cases (e.chain_id == d)) [
    | inl u ↦ rw u refl
    | inr u ↦ rw u (other-upsert_row c d n es h)
  ])
]

-- the last block of a chain, 0 where there is none
abbrev pub last_block : ℕ → Events → ℕ
last_block chain_id s = or_else (get_latest_block_number_sync chain_id s) 0

-- The last block of the chain is the greater of the one before and a block that was read; those of
-- the other chains are what they were, and nothing was queued.
pub record Noted (chain_id n : ℕ) (s t : Events) : Type 0 where
  pub keeps : last_block chain_id s ≤ last_block chain_id t
  pub reaches : n ≤ last_block chain_id t
  pub one_of : (last_block chain_id t ≡ last_block chain_id s) ⊎ (last_block chain_id t ≡ n)
  pub others :
      (d : ℕ)
      → (chain_id == d) ≡ false
      → get_latest_block_number_sync d t ≡ get_latest_block_number_sync d s
  pub queue : t.queue ≡ s.queue

others-set_last_block :
    (c n : ℕ) (s : Events) (d : ℕ)
    → (c == d) ≡ false
    → get_latest_block_number_sync d (set_last_block c n s) ≡ get_latest_block_number_sync d s
unfolding get_latest_block_number_sync
others-set_last_block c n s d h = ap block_of (other-upsert_row c d n s.last_blocks h)

pub save_last_block_number_sync-Noted :
    (chain_id n : ℕ) (s : Events) → Noted chain_id n s (save_last_block_number_sync chain_id n s)
unfolding save_last_block_number_sync
save_last_block_number_sync-Noted c n s =
    let last = get_latest_block_number_sync c s in
    elim (Bool-cases (is_greater last n)) [
      | inl e ↦ rw e (
          let now = saved c n s in
          record {
            keeps = rw now (above last n e);
            reaches = rw now (omega arith);
            one_of = inr now;
            others = others-set_last_block c n s;
            queue = refl;
          })
      | inr e ↦ rw e (record {
        keeps = omega arith;
        reaches = below last n e;
        one_of = inl refl;
        others = λ d h. refl;
        queue = refl;
      })
    ]
