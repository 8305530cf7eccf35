-- ===== src/Events.antt =====
-- modules/blockchain/evm/evm-events.services.ts: the blocks that are put into the queue, and the
-- last block that was synchronised. The number of confirmations, which evm.service.ts answers
-- with, is an argument.
pub mod Cover
pub mod Last
use nft_tracker.Prelude.{
  ℕ, zero, suc, ◌+◌, ◌-◌, Option, none, some, Bool, true, false, List, [], ◌∷◌, ◌++◌, ◌==◌, ◌&&◌,
  leb, ltb, any, find_one, or_else, upsert_row, if◌then◌else◌,
}

pub data ℤ : Type 0 where
  pos negsuc : ℕ → ℤ

abbrev pub difference : ℕ → ℕ → ℤ
difference a b = if leb b a then pos (a - b) else negsuc (b - a - 1)

-- A job `SyncBlock`; the chain and the block that was mined make up its `jobId`.
pub record BlockJob : Type 0 where
  pub chain_id : ℕ
  pub mined : ℕ
  pub block_number : ℤ

-- An entry of the cache, under the key of its chain.
pub record LastBlock : Type 0 where
  pub chain_id : ℕ
  pub block_number : ℕ

pub record Events : Type 0 where
  pub last_blocks : List LastBlock
  pub queue : List BlockJob

abbrev block_of : Option LastBlock → Option ℕ
block_of none = none
block_of (some entry) = if entry.block_number == 0 then none else some entry.block_number

-- 0 is no answer either
unfoldable pub get_latest_block_number_sync : ℕ → Events → Option ℕ
get_latest_block_number_sync chain_id s =
    block_of (find_one (λ e. e.chain_id == chain_id) s.last_blocks)

abbrev is_greater : Option ℕ → ℕ → Bool
is_greater none n = true
is_greater (some last) n = ltb last n

abbrev set_last_block : ℕ → ℕ → Events → Events
set_last_block chain_id n s = record s {
  last_blocks =
      upsert_row (λ e. e.chain_id == chain_id) (λ e. record e { block_number = n })
        (record { chain_id = chain_id; block_number = n }) s.last_blocks;
}

unfoldable pub save_last_block_number_sync : ℕ → ℕ → Events → Events
save_last_block_number_sync chain_id n s =
    if is_greater (get_latest_block_number_sync chain_id s) n
    then set_last_block chain_id n s
    else s

abbrev pub is_block_queued : ℕ → ℕ → List BlockJob → Bool
is_block_queued chain_id n = any (λ j. j.chain_id == chain_id && j.mined == n)

-- a job whose `jobId` is in the queue is not added again
unfoldable pub enqueue_block_sync : ℕ → ℕ → ℕ → Events → Events
enqueue_block_sync chain_id n confirmations s = record s {
  queue =
      if is_block_queued chain_id n s.queue
      then s.queue
      else s.queue
        ++ record { chain_id = chain_id; mined = n; block_number = difference n confirmations }
          ∷ [];
}

ascending : ℕ → ℕ → List ℕ
ascending zero n = []
ascending (suc k) n = n ∷ ascending k (suc n)

descending : ℕ → ℕ → List ℕ
descending zero n = []
descending (suc k) n = n ∷ descending k (n - 1)

-- `range` of the package lodash: the end is left out, and it counts down to a smaller end
unfoldable pub range : ℕ → ℕ → List ℕ
unfolding ascending descending
range from to = if leb from to then ascending (to - from) from else descending (from - to) from

enqueue_blocks : ℕ → ℕ → List ℕ → Events → Events
enqueue_blocks chain_id confirmations [] s = s
enqueue_blocks chain_id confirmations (n ∷ ns) s =
    enqueue_blocks chain_id confirmations ns
      (if leb n 0 then s else enqueue_block_sync chain_id n confirmations s)

unfoldable pub sync_block : ℕ → ℕ → ℕ → ℕ → Events → Events
unfolding enqueue_blocks
sync_block chain_id confirmations from to s =
    enqueue_blocks chain_id confirmations (range from to) s

unfoldable pub process_previous_blocks : ℕ → ℕ → ℕ → Events → Events
process_previous_blocks chain_id confirmations current s =
    sync_block chain_id confirmations (or_else (get_latest_block_number_sync chain_id s) current)
      current s
