-- ===== src/Evm/SyncBlock.antt =====
-- modules/blockchain/evm/queue/evm-events-worker.processor.ts and `getLogsByChainIdAndBlockNumber`:
-- a job `SyncBlock`, from the logs of its block to the last block that is noted. The number of the
-- block is one that is not negative. The transfers are handed to `parallel`, which nobody waits
-- for: it has asked its first questions of the database when the job goes on, and the answers come
-- at some time. Here the transfers stand in `background` until a step of their own takes them up,
-- once the job is through; what they do to the tables before it is through is left out.
use nft_tracker.Prelude.{
  ℕ, ◌≡◌, refl, ap, Text, Bool, true, false, List, [], ◌∷◌, ◌++◌, ◌==◌, ◌⊎◌, inl, inr, any, map,
  if◌then◌else◌, Bool-cases,
}
use nft_tracker.Store.World.{World, Error}
use nft_tracker.Store.Env.{Env}
use nft_tracker.Store.Exec.{Result, ok, err}
use nft_tracker.Action.{Action, pure, modify, ◌>>=◌, ◌>>◌}
use nft_tracker.Cache.{CacheManager, Cached}
use nft_tracker.Transfers.{TokenHistoryParams, create_history}
use nft_tracker.Events.{Events, save_last_block_number_sync}
use nft_tracker.Events.Last.{Noted, save_last_block_number_sync-Noted}
use nft_tracker.Evm.{Evm, Network}
use nft_tracker.Evm.Block.{Block, BlockKey, Node, get_block}
use nft_tracker.Evm.Logs.{Log, EvmLogs, get_logs}
use nft_tracker.Evm.Topics.{TopicKey, Decoder, process_logs, history_params}

pub record Sync (C : Type 0) : Type 0 where
  pub world : World
  pub events : Events
  pub blocks : Cached C Evm
  pub logs : EvmLogs
  pub topic_pool : List TopicKey
  pub background : List (List TokenHistoryParams)

-- All that is outside.
pub record Outside (C : Type 0) : Type 0 where
  pub env : Env
  pub network : Network
  pub node : Node
  pub manager : CacheManager BlockKey Block C
  pub decoder : Decoder
  pub answer : Text → ℕ → Result (List Log)
  pub chain_ids : List ℕ

module _ {C A : Type 0} where
  abbrev pub on_logs : Action EvmLogs A → Action (Sync C) A
  on_logs m s = let r = m s.logs in (r.0, record s { logs = r.1 })

  abbrev pub on_blocks : Action (Cached C Evm) A → Action (Sync C) A
  on_blocks m s = let r = m s.blocks in (r.0, record s { blocks = r.1 })

module _ {C : Type 0} (outside : Outside C) where
  open outside use {env, network, node, manager, decoder, answer, chain_ids}

  abbrev pub transfers_of : ℕ → List TopicKey → List Log → Block → List TokenHistoryParams
  transfers_of chain_id pool logs block =
      map (history_params chain_id) (process_logs decoder pool chain_id logs block.timestamp)

  unfoldable pub get_logs_by_chain_id_and_block_number : ℕ → ℕ → Action (Sync C) Unit
  get_logs_by_chain_id_and_block_number chain_id block_number = do
    logs ← on_logs (get_logs answer chain_id block_number)
    block ← on_blocks (get_block node network manager chain_id block_number)
    modify (λ s. record s {
      background = s.background ++ transfers_of chain_id s.topic_pool logs block ∷ [];
    })

  abbrev pub support_chain_id : ℕ → Bool
  support_chain_id chain_id = any (λ c. c == chain_id) chain_ids

  unfoldable pub sync_supported : ℕ → ℕ → Action (Sync C) Unit
  sync_supported chain_id block_number = do
    get_logs_by_chain_id_and_block_number chain_id block_number
    modify (λ s. record s { events = save_last_block_number_sync chain_id block_number s.events })

  unfoldable pub sync_block_handler : ℕ → ℕ → Action (Sync C) Unit
  sync_block_handler chain_id block_number =
      if support_chain_id chain_id then sync_supported chain_id block_number else pure tt

  -- The transfers of one block, one by one; an error is lost, as nobody waits for the outcome.
  unfoldable pub record_all : List TokenHistoryParams → World → World
  record_all [] w = w
  record_all (p ∷ ps) w = record_all ps (create_history env p w).1

  abbrev taken_up : List (List TokenHistoryParams) → Sync C → Sync C
  taken_up [] s = s
  taken_up (ps ∷ more) s = record s { world = record_all ps s.world; background = more }

  -- The process gets to what stands in the background the longest.
  unfoldable pub run_background : Sync C → Sync C
  unfolding record_all
  run_background s = taken_up s.background s

  -- A job that fails: the last blocks and the transfers to come are what they were.
  pub record Unread (s t : Sync C) : Type 0 where
    pub events : t.events ≡ s.events
    pub background : t.background ≡ s.background

  -- A job that returns: it has read the logs and the block, the last block is at least its own, and
  -- the transfers in the logs were handed over.
  pub record Read (chain_id block_number : ℕ) (s t : Sync C) : Type 0 where
    pub logs : List Log
    pub block : Block
    pub got_logs : (get_logs answer chain_id block_number s.logs).0 ≡ ok logs
    pub got_block : (get_block node network manager chain_id block_number s.blocks).0 ≡ ok block
    pub noted : Noted chain_id block_number s.events t.events
    pub background :
        t.background ≡ s.background ++ transfers_of chain_id s.topic_pool logs block ∷ []

  abbrev pub Outcome : ℕ → ℕ → Sync C → Result (Unit {0}) × Sync C → Type 0
  Outcome chain_id block_number s r =
      ((r.0 ≡ ok tt) × Read chain_id block_number s r.1)
      ⊎ ((e : Error) × (r.0 ≡ err e) × Unread s r.1)

  sync_supported-Outcome :
      (chain_id block_number : ℕ) (s : Sync C)
      → Outcome chain_id block_number s (sync_supported chain_id block_number s)
  unfolding sync_supported get_logs_by_chain_id_and_block_number
  sync_supported-Outcome chain_id n s =
      with_logs (get_logs answer chain_id n s.logs) refl
        (get_block node network manager chain_id n s.blocks) refl
    where
      with_logs :
          (x : Result (List Log) × EvmLogs)
          → get_logs answer chain_id n s.logs ≡ x
          → (y : Result Block × Cached C Evm)
          → get_block node network manager chain_id n s.blocks ≡ y
          → Outcome chain_id n s (sync_supported chain_id n s)
      with_logs (err e, l) found y asked =
          rw found (inr (e, refl, record { events = refl; background = refl }))
      with_logs (ok logs, l) found (err e, b) asked =
          rw (found, asked) (inr (e, refl, record { events = refl; background = refl }))
      with_logs (ok logs, l) found (ok block, b) asked =
          rw (found, asked)
            (inl (
              refl,
              record {
                logs = logs;
                block = block;
                got_logs = ap (λ r. r.0) found;
                got_block = ap (λ r. r.0) asked;
                noted = save_last_block_number_sync-Noted chain_id n s.events;
                background = refl;
              },
            ))

  -- A job for a chain that is not supported changes nothing. Any other either returns, and then its
  -- block was read, the last block of the chain is the greater of this one and the one before, those
  -- of other chains are what they were, and the transfers of the block were handed over; or it throws,
  -- and then the last blocks are what they were, so that the block may be read again, and no transfers
  -- were handed over.
  pub sync_block_handler-Outcome :
      (chain_id block_number : ℕ) (s : Sync C)
      → ((support_chain_id chain_id ≡ false)
          × (sync_block_handler chain_id block_number s ≡ (ok tt, s)))
        ⊎ ((support_chain_id chain_id ≡ true)
            × Outcome chain_id block_number s (sync_block_handler chain_id block_number s))
  unfolding sync_block_handler
  sync_block_handler-Outcome chain_id n s = elim (Bool-cases (support_chain_id chain_id)) [
    | inl e ↦ inr (e, rw e (sync_supported-Outcome chain_id n s))
    | inr e ↦ inl (e, rw e refl)
  ]
