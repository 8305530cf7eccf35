-- ===== src/Evm/Block.antt =====
-- modules/blockchain/evm/evm.service.ts: `getBlock`, which keeps a block in the cache for a minute.
-- What a node answers with and the printing of numbers are parameters.
use nft_tracker.Prelude.{ℕ, Text, text, Option, none, some, true, false, ◌==◌, if◌then◌else◌}
use nft_tracker.Store.World.{message}
use nft_tracker.Store.Exec.{Result}
use nft_tracker.Action.{Action, pure, throw, lift, ◌>>=◌}
use nft_tracker.Cache.{CacheManager, Cached, cache_resolver}
use nft_tracker.Evm.{Evm, Network, JsonRpcProvider, get_json_rpc_provider_by_chain_id}

-- The block that a node answers with.
pub record ChainBlock : Type 0 where
  pub hash : Option Text
  pub parent_hash : Text
  pub number : ℕ
  pub timestamp : ℕ
  pub nonce : Text
  pub difficulty : ℕ
  pub gas_limit : ℕ
  pub gas_used : ℕ
  pub miner : Text
  pub extra_data : Text
  pub base_fee_per_gas : Option ℕ

pub record Block : Type 0 where
  pub hash : Option Text
  pub parent_hash : Text
  pub number : ℕ
  pub timestamp : ℕ
  pub nonce : Text
  pub difficulty : Text
  pub gas_limit : Text
  pub gas_used : Text
  pub miner : Text
  pub extra_data : Text
  pub base_fee_per_gas : Option Text

pub record Node : Type 0 where
  pub get_block : JsonRpcProvider → ℕ → Result (Option ChainBlock)
  pub format_units : ℕ → Text
  pub to_string : ℕ → Text

-- The key `getBlock:<chain>:<block>`.
pub record BlockKey : Type 0 where
  pub chain_id : ℕ
  pub block_number : ℕ

module _ (node : Node) where
  abbrev fee : Option ℕ → Option Text
  fee none = none
  fee (some n) = some (if n == 0 then node.to_string n else node.format_units n)

  -- the miner is given as the hash of the parent, as in the source
  unfoldable pub block_of : ChainBlock → Block
  block_of b = record {
    hash = b.hash;
    parent_hash = b.parent_hash;
    number = b.number;
    timestamp = b.timestamp;
    nonce = b.nonce;
    difficulty = node.to_string b.difficulty;
    gas_limit = node.format_units b.gas_limit;
    gas_used = node.format_units b.gas_used;
    miner = b.parent_hash;
    extra_data = b.extra_data;
    base_fee_per_gas = fee b.base_fee_per_gas;
  }

  abbrev block_or_fail : Option ChainBlock → Action Evm Block
  block_or_fail none = throw (message (text "Block not found"))
  block_or_fail (some b) = pure (block_of b)

  module _ (network : Network) where
    unfoldable pub read_block : ℕ → ℕ → Action Evm Block
    read_block chain_id block_number = do
      provider ← get_json_rpc_provider_by_chain_id network chain_id false
      found ← lift (node.get_block provider block_number)
      block_or_fail found

    module _ {C : Type 0} (manager : CacheManager BlockKey Block C) where
      -- options are given, without `asyncCaching`: the cache is waited for
      unfoldable pub get_block : ℕ → ℕ → Action (Cached C Evm) Block
      get_block chain_id block_number =
          cache_resolver manager (λ b. true)
            (record {
              ttl = some 60;
              ttl_resolver = none;
              checker = none;
              force = false;
              async_caching = false;
            })
            (record { chain_id = chain_id; block_number = block_number })
            (read_block chain_id block_number)
