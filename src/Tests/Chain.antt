-- ===== src/Tests/Chain.antt =====
-- The theorems on what is read of the chain, applied.
use nft_tracker.Prelude.{
  ◌≡◌, refl, Text, text, Option, none, some, Bool, true, false, [], ◌∷◌, ◌===◌, ◌&&◌, ◌||◌, ◌⊎◌,
  any, is_some, strip_prefix, find_one,
}
use nft_tracker.Store.Entities.{Contract}
use nft_tracker.Store.Exec.{ok}
use nft_tracker.Evm.{
  closed, new_socket, get_wss_url_on_configuration_or_default, get_minimum_transaction_confirmation,
  is_web_socket_of,
}
use nft_tracker.Evm.Block.{Block}
use nft_tracker.Evm.Health.{Status}
use nft_tracker.Evm.Renewal.{renew_closed-listen}
use nft_tracker.Evm.Sockets.{renew_closed, is_subscribed}
use nft_tracker.Evm.SyncBlock
use nft_tracker.Evm.Topics.Pool.{sync_local_cache-has_topic}
use nft_tracker.Evm.Topics.{get_topic_key, has_topic, sync_local_cache, tracks}
use nft_tracker.Tests.State.{small_env, small_world, small_events}
use nft_tracker.Tests.Data.{small_network, broken_watch}

-- a test that looks at the prefix alone
abbrev is_hex_like : Text → Bool
is_hex_like s = is_some (strip_prefix (text "0x") s)

abbrev small_contract : Contract
small_contract = record {
  id = 90;
  name = text "N";
  symbol = text "S";
  address = text "0xab";
  chain_id = 1;
  total_supply = none;
  cache_media = true;
}

sync_local_cache-has_topic_example :
    has_topic
      (sync_local_cache (text "0xdd") (small_contract ∷ []) [])
      (get_topic_key (text "0xdd") (text "0xAB") 1)
    ≡ (has_topic [] (get_topic_key (text "0xdd") (text "0xAB") 1)
        || (text "0xdd" === text "0xdd" && any (tracks 1 (text "0xAB")) (small_contract ∷ [])))
sync_local_cache-has_topic_example =
    sync_local_cache-has_topic (text "0xdd") (text "0xdd") (text "0xAB") 1 (small_contract ∷ []) []

abbrev up_status : Status
up_status = record {
  ready = true;
  chains = record { name = 1; state = true; block_number = 100 } ∷ [];
}

renew_closed-listen_example :
    let r = renew_closed small_network true 1 broken_watch in
    (r.0 ≡ ok tt)
    × (find_one (is_web_socket_of 1) r.1.evm.web_socket_pool
        ≡ some (record (new_socket 1 (text "wss://node") 1) { listeners = 3 ∷ [] }))
    × (is_subscribed 1 r.1.subscribed ≡ true)
unfolding get_wss_url_on_configuration_or_default get_minimum_transaction_confirmation
renew_closed-listen_example =
    renew_closed-listen small_network 1 broken_watch _ closed b'w' (text "ss://node") 3 refl refl
      refl refl

abbrev small_block : Block
small_block = record {
  hash = none;
  parent_hash = [];
  number = 80;
  timestamp = 7200;
  nonce = [];
  difficulty = [];
  gas_limit = [];
  gas_used = [];
  miner = [];
  extra_data = [];
  base_fee_per_gas = none;
}

abbrev small_outside : SyncBlock.Outside (Option Block)
small_outside = record {
  env = small_env;
  network = small_network;
  node = record { get_block = λ p n. ok none; format_units = λ n. []; to_string = λ n. [] };
  manager = record { get = λ key c. c; set = λ key v ttl c. some v };
  decoder = record {
    event_topic = text "0xdd";
    is_hex_string = is_hex_like;
    parse_log = λ topics bytes. none;
  };
  answer = λ uri n. ok [];
  chain_ids = 1 ∷ [];
}

-- the block is in the cache
abbrev small_sync : SyncBlock.Sync (Option Block)
small_sync = record {
  world = small_world;
  events = small_events;
  blocks = record { cache = some small_block; in_flight = []; rest = broken_watch.evm };
  logs = record { config = ok none; pool = [] };
  topic_pool = [];
  background = [];
}

sync_block_handler-Outcome_example :
    ((SyncBlock.support_chain_id small_outside 1 ≡ false)
      × (SyncBlock.sync_block_handler small_outside 1 80 small_sync ≡ (ok tt, small_sync)))
    ⊎ ((SyncBlock.support_chain_id small_outside 1 ≡ true)
        × SyncBlock.Outcome small_outside 1 80 small_sync
            (SyncBlock.sync_block_handler small_outside 1 80 small_sync))
sync_block_handler-Outcome_example =
    SyncBlock.sync_block_handler-Outcome small_outside 1 80 small_sync
