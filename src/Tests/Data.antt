-- ===== src/Tests/Data.antt =====
-- Small states of the services that keep something in memory.
use nft_tracker.Prelude.{◌≡◌, refl, text, none, some, Bool, true, false, [], ◌++◌, ◌∷◌}
use nft_tracker.Store.Entities.{Json, null, scalar, obj, end}
use nft_tracker.Store.Exec.{ok}
use nft_tracker.Configuration.{
  ConfigurationEntity, CreateConfigurationDto, UpdateConfigurationDto, Configurations, Tools,
  validate, collect, set,
}
use nft_tracker.Configuration.Store.{Synced, Synced-store}
use nft_tracker.Configuration.Changes.{Consistent}
use nft_tracker.Evm.{set_web_socket, Network, closed}
use nft_tracker.Evm.Sockets.{Watch, subscribe_block_number_by_chain_id}

-- a schema accepts every value but `null`
abbrev pub is_not_null : Json → Bool
is_not_null null = false
is_not_null v = true

abbrev pub small_tools : Tools
small_tools = record {
  constant_case = λ key. key;
  is_valid = λ schema value. ok (is_not_null value);
  errors = λ schema value. text "must not be null";
  create_schema = λ value. obj end;
  compile = λ schema key. ok (text "export interface " ++ key ++ text " {}");
  pascal_case = λ key. key;
  timestamp = text "1694000000000";
  print_id = λ id. [];
  insert_query = λ c. (text "INSERT", text "[]");
  write_file = λ path content. ok tt;
}

abbrev pub small_entry : ConfigurationEntity
small_entry = record { id = 1; key = text "EVM"; value = scalar; schema = obj end; active = true }

abbrev pub small_configurations : Configurations
small_configurations = record { table = small_entry ∷ []; store = []; loaded = false }

abbrev pub loaded_configurations : Configurations
loaded_configurations = record { table = small_entry ∷ []; store = small_entry ∷ []; loaded = true }

pub small_collect : collect small_tools (small_entry ∷ []) [] ≡ ok (small_entry ∷ [])
unfolding collect validate set
small_collect = refl

pub loaded-Synced : Synced loaded_configurations
loaded-Synced = Synced-store small_tools small_configurations small_collect

pub loaded-Consistent : Consistent small_tools loaded_configurations
unfolding validate
loaded-Consistent = record { checked = (refl, tt); synced = loaded-Synced }

abbrev pub small_dto : CreateConfigurationDto
small_dto = record { key = text "EVM_LOGS"; value = scalar; schema = none; active = true }

abbrev pub small_update : UpdateConfigurationDto
small_update = record { key = none; value = some null; schema = none; active = none }

abbrev pub small_network : Network
small_network = record {
  name = λ n. ok (text "chain");
  destroy = λ p. ok closed;
  get_block_number = λ p. ok 100;
}

abbrev pub small_watch : Watch
small_watch = record {
  evm = record {
    config = ok (
        some (
          record {
            chain_id = 1;
            rpc = text "https://node";
            wss = text "wss://node";
            confirmation = some 3;
          }
          ∷ []));
    json_rpc_pool = [];
    web_socket_pool = [];
    made = 0;
  };
  subscribed = [];
  events = record { last_blocks = []; queue = [] };
}

-- the chain 1 is subscribed to, its socket is closed, the cron job runs
abbrev pub subscribed_watch : Watch
subscribed_watch = (subscribe_block_number_by_chain_id small_network true 1 small_watch).1

abbrev pub closed_watch : Watch
closed_watch = record subscribed_watch {
  evm = set_web_socket 1 (λ p. record p { ready_state = closed }) subscribed_watch.evm;
}

-- the same as a literal, with the socket as it was when it was closed
abbrev pub broken_watch : Watch
broken_watch = record small_watch {
  evm = record {
    config = ok (
        some (
          record {
            chain_id = 1;
            rpc = text "https://node";
            wss = text "wss://node";
            confirmation = some 3;
          }
          ∷ []));
    json_rpc_pool = [];
    web_socket_pool =
        record {
          chain_id = 1;
          serial = 0;
          uri = text "wss://node";
          ready_state = closed;
          listeners = 3 ∷ [];
        }
        ∷ [];
    made = 1;
  };
  subscribed = 1 ∷ [];
}
