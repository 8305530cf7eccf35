-- ===== src/Evm.antt =====
-- modules/blockchain/evm/evm.service.ts: the providers of the chains. The package ethers is a
-- parameter: what a node answers with, and which state a socket shows once it was destroyed. `name`
-- stands for `ChainId[chainId].toLocaleLowerCase()`, which fails on a number that is no member.
pub mod SyncBlock
pub mod Topics
pub mod Urls
pub mod Watcher
pub mod Block
pub mod Format
pub mod Health
pub mod Listeners
pub mod Logs
pub mod Pool
pub mod Readiness
pub mod Renewal
pub mod Sockets
use nft_tracker.Prelude.{
  ℕ, suc, ◌+◌, Text, Option, none, some, Bool, true, false, not, List, [], ◌∷◌, ◌==◌, ◌&&◌, ◌||◌,
  any, is_some, find_one, or_else, update_where, upsert_row, if◌then◌else◌,
}
use nft_tracker.Store.World.{Error}
use nft_tracker.Store.Exec.{Result, ok, err}
use nft_tracker.Action.{Action, pure, throw, lift, gets, modify, ◌>>=◌, ◌>>◌}
use nft_tracker.Evm.Urls.{ChainId, get_rpc_url, get_wss_url}

-- An entry of the configuration `EVM`.
pub record EvmItem : Type 0 where
  pub chain_id : ℕ
  pub rpc : Text
  pub wss : Text
  pub confirmation : Option ℕ

pub data ReadyState : Type 0 where
  connecting opened closing closed : ReadyState

-- A provider that asks over HTTP.
pub record JsonRpcProvider : Type 0 where
  pub chain_id : ℕ
  pub uri : Text

-- A provider on a web socket, numbered in the order in which they are made, with the listeners to
-- `block`: the number of confirmations that each waits for.
pub record WebSocketProvider : Type 0 where
  pub chain_id : ℕ
  pub serial : ℕ
  pub uri : Text
  pub ready_state : ReadyState
  pub listeners : List ℕ

-- The pools, and what the configuration says when it is asked.
pub record Evm : Type 0 where
  pub config : Result (Option (List EvmItem))
  pub json_rpc_pool : List JsonRpcProvider
  pub web_socket_pool : List WebSocketProvider
  pub made : ℕ

pub record Network : Type 0 where
  pub name : ℕ → Result Text
  pub destroy : WebSocketProvider → Result ReadyState
  pub get_block_number : JsonRpcProvider → Result ℕ

-- `uri || …`: an empty text counts as missing
abbrev not_empty : Text → Option Text
not_empty [] = none
not_empty (c ∷ s) = some (c ∷ s)

module _ {A : Type 0} where
  abbrev from_item : (EvmItem → Option A) → Option EvmItem → Option A
  from_item f none = none
  from_item f (some item) = f item

  abbrev or_default : Result A → Option A → Result A
  or_default default none = default
  or_default default (some a) = ok a

  -- `evm?.find((item) => item.chainId === chainId)?.…`
  abbrev configured : ℕ → (EvmItem → Option A) → Option (List EvmItem) → Option A
  configured chain_id f none = none
  configured chain_id f (some items) = from_item f (find_one (λ i. i.chain_id == chain_id) items)

abbrev pub get_config : Action Evm (Option (List EvmItem))
get_config s = (s.config, s)

unfoldable pub get_rpc_url_on_configuration_or_default : ℕ → Action Evm Text
get_rpc_url_on_configuration_or_default chain_id = do
  evm ← get_config
  lift (or_default (get_rpc_url chain_id) (configured chain_id (λ i. not_empty i.rpc) evm))

unfoldable pub get_wss_url_on_configuration_or_default : ℕ → Action Evm Text
get_wss_url_on_configuration_or_default chain_id = do
  evm ← get_config
  lift (or_default (get_wss_url chain_id) (configured chain_id (λ i. not_empty i.wss) evm))

abbrev not_zero : Option ℕ → Option ℕ
not_zero none = none
not_zero (some n) = if n == 0 then none else some n

unfoldable pub get_minimum_transaction_confirmation : ℕ → Action Evm ℕ
get_minimum_transaction_confirmation chain_id = do
  evm ← get_config
  pure (or_else (configured chain_id (λ i. not_zero i.confirmation) evm) 12)

abbrev pub is_json_rpc_of : ℕ → JsonRpcProvider → Bool
is_json_rpc_of chain_id p = p.chain_id == chain_id

abbrev pub is_web_socket_of : ℕ → WebSocketProvider → Bool
is_web_socket_of chain_id p = p.chain_id == chain_id

abbrev pub new_socket : ℕ → Text → ℕ → WebSocketProvider
new_socket chain_id uri serial = record {
  chain_id = chain_id;
  serial = serial;
  uri = uri;
  ready_state = connecting;
  listeners = [];
}

abbrev pub pool_web_socket : WebSocketProvider → Evm → Evm
pool_web_socket p s = record s {
  web_socket_pool = upsert_row (is_web_socket_of p.chain_id) (λ old. p) p s.web_socket_pool;
  made = suc s.made;
}

abbrev pub set_web_socket : ℕ → (WebSocketProvider → WebSocketProvider) → Evm → Evm
set_web_socket chain_id f s = record s {
  web_socket_pool = update_where (is_web_socket_of chain_id) f s.web_socket_pool;
}

-- no socket is made for an empty address, and the pool keeps what it had
unfoldable pub make_web_socket : ℕ → Text → Action Evm (Option WebSocketProvider)
make_web_socket chain_id [] = pure none
make_web_socket chain_id (c ∷ uri) = do
  serial ← gets (λ s. s.made)
  modify (pool_web_socket (new_socket chain_id (c ∷ uri) serial))
  pure (some (new_socket chain_id (c ∷ uri) serial))

module _ (network : Network) where
  abbrev pub pool_json_rpc : JsonRpcProvider → Evm → Evm
  pool_json_rpc p s = record s {
    json_rpc_pool = upsert_row (is_json_rpc_of p.chain_id) (λ old. p) p s.json_rpc_pool;
  }

  unfoldable pub make_json_rpc : ℕ → Action Evm JsonRpcProvider
  make_json_rpc chain_id = do
    uri ← get_rpc_url_on_configuration_or_default chain_id
    lift (network.name chain_id)
    modify (pool_json_rpc (record { chain_id = chain_id; uri = uri }))
    pure (record { chain_id = chain_id; uri = uri })

  abbrev pub pooled_json_rpc : ℕ → Bool → Option JsonRpcProvider → Action Evm JsonRpcProvider
  pooled_json_rpc chain_id force none = make_json_rpc chain_id
  pooled_json_rpc chain_id true (some p) = make_json_rpc chain_id
  pooled_json_rpc chain_id false (some p) = pure p

  unfoldable pub get_json_rpc_provider_by_chain_id : ℕ → Bool → Action Evm JsonRpcProvider
  get_json_rpc_provider_by_chain_id chain_id force = do
    found ← gets (λ s. find_one (is_json_rpc_of chain_id) s.json_rpc_pool)
    pooled_json_rpc chain_id force found

  unfoldable pub get_block_number : ℕ → Action Evm ℕ
  get_block_number chain_id = do
    provider ← get_json_rpc_provider_by_chain_id chain_id false
    lift (network.get_block_number provider)

  -- `removeAllListeners` and `destroy`
  unfoldable pub drop_web_socket : ℕ → WebSocketProvider → Action Evm Unit
  drop_web_socket chain_id p = do
    modify (set_web_socket chain_id (λ q. record q { listeners = [] }))
    state ← lift (network.destroy p)
    modify (set_web_socket chain_id (λ q. record q { ready_state = state }))

  unfoldable pub renew_web_socket : ℕ → Action Evm (Option WebSocketProvider)
  renew_web_socket chain_id = do
    uri ← get_wss_url_on_configuration_or_default chain_id
    make_web_socket chain_id uri

  abbrev pub pooled_web_socket :
      ℕ → Bool → Option WebSocketProvider → Action Evm (Option WebSocketProvider)
  pooled_web_socket chain_id force none = renew_web_socket chain_id
  pooled_web_socket chain_id false (some p) = pure (some p)
  pooled_web_socket chain_id true (some p) = drop_web_socket chain_id p >> renew_web_socket chain_id

  unfoldable pub get_web_socket_provider_by_chain_id :
      ℕ → Bool → Action Evm (Option WebSocketProvider)
  get_web_socket_provider_by_chain_id chain_id force = do
    found ← gets (λ s. find_one (is_web_socket_of chain_id) s.web_socket_pool)
    pooled_web_socket chain_id force found
