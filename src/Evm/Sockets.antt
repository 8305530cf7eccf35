-- ===== src/Evm/Sockets.antt =====
-- modules/blockchain/evm/evm-events.services.ts: which chains are subscribed to, the listeners on
-- their sockets and the renewal of sockets that were closed. `is_watcher` says whether this
-- process runs as a watcher (config/app.config.ts).
use nft_tracker.Prelude.{
  ℕ, text, Option, none, some, Bool, true, false, not, List, [], ◌∷◌, ◌++◌, ◌==◌, any, select,
  find_one, if◌then◌else◌,
}
use nft_tracker.Store.World.{message}
use nft_tracker.Store.Exec.{Result}
use nft_tracker.Action.{Action, pure, throw, gets, modify, try_catch, ◌>>=◌, ◌>>◌}
use nft_tracker.Events.{Events, enqueue_block_sync}
use nft_tracker.Evm.{
  Evm, Network, WebSocketProvider, ReadyState, closed, EvmItem, is_web_socket_of, set_web_socket,
  get_web_socket_provider_by_chain_id, get_minimum_transaction_confirmation,
}

pub record Watch : Type 0 where
  pub evm : Evm
  -- the keys of `subscribeChainId`
  pub subscribed : List ℕ
  pub events : Events

abbrev pub on_evm : {A : Type 0} → Action Evm A → Action Watch A
on_evm m s = let r = m s.evm in (r.0, record s { evm = r.1 })

abbrev pub is_subscribed : ℕ → List ℕ → Bool
is_subscribed chain_id = any (λ c. c == chain_id)

abbrev pub without : ℕ → List ℕ → List ℕ
without chain_id = select (λ c. not (c == chain_id))

abbrev pub unsubscribe : ℕ → Action Watch Unit
unsubscribe chain_id = modify (λ s. record s { subscribed = without chain_id s.subscribed })

abbrev pub is_closed : ReadyState → Bool
is_closed closed = true
is_closed _ = false

abbrev pub listen : ℕ → ℕ → Evm → Evm
listen chain_id confirmations =
    set_web_socket chain_id (λ p. record p { listeners = p.listeners ++ confirmations ∷ [] })

abbrev pub listen_on : ℕ → Option WebSocketProvider → Action Watch Unit
listen_on chain_id none = pure tt
listen_on chain_id (some provider) = do
  confirmations ← on_evm (get_minimum_transaction_confirmation chain_id)
  on_evm (modify (listen chain_id confirmations))

-- `provider!.websocket` of a provider that is null
abbrev pub show_state : Option WebSocketProvider → Action Watch Unit
show_state none = throw (message (text "Cannot read properties of null"))
show_state (some p) = pure tt

module _ (network : Network) (is_watcher : Bool) where
  unfoldable pub subscribe_new : ℕ → Action Watch Unit
  subscribe_new chain_id = do
    modify (λ s. record s { subscribed = chain_id ∷ s.subscribed })
    provider ← on_evm (get_web_socket_provider_by_chain_id network chain_id false)
    listen_on chain_id provider

  abbrev pub subscribe_unless : ℕ → Bool → Bool → Action Watch Unit
  subscribe_unless chain_id true false = subscribe_new chain_id
  subscribe_unless chain_id true true = pure tt
  subscribe_unless chain_id false there = pure tt

  unfoldable pub subscribe_block_number_by_chain_id : ℕ → Action Watch Unit
  subscribe_block_number_by_chain_id chain_id =
      try_catch
        (gets (λ s. is_subscribed chain_id s.subscribed) >>= subscribe_unless chain_id is_watcher)
        (λ e. unsubscribe chain_id >> throw e)

  unfoldable pub renew_closed : ℕ → Action Watch Unit
  renew_closed chain_id = do
    unsubscribe chain_id
    provider ← on_evm (get_web_socket_provider_by_chain_id network chain_id true)
    subscribe_block_number_by_chain_id chain_id
    show_state provider

  abbrev pub renew_if_closed : ℕ → Option WebSocketProvider → Action Watch Unit
  renew_if_closed chain_id none = pure tt
  renew_if_closed chain_id (some p) =
      if is_closed p.ready_state then renew_closed chain_id else pure tt

  unfoldable pub check_socket : ℕ → Action Watch Unit
  check_socket chain_id = do
    provider ← on_evm (get_web_socket_provider_by_chain_id network chain_id false)
    renew_if_closed chain_id provider

  -- the loop over the supported chains
  unfoldable pub checking_if_socket_connection_is_still_open : List ℕ → Action Watch Unit
  checking_if_socket_connection_is_still_open [] = pure tt
  checking_if_socket_connection_is_still_open (chain_id ∷ chain_ids) =
      check_socket chain_id >> checking_if_socket_connection_is_still_open chain_ids

-- The listeners to one event `block` of a chain are called in turn.
abbrev notify : ℕ → ℕ → List ℕ → Events → Events
notify chain_id n [] events = events
notify chain_id n (confirmations ∷ rest) events =
    notify chain_id n rest (enqueue_block_sync chain_id n confirmations events)

abbrev listeners_of : Option WebSocketProvider → List ℕ
listeners_of none = []
listeners_of (some p) = p.listeners

unfoldable pub on_block : ℕ → ℕ → Watch → Watch
on_block chain_id n s = record s {
  events =
      notify chain_id n (listeners_of (find_one (is_web_socket_of chain_id) s.evm.web_socket_pool))
        s.events;
}

-- What happens to a process: calls of the service, and what goes on outside.
pub data Step (network : Network) (is_watcher : Bool) (chain_ids : List ℕ)
    : Watch → Watch → Type 0 where
  subscribes :
      (chain_id : ℕ) {s : Watch}
      → Step network is_watcher chain_ids s
          (subscribe_block_number_by_chain_id network is_watcher chain_id s).1
  checks :
      {s : Watch}
      → Step network is_watcher chain_ids s
          (checking_if_socket_connection_is_still_open network is_watcher chain_ids s).1
  -- any other caller, such as the report on the state of the sockets
  opens :
      (chain_id : ℕ) {s : Watch}
      → Step network is_watcher chain_ids s
          (on_evm (get_web_socket_provider_by_chain_id network chain_id false) s).1
  socket_changes :
      (chain_id : ℕ) (state : ReadyState) {s : Watch}
      → Step network is_watcher chain_ids s
          (record s { evm = set_web_socket chain_id (λ p. record p { ready_state = state }) s.evm })
  reconfigured :
      (config : Result (Option (List EvmItem))) {s : Watch}
      → Step network is_watcher chain_ids s (record s { evm = record s.evm { config = config } })
  mined : (chain_id n : ℕ) {s : Watch} → Step network is_watcher chain_ids s (on_block chain_id n s)

pub data Reach (network : Network) (is_watcher : Bool) (chain_ids : List ℕ)
    : Watch → Watch → Type 0 where
  here : {s : Watch} → Reach network is_watcher chain_ids s s
  then_ :
      {s t u : Watch}
      → Reach network is_watcher chain_ids s t
      → Step network is_watcher chain_ids t u
      → Reach network is_watcher chain_ids s u
