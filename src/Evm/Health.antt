-- ===== src/Evm/Health.antt =====
-- modules/blockchain/evm/evm.service.ts (`checkAllJsonRpcProviders`, `checkAllWsProviders`) and
-- modules/health/blockchain.health.ts. The chains are listed in the order of the pool.
use nft_tracker.Prelude.{
  ℕ, text, Option, none, some, Bool, true, false, List, [], ◌∷◌, ◌&&◌, ltb, is_empty, if◌then◌else◌,
}
use nft_tracker.Store.World.{Error, message}
use nft_tracker.Store.Exec.{Result, ok, err}
use nft_tracker.Action.{Action, pure, throw, gets, ◌>>=◌, ◌>>◌}
use nft_tracker.Evm.{
  Evm, Network, JsonRpcProvider, WebSocketProvider, ReadyState, connecting, opened,
  get_json_rpc_provider_by_chain_id, get_web_socket_provider_by_chain_id,
}

pub record ChainStatus : Type 0 where
  pub name : ℕ
  pub state : Bool
  pub block_number : ℕ

pub record Status : Type 0 where
  pub ready : Bool
  pub chains : List ChainStatus

-- `Promise.all`: each is run, and the first error is thrown
abbrev pub first_error : {A : Type 0} → Option Error → Result A → Option Error
first_error none (ok a) = none
first_error none (err e) = some e
first_error (some e) r = some e

module _ {A : Type 0} (run : ℕ → Action Evm A) where
  unfoldable pub run_all : List ℕ → Option Error → Action Evm Unit
  run_all [] none = pure tt
  run_all [] (some e) = throw e
  run_all (c ∷ cs) thrown = λ s. run_all cs (first_error thrown (run c s).0) (run c s).1

-- the loops over the providers, from the value of `ready` on
unfoldable pub check_each : {A : Type 0} → (A → ChainStatus) → List A → Bool → Status
check_each status [] ready = record { ready = ready; chains = [] }
check_each status (p ∷ ps) ready =
    let rest = check_each status ps (if (status p).state then ready else false) in
    record { ready = rest.ready; chains = status p ∷ rest.chains }

-- `data.chains.length ? data.ready : false`
unfoldable pub concluded : Status → Status
concluded s = record s { ready = if is_empty s.chains then false else s.ready }

abbrev or_zero : Result ℕ → ℕ
or_zero (ok n) = n
or_zero (err e) = 0

abbrev pub is_alive : ReadyState → Bool
is_alive opened = true
is_alive connecting = true
is_alive _ = false

module _ (network : Network) (supported_chain_ids : List ℕ) where
  abbrev pub json_rpc_status : JsonRpcProvider → ChainStatus
  json_rpc_status p = record {
    name = p.chain_id;
    state = ltb 0 (or_zero (network.get_block_number p));
    block_number = or_zero (network.get_block_number p);
  }

  abbrev pub web_socket_status : WebSocketProvider → ChainStatus
  web_socket_status p = record {
    name = p.chain_id;
    state = is_alive p.ready_state;
    block_number = 0;
  }

  unfoldable pub get_json_rpc_providers : Action Evm (List JsonRpcProvider)
  get_json_rpc_providers = do
    run_all (λ c. get_json_rpc_provider_by_chain_id network c false) supported_chain_ids none
    gets (λ s. s.json_rpc_pool)

  unfoldable pub check_all_json_rpc_providers : Action Evm Status
  check_all_json_rpc_providers = do
    providers ← get_json_rpc_providers
    pure (concluded (check_each json_rpc_status providers true))

  unfoldable pub get_web_socket_providers : Action Evm (List WebSocketProvider)
  get_web_socket_providers = do
    run_all (λ c. get_web_socket_provider_by_chain_id network c false) supported_chain_ids none
    gets (λ s. s.web_socket_pool)

  unfoldable pub check_all_ws_providers : Action Evm Status
  check_all_ws_providers = do
    providers ← get_web_socket_providers
    pure (concluded (check_each web_socket_status providers true))

  -- `isHealthy`, which throws a `HealthCheckError`
  abbrev healthy_or_fail : Status → Status → Action Evm (Status × Status)
  healthy_or_fail ws http =
      if http.ready && ws.ready
      then pure (http, ws)
      else throw (message (text "BlockchainHealthIndicator"))

  unfoldable pub is_healthy : Action Evm (Status × Status)
  is_healthy = do
    ws ← check_all_ws_providers
    http ← check_all_json_rpc_providers
    healthy_or_fail ws http
