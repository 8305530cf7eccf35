-- ===== src/Evm/Readiness.antt =====
-- What it takes for the providers to be reported as ready.
use nft_tracker.Prelude.{ℕ, ◌≡◌, Text, true, false, List, ◌==◌, ◌&&◌, ltb, any}
use nft_tracker.Store.Exec.{Result, ok, err}
use nft_tracker.Action.{Action, pure, lift, modify, ◌>>=◌}
use nft_tracker.Evm.{
  Evm, Network, JsonRpcProvider, is_json_rpc_of, pool_json_rpc, get_json_rpc_provider_by_chain_id,
}
use nft_tracker.Evm.Health.{Status, ChainStatus, json_rpc_status}

abbrev Pooled : ℕ → Evm → Type 0
Pooled c s = any (is_json_rpc_of c) s.json_rpc_pool ≡ true

-- what holds of the state if the action returned
abbrev IfOk : {A : Type 0} → (Evm → Type 0) → Result A × Evm → Type 0
IfOk P (ok a, s) = P s
IfOk P (err e, s) = Unit

-- A provider that answers with a block above 0 is listed under its chain.
abbrev pub IsUp : Status → ℕ → Type 0
IsUp status c = any (λ e. e.name == c && e.state && ltb 0 e.block_number) status.chains ≡ true

module _ (network : Network) (c : ℕ) where
  abbrev made_from : Result Text → Result Text → Action Evm JsonRpcProvider
  made_from url name = lift url >>= λ uri. lift name >>= λ n.
      modify (pool_json_rpc network (record { chain_id = c; uri = uri })) >>= λ u.
      pure (record { chain_id = c; uri = uri })

module _ (network : Network) where
  abbrev open_chain : ℕ → Action Evm JsonRpcProvider
  open_chain c = get_json_rpc_provider_by_chain_id network c false

module _ (network : Network) (chain_ids : List ℕ) where
  abbrev status_of : JsonRpcProvider → ChainStatus
  status_of = json_rpc_status network chain_ids
