-- ===== src/Evm/Logs.antt =====
-- modules/blockchain/evm/evm-logs.service.ts: the logs of a block, from the first provider that
-- answers. What a node answers with is a parameter.
use nft_tracker.Prelude.{
  ℕ, ◌≡◌, refl, Text, text, Option, none, some, Bool, true, false, List, [], ◌∷◌, ◌++◌, ◌==◌, ◌⊎◌,
  inl, inr, find_one, upsert_row, All,
}
use nft_tracker.Store.World.{Error, message}
use nft_tracker.Store.Exec.{Result, ok, err}
use nft_tracker.Action.{Action, pure, lift, gets, modify, ◌>>=◌, ◌>>◌}
use nft_tracker.Evm.Urls.{get_logs_urls}

pub record Log : Type 0 where
  pub address : Text
  pub topics : List Text
  -- the field `data`
  pub bytes : Text
  pub removed : Bool
  pub block_hash : Text
  pub block_number : ℕ
  pub transaction_hash : Text
  pub transaction_index : ℕ

-- An entry of the configuration `EVM_LOGS`.
pub record LogsItem : Type 0 where
  pub chain_id : ℕ
  pub rpc : List Text

-- The providers of a chain, by their addresses.
pub record LogsProviders : Type 0 where
  pub chain_id : ℕ
  pub uris : List Text

pub record EvmLogs : Type 0 where
  pub config : Result (Option (List LogsItem))
  pub pool : List LogsProviders

abbrev rpc_or_default : Result (List Text) → Option LogsItem → Result (List Text)
rpc_or_default default none = default
rpc_or_default default (some item) = ok item.rpc

-- a list is no empty value, not even one without members
abbrev configured : ℕ → Option (List LogsItem) → Result (List Text)
configured chain_id none = get_logs_urls chain_id
configured chain_id (some items) =
    rpc_or_default (get_logs_urls chain_id) (find_one (λ i. i.chain_id == chain_id) items)

unfoldable pub logs_urls_on_configuration_or_default : ℕ → Action EvmLogs (List Text)
logs_urls_on_configuration_or_default chain_id = do
  evm ← λ s. (s.config, s)
  lift (configured chain_id evm)

abbrev pool_uris : ℕ → List Text → EvmLogs → EvmLogs
pool_uris chain_id uris s = record s {
  pool =
      upsert_row (λ p. p.chain_id == chain_id) (λ p. record p { uris = uris })
        (record { chain_id = chain_id; uris = uris }) s.pool;
}

unfoldable pub make_providers : ℕ → Action EvmLogs (List Text)
make_providers chain_id = do
  uris ← logs_urls_on_configuration_or_default chain_id
  modify (pool_uris chain_id uris)
  pure uris

abbrev pub pooled : ℕ → Bool → Option LogsProviders → Action EvmLogs (List Text)
pooled chain_id force none = make_providers chain_id
pooled chain_id true (some p) = make_providers chain_id
pooled chain_id false (some p) = pure p.uris

unfoldable pub get_logs_providers : ℕ → Bool → Action EvmLogs (List Text)
get_logs_providers chain_id force = do
  found ← gets (λ s. find_one (λ p. p.chain_id == chain_id) s.pool)
  pooled chain_id force found

-- the loop of `getLogsByFirstProvider`, over the answers of the providers
module _ {A : Type 0} (answer : Text → Result A) where
  abbrev or_next : Result A → Result A → Result A
  or_next (ok logs) rest = ok logs
  or_next (err e) rest = rest

  unfoldable pub first_answer : List Text → Result A
  first_answer [] = err (message (text "No provider available"))
  first_answer (uri ∷ uris) = or_next (answer uri) (first_answer uris)

  abbrev pub Fails : Text → Type 0
  Fails uri = (e : Error) × (answer uri ≡ err e)

  -- The first provider that answers, with those before it, or the failure of all.
  abbrev pub FirstOf : List Text → Type 0
  FirstOf uris =
      ((before after : List Text) × (uri : Text) × (logs : A) × (uris ≡ before ++ uri ∷ after)
        × All Fails before
        × (answer uri ≡ ok logs)
        × (first_answer uris ≡ ok logs))
      ⊎ (All Fails uris × (first_answer uris ≡ err (message (text "No provider available"))))

  -- Either some provider answers, and the logs are those of the first that does, all before it
  -- having failed, or all of them fail, and so does the whole.
  pub first_answer-FirstOf : (uris : List Text) → FirstOf uris
  unfolding first_answer
  first_answer-FirstOf [] = inr (tt, refl)
  first_answer-FirstOf (uri ∷ uris) = tried (answer uri) refl (first_answer-FirstOf uris)
    where
      tried : (r : Result A) → answer uri ≡ r → FirstOf uris → FirstOf (uri ∷ uris)
      tried (ok logs) e rest = inl ([], uris, uri, logs, refl, tt, e, rw e refl)
      tried (err x) e (inl (before, after, found, logs, split, fails, good, same)) =
          inl (uri ∷ before, after, found, logs, cc, ((x, e), fails), good, rw e same)
      tried (err x) e (inr (fails, same)) = inr (((x, e), fails), rw e same)

unfoldable pub get_logs : (Text → ℕ → Result (List Log)) → ℕ → ℕ → Action EvmLogs (List Log)
get_logs answer chain_id block_number = do
  uris ← get_logs_providers chain_id false
  lift (first_answer (λ uri. answer uri block_number) uris)
