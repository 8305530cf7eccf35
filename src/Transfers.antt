-- ===== src/Transfers.antt =====
-- modules/tokens/tokens-transfer.service.ts
pub mod Once
use nft_tracker.Prelude.{
  ℕ, ◌*◌, Text, Option, none, some, Bool, true, false, not, List, [], ◌∷◌, ◌==◌, ◌===◌, ◌&&◌, ltb,
  any, select, find_one, to_lower, if◌then◌else◌,
}
use nft_tracker.Provider.{create, get_owner_of}
use nft_tracker.Store.Entities.{Token, TokenTransfer, verify_mint}
use nft_tracker.Store.Exec.{Exec, repository, pure, gets, ask, write, ◌>>=◌, ◌>>◌}
use nft_tracker.Store.Env.{Env}
use nft_tracker.Store.Tables.{lowercase, has_token_key, insert_transfer, update_tokens, new_date}
use nft_tracker.Jobs.Service.{create_job}

-- The event of a transfer, as the reader of the chain hands it over.
pub record TokenHistoryParams : Type 0 where
  pub address : Text
  pub chain_id : ℕ
  pub from_address : Text
  pub to_address : Text
  pub token_id : ℕ
  pub block_number : ℕ
  pub transaction_hash : Text
  pub transaction_index : ℕ
  -- in seconds
  pub timestamp : ℕ

-- the `where` of `getHistoryByTransactionHash`; the hash is stored in lower case
abbrev pub same_transaction : TokenHistoryParams → TokenTransfer → Bool
same_transaction p t =
    t.address === to_lower p.address
    && t.chain_id == p.chain_id
    && t.token_id == p.token_id
    && t.transaction_hash === to_lower p.transaction_hash

abbrev pub transfer_row : ℕ → TokenHistoryParams → TokenTransfer
transfer_row id p = record {
  id = id;
  address = to_lower p.address;
  chain_id = p.chain_id;
  from_address = to_lower p.from_address;
  to_address = to_lower p.to_address;
  token_id = p.token_id;
  block_number = p.block_number;
  transaction_hash = to_lower p.transaction_hash;
  transaction_index = p.transaction_index;
  transferred_at = p.timestamp * 1000;
}

-- An owner that is null is written as NULL.
unfoldable pub set_transferred : Option Text → ℕ → ℕ → Token → Token
set_transferred owner changed checked t = record t {
  owner_address = lowercase owner;
  last_owner_address_change_at = some changed;
  last_owner_address_check_at = some checked;
}

abbrev pub has_index : TokenHistoryParams → TokenTransfer → Bool
has_index p t = t.transaction_index == p.transaction_index

module _ (env : Env) (p : TokenHistoryParams) where
  unfoldable pub get_history_by_transaction_hash : Exec (List TokenTransfer)
  get_history_by_transaction_hash = gets (λ w. select (same_transaction p) w.db.transfers)

  unfoldable pub create_verify_job : Exec Unit
  create_verify_job = do
    create_job env (record {
      tokens_ids = p.token_id ∷ [];
      tokens_uris = none;
      address = some (to_lower p.address);
      chain_id = some p.chain_id;
      type = verify_mint;
      asset_uri = none;
      execute_at = none;
    })
    pure tt

  unfoldable pub update_owner : Token → Exec Unit
  update_owner token = do
    create env p.chain_id
    owner ← get_owner_of env (to_lower p.address) p.chain_id p.token_id
    changed ← new_date env
    checked ← new_date env
    write repository (update_tokens (λ t. t.id == token.id) (set_transferred owner changed checked))

  -- `isString` holds of every `args.to`
  unfoldable pub follow_up : Bool → Option Token → Exec Unit
  follow_up is_latest none = create_verify_job
  follow_up is_latest (some token) = if is_latest then update_owner token else pure tt

  unfoldable pub record_transfer : List TokenTransfer → Exec Unit
  record_transfer history = do
    id ← ask env.uuid
    write repository (insert_transfer (transfer_row id p))
    token ← gets (λ w.
        find_one (has_token_key (some p.address) (some p.chain_id) (some p.token_id)) w.db.tokens)
    follow_up (not (any (λ tx. ltb p.transaction_index tx.transaction_index) history)) token

  unfoldable pub create_history : Exec Unit
  unfolding get_history_by_transaction_hash
  create_history = do
    history ← get_history_by_transaction_hash
    if any (has_index p) history then pure tt else record_transfer history
