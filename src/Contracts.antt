-- ===== src/Contracts.antt =====
-- modules/contracts/contract.service.ts
use nft_tracker.Prelude.{
  ℕ, zero, suc, ◌+◌, ◌/◌, ◌%◌, Text, Option, none, some, Bool, true, false, [], ◌∷◌, ◌==◌, ◌&&◌,
  ltb, length, select, find_one, to_lower, if◌then◌else◌,
}
use nft_tracker.Provider.{create, name, symbol, total_supply}
use nft_tracker.Store.Entities.{Token, Contract, verify_mint}
use nft_tracker.Store.World.{Db, contract_already_exists, contract_not_found}
use nft_tracker.Store.Exec.{
  Exec, repository, pure, throw, gets, ask, write, run_transaction, ◌>>=◌, ◌>>◌,
}
use nft_tracker.Store.Env.{Env}
use nft_tracker.Store.Tables.{insert_contract, update_contracts}
use nft_tracker.Jobs.Service.{create_job}

pub record CreateContractDto : Type 0 where
  pub address : Text
  pub chain_id : ℕ
  pub cache_media : Bool

-- `toString()` of a count
decimal_from : ℕ → ℕ → Text → Text
decimal_from zero n acc = (b'0' + n % 10) ∷ acc
decimal_from (suc fuel) n acc =
    let more = decimal_from fuel (n / 10) ((b'0' + n % 10) ∷ acc) in
    if ltb n 10 then (b'0' + n) ∷ acc else more

unfoldable pub to_decimal : ℕ → Text
unfolding decimal_from
to_decimal n = decimal_from n n []

module _ (env : Env) where
  abbrev pub is_contract : Text → ℕ → Contract → Bool
  is_contract address chain_id c = env.ilike c.address address && c.chain_id == chain_id

  -- `findOne` is not awaited before the test `!entity`: a promise is there, whatever it answers, so
  -- nothing is thrown with `throwError` either
  unfoldable pub find_one_by_address_and_chain_id : Bool → Text → ℕ → Exec (Option Contract)
  find_one_by_address_and_chain_id throw_error address chain_id = run_transaction false (do
    let promise_is_missing = false
    if promise_is_missing && throw_error
        then throw (contract_not_found address chain_id)
        else gets (λ w. find_one (is_contract address chain_id) w.db.contracts))

  unfoldable pub save_new : CreateContractDto → Exec Contract
  save_new dto = do
    create env dto.chain_id
    name ← name env dto.address dto.chain_id
    symbol ← symbol env dto.address dto.chain_id
    total_supply ← total_supply env dto.address dto.chain_id
    create_job env (record {
      tokens_ids = 1 ∷ 2 ∷ 3 ∷ 4 ∷ 5 ∷ [];
      tokens_uris = none;
      address = some dto.address;
      chain_id = some dto.chain_id;
      type = verify_mint;
      asset_uri = none;
      execute_at = none;
    })
    id ← ask env.uuid
    let contract : Contract = record {
      id = id;
      name = name;
      symbol = symbol;
      address = to_lower dto.address;
      chain_id = dto.chain_id;
      total_supply = total_supply;
      cache_media = dto.cache_media;
    }
    write repository (insert_contract contract)
    pure contract

  unfoldable pub create_unless_found : CreateContractDto → Option Contract → Exec Contract
  unfolding save_new
  create_unless_found dto (some c) = throw (contract_already_exists dto.address dto.chain_id)
  create_unless_found dto none = save_new dto

  unfoldable pub create_contract : CreateContractDto → Exec Contract
  unfolding create_unless_found
  create_contract dto = do
    found ← find_one_by_address_and_chain_id false dto.address dto.chain_id
    create_unless_found dto found

  -- the tokens that the update of `syncTotalSupply` counts for a contract
  abbrev pub is_token_of : Contract → Token → Bool
  is_token_of c t = env.ilike t.address c.address && t.chain_id == c.chain_id

  unfoldable pub count_tokens : Db → Db
  count_tokens d =
      update_contracts (λ c. true)
        (λ c. record c {
          total_supply = some (to_decimal (length (select (is_token_of c) d.tokens)));
        })
        d

  unfoldable pub sync_total_supply : Exec Unit
  sync_total_supply = write repository count_tokens
