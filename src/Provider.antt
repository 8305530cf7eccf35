-- ===== src/Provider.antt =====
-- `ERC721Contract` of modules/blockchain/evm/providers/ERC721.provider.ts: the calls of a contract,
-- with what each answers when the call fails.
use nft_tracker.Prelude.{ℕ, Text, text, Option, none, some, [], Bool, false, if◌then◌else◌}
use nft_tracker.Store.World.{Error, rpc_error}
use nft_tracker.Store.Exec.{Exec, pure, throw, ask_result, try_catch, ◌>>=◌}
use nft_tracker.Store.Env.{Env}

abbrev pub address_zero : Text
address_zero = text "0x0000000000000000000000000000000000000000"

-- the stack of the error says "execution reverted"
abbrev pub is_reverted : Error → Bool
is_reverted (rpc_error reverted) = reverted
is_reverted _ = false

-- `handleJsonRpcError` words the message anew and keeps the stack
abbrev handle_json_rpc_error : Error → Error
handle_json_rpc_error e = rpc_error (is_reverted e)

module _ (env : Env) where
  -- `ERC721Provider.create`
  unfoldable pub create : ℕ → Exec Unit
  create chain_id = ask_result (λ t. env.connect t chain_id)

  module _ (address : Text) (chain_id : ℕ) where
    unfoldable pub name : Exec Text
    name = try_catch (ask_result (λ t. env.name t address chain_id)) (λ e. pure [])

    unfoldable pub symbol : Exec Text
    symbol = try_catch (ask_result (λ t. env.symbol t address chain_id)) (λ e. pure [])

    unfoldable pub total_supply : Exec (Option Text)
    total_supply =
        try_catch (ask_result (λ t. env.total_supply t address chain_id)) (λ e. pure none)

    unfoldable pub owner_of : ℕ → Exec Text
    owner_of token_id =
        try_catch (ask_result (λ t. env.owner_of t address chain_id token_id))
          (λ e. throw (handle_json_rpc_error e))

    unfoldable pub get_owner_of : ℕ → Exec (Option Text)
    get_owner_of token_id =
        try_catch (owner_of token_id >>= λ owner. pure (some owner))
          (λ e. pure (if is_reverted e then some address_zero else none))

    unfoldable pub get_uri : ℕ → Exec (Option Text)
    get_uri token_id =
        try_catch (ask_result (λ t. env.uri t address chain_id token_id) >>= λ u. pure (some u))
          (λ e. pure none)

    unfoldable pub get_token_uri : ℕ → Exec (Option Text)
    get_token_uri token_id =
        try_catch
          (ask_result (λ t. env.token_uri t address chain_id token_id) >>= λ u. pure (some u))
          (λ e. get_uri token_id)

    unfoldable pub get_base_uri : Exec (Option Text)
    get_base_uri =
        try_catch (ask_result (λ t. env.base_uri t address chain_id) >>= λ u. pure (some u))
          (λ e. pure none)
