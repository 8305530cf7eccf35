-- ===== src/Tokens.antt =====
-- modules/tokens/tokens.service.ts and modules/tokens/mappers/nfts.mapper.ts. The lists in pages are
-- in the module Pages.
pub mod Lookup
pub mod Pages
pub mod Shown
use nft_tracker.Prelude.{
  ℕ, suc, ◌≡◌, refl, ap, ◌∙◌, Text, Option, none, some, Bool, true, false, List, [], ◌∷◌, ◌==◌,
  ◌===◌, ◌&&◌, find_one, map, if◌then◌else◌,
}
use nft_tracker.Uri.{sanitize_uri}
use nft_tracker.Store.Entities.{Json, Token, TokenAsset, Contract, TokenJob}
use nft_tracker.Store.World.{World, Db, token_not_found, contract_not_found}
use nft_tracker.Store.Exec.{
  Result, ok, err, Exec, pure, lift, throw, gets, run_transaction, ◌>>=◌, ◌>>◌,
}
use nft_tracker.Store.Env.{Env}
use nft_tracker.Store.Tables.{has_token_key, new_date, save_job, insert_job}
use nft_tracker.Jobs.Service.{
  RefreshParams, date_or_now, create_job, create_unless_open, is_open_refresh,
  create_refresh_token_job,
}

pub record NftByTokenRequest : Type 0 where
  pub contract_address : Text
  pub chain_id : ℕ
  pub token_id : ℕ
  pub refresh_cache : Bool

pub record Media : Type 0 where
  pub raw : Option Text
  pub gateway : Option Text

-- The nested objects of `Nft` spread out; the type of the token is always `ERC721`.
pub record Nft : Type 0 where
  pub address : Text
  pub name : Option Text
  pub symbol : Option Text
  pub total_supply : Option Text
  pub token_id : ℕ
  pub title : Option Text
  pub description : Option Text
  pub token_uri_raw : Text
  pub token_uri_gateway : Text
  pub media : List Media
  pub metadata : Option Json

module _ {A B : Type 0} where
  abbrev field_of : (A → B) → Option A → Option B
  field_of f none = none
  field_of f (some a) = some (f a)

module _ {A B : Type 0} where
  abbrev pub option_of : (A → Option B) → Option A → Option B
  option_of f none = none
  option_of f (some a) = f a

-- the relations of a token: the contract at its address and chain, the asset with its number
abbrev pub contract_of : Token → Db → Option Contract
contract_of t d = find_one (λ c. c.address === t.address && c.chain_id == t.chain_id) d.contracts

abbrev pub asset_of : Token → Db → Option TokenAsset
asset_of t d = option_of (λ id. find_one (λ a. a.id == id) d.assets) t.asset_id

module _ (env : Env) where
  unfoldable pub to_public : Token → Option Contract → Option TokenAsset → Nft
  to_public token contract asset = record {
    address = token.address;
    name = token.name;
    symbol = field_of (λ c. c.symbol) contract;
    total_supply = option_of (λ c. c.total_supply) contract;
    token_id = token.token_id;
    title = token.name;
    description = token.description;
    token_uri_raw = token.token_uri;
    token_uri_gateway = sanitize_uri env.is_url token.token_uri;
    media = record { raw = token.image_raw_url; gateway = option_of (λ a. a.url) asset } ∷ [];
    metadata = token.metadata;
  }

  unfoldable pub to_map : Db → List Token → List Nft
  to_map d = map (λ t. to_public t (contract_of t d) (asset_of t d))

  abbrev pub is_token_at : Text → ℕ → Token → Bool
  is_token_at address chain_id t = env.ilike t.address address && t.chain_id == chain_id

  -- `findOne` is not awaited before the test `!entity`, which a promise never passes
  unfoldable pub find_one_by_address_and_chain_id : Bool → Text → ℕ → Exec (Option Token)
  find_one_by_address_and_chain_id throw_error address chain_id = run_transaction false (do
    let promise_is_missing = false
    if promise_is_missing && throw_error
        then throw (contract_not_found address chain_id)
        else gets (λ w. find_one (is_token_at address chain_id) w.db.tokens))

  abbrev pub refresh_of : NftByTokenRequest → ℕ → RefreshParams
  refresh_of request now = record {
    token_id = request.token_id;
    address = request.contract_address;
    chain_id = request.chain_id;
    execute_at = some now;
  }

  unfoldable pub refresh : NftByTokenRequest → Exec Unit
  refresh request = do
    now ← new_date env
    create_refresh_token_job env (refresh_of request now)
    pure tt

  abbrev pub refresh_if : Bool → NftByTokenRequest → Exec Unit
  refresh_if true request = refresh request
  refresh_if false request = pure tt

  abbrev pub is_requested : NftByTokenRequest → Token → Bool
  is_requested request =
      has_token_key (some request.contract_address) (some request.chain_id) (some request.token_id)

  unfoldable pub public_or_fail : NftByTokenRequest → Option Token → Exec Nft
  public_or_fail request none = throw (
      token_not_found (some request.contract_address) (some request.chain_id)
        (some request.token_id))
  public_or_fail request (some token) =
      gets (λ w. to_public token (contract_of token w.db) (asset_of token w.db))

  unfoldable pub find_by_token : NftByTokenRequest → Exec Nft
  find_by_token request = do
    refresh_if request.refresh_cache request
    token ← gets (λ w. find_one (is_requested request) w.db.tokens)
    public_or_fail request token
