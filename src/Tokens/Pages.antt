-- ===== src/Tokens/Pages.antt =====
-- modules/tokens/tokens.service.ts: the lists of tokens in pages, at a contract and of an owner, as
-- modules/tokens/tokens.controller.ts answers with them. The pages that the package
-- nestjs-typeorm-paginate makes of the rows are a parameter.
pub mod Covered
use nft_tracker.Prelude.{
  ℕ, zero, suc, Text, Option, none, some, Bool, true, false, List, [], ◌∷◌, ◌++◌, ◌==◌, ◌===◌, ◌&&◌,
  ◌||◌, leb, any, select, is_empty, not, map,
}
use nft_tracker.Store.Entities.{Token}
use nft_tracker.Store.World.{Db}
use nft_tracker.Store.Env.{Env}
use nft_tracker.Store.Tables.{text_is}
use nft_tracker.Iterator.{Page}
use nft_tracker.Tokens.{Nft, to_map, is_token_at}

pub record ContractAddressTokensRequest : Type 0 where
  pub contract_address : Text
  pub chain_id : ℕ
  pub page : ℕ
  pub limit : ℕ

pub record OwnerAddressTokensRequest : Type 0 where
  pub contract_addresses : Option (List Text)
  pub owner : Text
  pub chain_id : ℕ
  pub page : ℕ
  pub limit : ℕ

-- what the validators of both requests let pass, of whole numbers
abbrev pub is_page : ℕ → ℕ → Bool
is_page page limit = leb 1 page && leb 1 limit && leb limit 100

-- `order: { tokenId: 'ASC' }`
abbrev pub numbered_no_later : Token → Token → Bool
numbered_no_later s t = leb s.token_id t.token_id

abbrev pub is_at_contract : Env → ContractAddressTokensRequest → Token → Bool
is_at_contract env pagination = is_token_at env pagination.contract_address pagination.chain_id

-- `isArray(contractAddresses) && contractAddresses.length > 0`, and `In` then
abbrev pub is_at_one_of : Option (List Text) → Token → Bool
is_at_one_of none t = true
is_at_one_of (some addresses) t =
    is_empty addresses || any (λ a. text_is (some a) t.address) addresses

-- the transformer lowers the owner that is asked for; null is no owner
abbrev pub is_owned_by : Text → Option Text → Bool
is_owned_by owner none = false
is_owned_by owner (some a) = text_is (some owner) a

abbrev pub is_of_owner : OwnerAddressTokensRequest → Token → Bool
is_of_owner pagination t =
    t.chain_id == pagination.chain_id
    && is_owned_by pagination.owner t.owner_address
    && is_at_one_of pagination.contract_addresses t

-- The package makes a page of the rows in their order; a query for a page puts them in an order by
-- their numbers, which may be one for one page and another for the next where numbers are the same.
pub record Pagination : Type 0 where
  pub order : ℕ → List Token → List Token
  pub paginate : ℕ → List Token → ℕ → Page Token

module _ (env : Env) (pagination : Pagination) where
  open pagination use {order, paginate}

  abbrev pub rows : (Token → Bool) → ℕ → Db → List Token
  rows is_wanted page d = order page (select is_wanted d.tokens)

  -- the page with its tokens mapped
  abbrev pub mapped_page : Db → Page Token → Page Nft
  mapped_page d p = record {
    items = to_map env d p.items;
    current_page = p.current_page;
    total_pages = p.total_pages;
  }

  unfoldable pub find_by_address_and_chain_id : ContractAddressTokensRequest → Db → Page Nft
  find_by_address_and_chain_id request d =
      mapped_page d
        (paginate request.limit (rows (is_at_contract env request) request.page d) request.page)

  unfoldable pub find_by_owner_address_and_chain_id : OwnerAddressTokensRequest → Db → Page Nft
  find_by_owner_address_and_chain_id request d =
      mapped_page d
        (paginate request.limit (rows (is_of_owner request) request.page d) request.page)
