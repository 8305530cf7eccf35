-- ===== src/Tests/Pages.antt =====
-- The theorems on the lists of tokens in pages, applied to pages cut from the rows.
use nft_tracker.Prelude.{
  ℕ, ◌-◌, ◌*◌, ◌≡◌, refl, text, some, List, [], ◌∷◌, take, length, sort_by, insert_by,
}
use nft_tracker.Store.Entities.{Token}
use nft_tracker.Store.World.{Db}
use nft_tracker.Iterator.{Page, drop}
use nft_tracker.Tokens
use nft_tracker.Tokens.Pages
use nft_tracker.Tokens.Pages.{
  ContractAddressTokensRequest, OwnerAddressTokensRequest, Pagination, numbered_no_later,
}
use nft_tracker.Tokens.Pages.Covered
use nft_tracker.Tests.State.{small_env, small_world, small_token}

abbrev cut_pages : ℕ → List Token → ℕ → Page Token
cut_pages limit tokens page = record {
  items = take limit (drop ((page - 1) * limit) tokens);
  current_page = page;
  total_pages = length tokens;
}

abbrev small_pagination : Pagination
small_pagination = record { order = λ page. sort_by numbered_no_later; paginate = cut_pages }

-- the token of the small state, and two more in its contract that come before it
abbrev three_tokens : Db
three_tokens = record small_world.db {
  tokens =
      record small_token { token_id = 9; owner_address = some (text "0xee") }
      ∷ record small_token { token_id = 4; owner_address = some (text "0xee") }
      ∷ small_token
      ∷ [];
}

abbrev of_contract : ContractAddressTokensRequest
of_contract = record { contract_address = small_token.address; chain_id = 1; page = 2; limit = 2 }

abbrev of_owner : OwnerAddressTokensRequest
of_owner = record {
  contract_addresses = some (small_token.address ∷ []);
  owner = text "0xEE";
  chain_id = 1;
  page = 2;
  limit = 1;
}

-- the numbers of the tokens of a page
abbrev numbers : List Tokens.Nft → List ℕ
numbers [] = []
numbers (n ∷ ns) = n.token_id ∷ numbers ns

second_of_contract :
    numbers
      (Pages.find_by_address_and_chain_id small_env small_pagination of_contract three_tokens).items
    ≡ 9 ∷ []
unfolding Pages.find_by_address_and_chain_id Tokens.to_map Tokens.to_public sort_by insert_by
second_of_contract = refl

second_of_owner :
    numbers
      (Pages.find_by_owner_address_and_chain_id small_env small_pagination of_owner
        three_tokens).items
    ≡ 9 ∷ []
unfolding Pages.find_by_owner_address_and_chain_id Tokens.to_map Tokens.to_public sort_by insert_by
second_of_owner = refl
