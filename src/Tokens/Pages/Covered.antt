-- ===== src/Tokens/Pages/Covered.antt =====
-- What a page of tokens holds.
use nft_tracker.Prelude.{
  ℕ, ◌≤◌, ◌<◌, ◌≡◌, Text, to_lower, Option, none, some, List, [], ◌∷◌, select, length, map, All,
  Among, IsSorted,
}
use nft_tracker.Store.Entities.{Token}
use nft_tracker.Store.World.{Db}
use nft_tracker.Store.Env.{Env}
use nft_tracker.Iterator.{IsPaged}
use nft_tracker.Tokens.{Nft, to_map}
use nft_tracker.Tokens.Pages.{OwnerAddressTokensRequest, Pagination, numbered_no_later, is_of_owner}

-- the addresses of contracts that are asked for, in any case of the letters; none is every one
abbrev pub IsAtOneOf : Option (List Text) → Token → Type 0
IsAtOneOf none t = Unit
IsAtOneOf (some []) t = Unit
IsAtOneOf (some (a ∷ addresses)) t = Among t.address (map to_lower (a ∷ addresses))

-- The token is on the chain, has the owner, in any case of the letters, and is of one of the contracts.
pub record IsOf (request : OwnerAddressTokensRequest) (t : Token) : Type 0 where
  pub chain_id : t.chain_id ≡ request.chain_id
  pub owner : t.owner_address ≡ some (to_lower request.owner)
  pub contract : IsAtOneOf request.contract_addresses t

-- What is documented of the database and of the package: an order by the numbers holds the rows, each
-- as often as before, and the pages are those of the rows in turn.
pub record IsPagination (pagination : Pagination) : Type 0 where
  pub sorted : (page : ℕ) (ts : List Token) → IsSorted numbered_no_later (pagination.order page ts)
  pub of_rows :
      (page : ℕ) (ts : List Token) (t : Token) → Among t (pagination.order page ts) → Among t ts
  pub all_rows :
      (page : ℕ) (ts : List Token) (t : Token) → Among t ts → Among t (pagination.order page ts)
  pub length_same : (page : ℕ) (ts : List Token) → length (pagination.order page ts) ≡ length ts
  pub paged :
      (limit : ℕ) (ts : List Token) → 0 < limit → IsPaged (pagination.paginate limit ts) limit ts

module _ (env : Env) where
  -- The page holds tokens of the owner, in the order of their numbers and no more than the limit; the
  -- first page holds all of them, where they fit.
  pub record IsPageOf (request : OwnerAddressTokensRequest) (d : Db) (items : List Nft)
      : Type 0 where
    pub tokens : List Token
    pub mapped : items ≡ to_map env d tokens
    pub owned : All (IsOf request) tokens
    pub of_table : All (λ t. Among t d.tokens) tokens
    pub in_order : IsSorted numbered_no_later tokens
    pub few : length tokens ≤ request.limit
    pub all_there :
        request.page ≡ 1
        → length (select (is_of_owner request) d.tokens) ≤ request.limit
        → (t : Token) → Among t d.tokens
        → IsOf request t
        → Among t tokens
