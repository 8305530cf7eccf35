-- ===== src/Tokens/Shown.antt =====
-- The key by which a token is looked up, and what a token is shown as.
use nft_tracker.Prelude.{
  ℕ, ◌≡◌, refl, sym, ap, inl, inr, Text, to_lower, Option, none, some, Bool, true, false, List, [],
  ◌∷◌, ◌==◌, ◌===◌, ◌&&◌, find_one, find_one-eq-some, find_one-Among, find_one-none, All, All-of,
  Among, Option-cases, three_of_and, two_of_and, All-self, ==_iff, ===_refl, eq_of_===,
}
use mathlib.Core.Option.{some-injective}
use nft_tracker.Uri.{sanitize_uri}
use nft_tracker.Store.Entities.{Token, TokenAsset, Contract}
use nft_tracker.Store.World.{Db}
use nft_tracker.Store.Env.{Env}
use nft_tracker.Tokens.{
  NftByTokenRequest, Nft, contract_of, asset_of, option_of, to_public, is_requested,
}

-- A token has the key that is asked for: its address in lower case, its chain and its number.
pub record HasKey (request : NftByTokenRequest) (t : Token) : Type 0 where
  pub address : t.address ≡ to_lower request.contract_address
  pub chain_id : t.chain_id ≡ request.chain_id
  pub token_id : t.token_id ≡ request.token_id

-- the contract that a token is shown with: one at its address and chain, if there is any
pub data ShowsContract (d : Db) (t : Token) (nft : Nft) : Type 0 where
  shown :
      (c : Contract)
      → Among c d.contracts
      → c.address ≡ t.address
      → c.chain_id ≡ t.chain_id
      → nft.symbol ≡ some c.symbol
      → nft.total_supply ≡ c.total_supply
      → ShowsContract d t nft
  not_there :
      All (λ c. (c.address ≡ t.address) × (c.chain_id ≡ t.chain_id) → ⊥) d.contracts
      → nft.symbol ≡ none
      → nft.total_supply ≡ none
      → ShowsContract d t nft

-- the address of the copy of its image: that of the asset whose id the token has
pub data ShowsAsset (d : Db) (t : Token) (gateway : Option Text) : Type 0 where
  copied :
      (a : TokenAsset)
      → Among a d.assets
      → t.asset_id ≡ some a.id
      → gateway ≡ a.url
      → ShowsAsset d t gateway
  no_copy : All (λ a. t.asset_id ≡ some a.id → ⊥) d.assets → gateway ≡ none → ShowsAsset d t gateway

module _ (env : Env) where
  -- What a token is shown as.
  pub record Shows (d : Db) (t : Token) (nft : Nft) : Type 0 where
    pub address : nft.address ≡ t.address
    pub token_id : nft.token_id ≡ t.token_id
    pub name : nft.name ≡ t.name
    pub title : nft.title ≡ t.name
    pub description : nft.description ≡ t.description
    pub token_uri_raw : nft.token_uri_raw ≡ t.token_uri
    pub token_uri_gateway : nft.token_uri_gateway ≡ sanitize_uri env.is_url t.token_uri
    pub metadata : nft.metadata ≡ t.metadata
    pub gateway : Option Text
    pub media : nft.media ≡ record { raw = t.image_raw_url; gateway = gateway } ∷ []
    pub of_contract : ShowsContract d t nft
    pub of_asset : ShowsAsset d t gateway

  all_hold : {a b c : Bool} → a ≡ true → b ≡ true → c ≡ true → a && b && c ≡ true
  all_hold e f g = cc

  pub is_requested-HasKey :
      (request : NftByTokenRequest) (t : Token)
      → is_requested env request t ≡ true
      → HasKey request t
  is_requested-HasKey request t h =
      let (a, c, n) =
        three_of_and (to_lower request.contract_address === t.address)
          (request.chain_id == t.chain_id) (request.token_id == t.token_id) h in
      record {
        address = sym (eq_of_=== _ _ a);
        chain_id = sym ((==_iff _ _).0 c);
        token_id = sym ((==_iff _ _).0 n);
      }

  pub HasKey-is_requested :
      (request : NftByTokenRequest) (t : Token)
      → HasKey request t
      → is_requested env request t ≡ true
  HasKey-is_requested request t h =
      rw (h.address, h.chain_id, h.token_id)
        (all_hold (===_refl (to_lower request.contract_address))
          ((==_iff request.chain_id request.chain_id).1 refl)
          ((==_iff request.token_id request.token_id).1 refl))

  contract_of-ShowsContract :
      (d : Db) (t : Token) (asset : Option TokenAsset)
      → ShowsContract d t (to_public env t (contract_of t d) asset)
  unfolding to_public
  contract_of-ShowsContract d t asset = elim (Option-cases (contract_of t d)) [
    | inl e ↦
        rw e (not_there (All-of d.contracts other_key (find_one-none _ d.contracts e)) refl refl)
    | inr (c, e) ↦
        (let (a, n) =
            two_of_and (c.address === t.address) (c.chain_id == t.chain_id)
              (find_one-eq-some _ d.contracts e) in
          rw e (
            shown c (find_one-Among _ d.contracts e) (eq_of_=== _ _ a) ((==_iff _ _).0 n) refl
              refl))
  ]
    where
      other_key :
          (c : Contract)
          → (c.address === t.address && c.chain_id == t.chain_id) ≡ false
          → (c.address ≡ t.address) × (c.chain_id ≡ t.chain_id)
          → ⊥
      other_key c f (h, k) =
          cc
            (f, ap (λ a. a === t.address) h, ===_refl t.address, (==_iff c.chain_id t.chain_id).1 k)

  no_asset :
      (o : Option ℕ) (assets : List TokenAsset)
      → option_of (λ id. find_one (λ a. a.id == id) assets) o ≡ none
      → All (λ a. o ≡ some a.id → ⊥) assets
  no_asset none assets e = All-of assets (λ a m h. cc (h)) (All-self assets)
  no_asset (some id) assets e =
      All-of assets (λ a f h. cc (f, (==_iff a.id id).1 (sym (some-injective _ _ h))))
        (find_one-none (λ a. a.id == id) assets e)

  one_asset :
      (o : Option ℕ) (assets : List TokenAsset) (a : TokenAsset)
      → option_of (λ id. find_one (λ a. a.id == id) assets) o ≡ some a
      → Among a assets × (o ≡ some a.id)
  one_asset none assets a e = cc
  one_asset (some id) assets a e = (
    find_one-Among (λ a. a.id == id) assets e,
    ap some (sym ((==_iff a.id id).0 (find_one-eq-some (λ a. a.id == id) assets e))),
  )

  asset_of-ShowsAsset :
      (d : Db) (t : Token) → ShowsAsset d t (option_of (λ a. a.url) (asset_of t d))
  asset_of-ShowsAsset d t = elim (Option-cases (asset_of t d)) [
    | inl e ↦ rw e (no_copy (no_asset t.asset_id d.assets e) refl)
    | inr (a, e) ↦
        (let (there, id) = one_asset t.asset_id d.assets a e in rw e (copied a there id refl))
  ]

  pub to_public-Shows :
      (d : Db) (t : Token) → Shows d t (to_public env t (contract_of t d) (asset_of t d))
  unfolding to_public
  to_public-Shows d t = record {
    address = refl;
    token_id = refl;
    name = refl;
    title = refl;
    description = refl;
    token_uri_raw = refl;
    token_uri_gateway = refl;
    metadata = refl;
    gateway = option_of (λ a. a.url) (asset_of t d);
    media = refl;
    of_contract = contract_of-ShowsContract d t (asset_of t d);
    of_asset = asset_of-ShowsAsset d t;
  }
