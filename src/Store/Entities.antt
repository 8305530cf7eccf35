-- ===== src/Store/Entities.antt =====
-- The tables' rows (modules/tokens/entities, modules/contracts/entities) and their enums
-- (modules/tokens/enums). A `uuid` and a token id, the decimal text of an unsigned number, are
-- numbers; a `Date` is its milliseconds; `Optional` is `Option`.
use nft_tracker.Prelude.{ℕ, Text, Option, Bool, true, false, List, ◌==◌, ◌===◌, ◌&&◌}

pub data TokenJobStatus : Type 0 where
  created started completed failed : TokenJobStatus

pub data TokenJobType : Type 0 where
  verify_mint fetch_metadata fetch_owner_address upload_asset refresh_token : TokenJobType

pub data TokenAssetStatus : Type 0 where
  created uploading uploaded failed : TokenAssetStatus

pub record TokenJob : Type 0 where
  pub id : ℕ
  pub created_at : ℕ
  pub address : Option Text
  pub chain_id : Option ℕ
  pub tokens_ids : List ℕ
  pub tokens_uris : Option (List Text)
  pub asset_uri : Option Text
  pub execute_at : Option ℕ
  pub complete_at : Option ℕ
  pub failed_at : Option ℕ
  pub started_at : Option ℕ
  pub status : TokenJobStatus
  pub type : TokenJobType
  pub attempts : ℕ

-- A decoded JSON value, as far as the program looks into one: objects have their keys in order.
mutual
  pub data Json : Type 0 where
    null : Json
    str : Text → Json
    -- numbers and booleans
    scalar : Json
    -- an array, of which only the length matters
    arr : ℕ → Json
    obj : Fields → Json

  pub data Fields : Type 0 where
    end : Fields
    field : Text → Json → Fields → Fields

pub record Token : Type 0 where
  pub id : ℕ
  pub created_at : ℕ
  pub address : Text
  pub chain_id : ℕ
  pub token_id : ℕ
  pub token_uri : Text
  pub name : Option Text
  pub description : Option Text
  pub external_url : Option Text
  pub image_raw_url : Option Text
  pub metadata : Option Json
  pub has_metadata : Bool
  pub owner_address : Option Text
  pub last_owner_address_check_at : Option ℕ
  pub last_owner_address_change_at : Option ℕ
  pub asset_id : Option ℕ
  pub has_asset : Bool
  pub asset_token_job_id : Option ℕ

pub record TokenAsset : Type 0 where
  pub id : ℕ
  pub raw_url : Text
  pub public_id : Text
  pub url : Option Text
  pub status : TokenAssetStatus

pub record Contract : Type 0 where
  pub id : ℕ
  pub name : Text
  pub symbol : Text
  pub address : Text
  pub chain_id : ℕ
  pub total_supply : Option Text
  pub cache_media : Bool

pub record TokenTransfer : Type 0 where
  pub id : ℕ
  pub address : Text
  pub chain_id : ℕ
  pub from_address : Text
  pub to_address : Text
  pub token_id : ℕ
  pub block_number : ℕ
  pub transaction_hash : Text
  pub transaction_index : ℕ
  pub transferred_at : ℕ

abbrev pub same_status : TokenJobStatus → TokenJobStatus → Bool
same_status TokenJobStatus.created TokenJobStatus.created = true
same_status TokenJobStatus.started TokenJobStatus.started = true
same_status TokenJobStatus.completed TokenJobStatus.completed = true
same_status TokenJobStatus.failed TokenJobStatus.failed = true
same_status _ _ = false

abbrev pub same_type : TokenJobType → TokenJobType → Bool
same_type verify_mint verify_mint = true
same_type fetch_metadata fetch_metadata = true
same_type fetch_owner_address fetch_owner_address = true
same_type upload_asset upload_asset = true
same_type refresh_token refresh_token = true
same_type _ _ = false

-- the unique key of the table `tokens`
abbrev pub has_key : Text → ℕ → ℕ → Token → Bool
has_key address chain_id token_id t =
    t.address === address && t.chain_id == chain_id && t.token_id == token_id
