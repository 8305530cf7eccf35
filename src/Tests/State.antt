-- ===== src/Tests/State.antt =====
-- A small state of the program: one chain, one contract, jobs of each type.
use nft_tracker.Prelude.{
  ℕ, ◌+◌, Text, text, none, some, true, false, List, [], ◌∷◌, ◌===◌, to_lower,
}
use nft_tracker.Store.Entities.{
  TokenJob, TokenJobStatus, TokenJobType, Token, verify_mint, fetch_metadata, fetch_owner_address,
  upload_asset, refresh_token,
}
use nft_tracker.Store.World.{World, rpc_error, message}
use nft_tracker.Store.Exec.{ok, err}
use nft_tracker.Store.Env.{Env, HttpReply, failure}
use nft_tracker.Jobs.Service.{RefreshParams}
use nft_tracker.Transfers.{TokenHistoryParams}
use nft_tracker.Events.{Events}

abbrev pub contract_address : Text
contract_address = text "0xab"

-- The chain 1 is known; every token has an owner and an address; a request is answered, but only
-- the first time; the upload of media fails.
abbrev reply : ℕ → HttpReply
reply n = failure (record {
  status = some 429;
  data_message = none;
  error_message = some (text "slow down");
  request_url = text "/";
})

abbrev pub small_env : Env
small_env = record {
  clock = λ tick. 7200000 + tick;
  uuid = λ tick. 100 + tick;
  connect = λ tick chain_id. ok tt;
  name = λ tick address chain_id. ok (text "Cats");
  symbol = λ tick address chain_id. ok (text "CAT");
  total_supply = λ tick address chain_id. err (rpc_error false);
  owner_of = λ tick address chain_id token_id. ok (text "0xCD");
  token_uri = λ tick address chain_id token_id. ok (text "ipfs://QmA/1");
  uri = λ tick address chain_id token_id. err (rpc_error true);
  base_uri = λ tick address chain_id. err (rpc_error true);
  http_get = λ tick uri. reply tick;
  upload = λ tick uri. err (message (text "no upload"));
  is_url = λ s. false;
  is_json = λ s. false;
  parse_json = λ s. none;
  order = λ tick ids. ids;
  ilike = λ value pattern. to_lower value === to_lower pattern;
}

-- the same, but for the chain, which cannot be reached
abbrev pub broken_env : Env
broken_env = record small_env { connect = λ tick chain_id. err (message (text "no provider")) }

-- the same, where every address can be requested
abbrev pub busy_env : Env
busy_env = record small_env { is_url = λ s. true }

abbrev pub small_job : ℕ → TokenJobType → TokenJob
small_job id type = record {
  id = id;
  created_at = 1000;
  address = some contract_address;
  chain_id = some 1;
  tokens_ids = 1 ∷ 2 ∷ [];
  tokens_uris = some (text "QmA" ∷ []);
  asset_uri = some (text "QmB");
  execute_at = some 2000;
  complete_at = none;
  failed_at = none;
  started_at = none;
  status = TokenJobStatus.created;
  type = type;
  attempts = 0;
}

abbrev pub done_job : TokenJob
done_job = record (small_job 9 upload_asset) {
  status = TokenJobStatus.completed;
  complete_at = some 3000;
}

abbrev pub small_token : Token
small_token = record {
  id = 50;
  created_at = 500;
  address = contract_address;
  chain_id = 1;
  token_id = 1;
  token_uri = text "QmA";
  name = none;
  description = none;
  external_url = none;
  image_raw_url = none;
  metadata = none;
  has_metadata = false;
  owner_address = none;
  last_owner_address_check_at = none;
  last_owner_address_change_at = none;
  asset_id = some 60;
  has_asset = true;
  asset_token_job_id = some 9;
}

abbrev pub small_world : World
small_world = record {
  db = record {
    jobs =
        small_job 1 verify_mint
        ∷ small_job 2 fetch_metadata
        ∷ small_job 3 fetch_owner_address
        ∷ small_job 4 upload_asset
        ∷ small_job 5 refresh_token
        ∷ done_job
        ∷ [];
    tokens = small_token ∷ [];
    assets = [];
    contracts = [];
    transfers = [];
  };
  pending = none;
  queue = [];
  ticks = 0;
}

abbrev pub as_picked : List Token → List Token
as_picked ts = ts

abbrev pub small_refresh : RefreshParams
small_refresh = record { token_id = 7; address = text "0xAB"; chain_id = 1; execute_at = some 5000 }

-- two events of one token within one transaction, the second of them in another spelling
abbrev pub small_transfer : TokenHistoryParams
small_transfer = record {
  address = contract_address;
  chain_id = 1;
  from_address = text "0x01";
  to_address = text "0x02";
  token_id = 1;
  block_number = 80;
  transaction_hash = text "0xf0";
  transaction_index = 4;
  timestamp = 7200;
}

abbrev pub next_transfer : TokenHistoryParams
next_transfer = record small_transfer {
  address = text "0xAB";
  from_address = text "0x02";
  to_address = text "0x03";
}

-- the chain 1 has been read up to block 40
abbrev pub small_events : Events
small_events = record { last_blocks = record { chain_id = 1; block_number = 40 } ∷ []; queue = [] }
