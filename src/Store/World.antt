-- ===== src/Store/World.antt =====
-- The state that the services share: the tables, the open transaction, the Bull queue.
use nft_tracker.Prelude.{ℕ, Text, Option, Bool, List}
use nft_tracker.Store.Entities.{TokenJob, Token, TokenAsset, Contract, TokenTransfer}

pub record Db : Type 0 where
  pub jobs : List TokenJob
  pub tokens : List Token
  pub assets : List TokenAsset
  pub contracts : List Contract
  pub transfers : List TokenTransfer

-- `TokenJobJobs` and `EvmEventsJobs`, the names under which work is queued
pub data QueueName : Type 0 where
  execute_verify_mint_by_job execute_fetch_metadata_by_job : QueueName
  execute_fetch_owner_address_by_job execute_upload_asset_by_job : QueueName
  execute_refresh_token_by_job sync_block_job : QueueName

-- A job in a Bull queue: its name and the `jobId` of the table row that it carries.
pub record QueueJob : Type 0 where
  pub name : QueueName
  pub job_id : ℕ

pub record World : Type 0 where
  pub db : Db
  -- what the open transaction has written, if one is open: outside it shows only after the commit
  pub pending : Option (Db → Db)
  pub queue : List QueueJob
  -- how often the program has asked the outside: the clock, the chain, the network, a new uuid
  pub ticks : ℕ

-- What can be thrown: `aggregate` is the `AggregateError` of `parallel`, `rpc_error` an error of a
-- contract call with whether its stack says "execution reverted", `message` a plain `Error`.
pub data Error : Type 0 where
  too_many_requests aggregate : Error
  rpc_error : Bool → Error
  message : Text → Error
  unprocessable internal_error entity_not_found : Text → Error
  chain_not_supported : ℕ → Error
  token_not_found : Option Text → Option ℕ → Option ℕ → Error
  contract_already_exists contract_not_found : Text → ℕ → Error
