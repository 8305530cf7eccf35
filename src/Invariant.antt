-- ===== src/Invariant.antt =====
-- What a property of the tables must withstand to hold after every handler: `Withstands` lists the
-- writes of the program. The child modules go through them service by service.
pub mod Outside
pub mod Services
pub mod Executes
pub mod Handlers
pub mod Recording
pub mod Validity
pub mod Program
pub mod Finished
use nft_tracker.Prelude.{ℕ, Text, Option, Bool, ◌≡◌, some, true, false, find_one}
use nft_tracker.Store.Entities.{
  TokenJob, TokenJobType, TokenJobStatus, Token, TokenTransfer, Contract, same_type, refresh_token,
}
use nft_tracker.Store.World.{Db}
use nft_tracker.Store.Env.{Env, Uploaded}
use nft_tracker.Store.Tables.{
  JobValues, job_row, insert_job, insert_transfer, insert_contract, update_jobs, update_tokens,
  has_id, start_job, complete_job, fail_job,
}
use nft_tracker.Contracts.{count_tokens}
use nft_tracker.Jobs.Schedule.{is_frozen, thaw}
use nft_tracker.Jobs.VerifyMint.{Place, new_token, upsert_minted}
use nft_tracker.Jobs.FetchMetadata.Payload.{SanitizedPayload}
use nft_tracker.Jobs.FetchMetadata.{set_metadata, retry_job, fail_once}
use nft_tracker.Transfers.{set_transferred}
use nft_tracker.Jobs.FetchOwnerAddress.{set_owner, set_checked}
use nft_tracker.Jobs.UploadAsset.{upsert_uploaded, set_asset, set_asset_job}

-- The updates of a job by the service that executes it.
pub data JobChange : (TokenJob → TokenJob) → Type 0 where
  start : (now : ℕ) → JobChange (start_job now)
  complete : (now : ℕ) → JobChange (complete_job now)
  fail : (now : ℕ) → JobChange (fail_job now)
  fail_with_attempt : (now : ℕ) → JobChange (fail_once now)
  retry : (at attempts now : ℕ) → JobChange (retry_job at attempts now)

-- The updates of tokens.
pub data TokenChange : (Token → Token) → Type 0 where
  metadata : (p : SanitizedPayload) (a j : Option ℕ) → TokenChange (set_metadata p a j)
  owner : (address : Text) (now : ℕ) → TokenChange (set_owner address now)
  checked : (now : ℕ) → TokenChange (set_checked now)
  asset : (a : Option ℕ) → TokenChange (set_asset a)
  asset_job : (j : ℕ) → TokenChange (set_asset_job j)
  transferred :
      (owner : Option Text) (changed checked : ℕ)
      → TokenChange (set_transferred owner changed checked)

-- `P` withstands the writes; `Q` is what is known of a job that was found to be ready.
pub record Withstands (env : Env) (P : Db → Type 0) (Q : TokenJob → Type 0) : Type 0 where
  pub found :
      (d : Db) (p : TokenJob → Bool) (j : TokenJob)
      → P d
      → find_one p d.jobs ≡ some j
      → j.status ≡ TokenJobStatus.created
      → Q j
  pub job :
      {f : TokenJob → TokenJob} (j : TokenJob) (d : Db)
      → JobChange f
      → Q j
      → P d
      → P (update_jobs (has_id j.id) f d)
  -- of the frozen jobs, those that refresh a token are not reset by any handler
  pub frozen :
      (type : TokenJobType) (now at : ℕ) (d : Db)
      → same_type type refresh_token ≡ false
      → P d
      → P (update_jobs (is_frozen type now) (thaw at) d)
  pub inserted :
      (tick now : ℕ) (v : JobValues) (d : Db)
      → P d
      → P (insert_job (job_row (env.uuid tick) now v) d)
  pub token :
      {f : Token → Token} (p : Token → Bool) (d : Db)
      → TokenChange f
      → P d
      → P (update_tokens p f d)
  pub minted :
      (id now token_id changed checked : ℕ) (place : Place) (uri : Text) (owner : Option Text)
      (d : Db)
      → P d
      → P (upsert_minted (new_token id now place token_id) uri owner changed checked d)
  pub uploaded :
      (id : ℕ) (uri : Text) (u : Uploaded) (d : Db) → P d → P (upsert_uploaded id uri u d)
  pub recorded : (t : TokenTransfer) (d : Db) → P d → P (insert_transfer t d)
  pub contracted : (c : Contract) (d : Db) → P d → P (insert_contract c d)
  pub counted : (d : Db) → P d → P (count_tokens env d)
