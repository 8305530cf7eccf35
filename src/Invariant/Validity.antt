-- ===== src/Invariant/Validity.antt =====
-- Valid rows of the tables `tokens_jobs` and `tokens`, for the handlers of the processor.
use nft_tracker.Prelude.{
  ℕ, Text, ◌≡◌, refl, ap, Option, none, some, Bool, true, false, List, is_some, to_lower,
  to_lower-to_lower, All, All-append, All-update_where, All-upsert_row, arith,
}
use nft_tracker.Store.Entities.{TokenJob, TokenJobStatus, Token, Json}
use nft_tracker.Store.World.{Db, World}
use nft_tracker.Store.Exec.Keeps.{Holds}
use nft_tracker.Store.Env.{Env}
use nft_tracker.Store.Tables.{
  JobValues, lowercase, job_row, insert_job, insert_transfer, insert_contract, update_jobs,
  update_tokens, update_contracts,
}
use nft_tracker.Contracts.{count_tokens}
use nft_tracker.Jobs.Schedule.{is_frozen, thaw}
use nft_tracker.Jobs.VerifyMint.{Place, new_token, upsert_minted}
use nft_tracker.Jobs.FetchMetadata.{set_metadata}
use nft_tracker.Jobs.FetchMetadata.Payload.{is_not_empty_object}
use nft_tracker.Jobs.UploadAsset.{upsert_uploaded, set_asset, set_asset_job}
use nft_tracker.Processor.{Handler, handle}
use nft_tracker.Invariant.{Withstands, JobChange, TokenChange}
use nft_tracker.Invariant.Handlers.{handle-Keeps}
use nft_tracker.Invariant.Recording.{create_history-Keeps}
use nft_tracker.Transfers.{TokenHistoryParams, set_transferred, create_history}

-- A job has an execution date, without which no service would take it up; its dates agree with
-- its status; its address is in lower case.
pub record IsValidJob (j : TokenJob) : Type 0 where
  pub in_lower_case : lowercase j.address ≡ j.address
  pub has_execute_at : is_some j.execute_at ≡ true
  pub has_started_at : j.status ≡ TokenJobStatus.started → is_some j.started_at ≡ true
  pub has_complete_at : j.status ≡ TokenJobStatus.completed → is_some j.complete_at ≡ true
  pub has_failed_at : j.status ≡ TokenJobStatus.failed → is_some j.failed_at ≡ true

abbrev pub is_object : Option Json → Bool
is_object none = false
is_object (some json) = is_not_empty_object json

-- A token is marked as having metadata exactly if its metadata is an object that is not empty, and as
-- having an asset only if it has one; its addresses are in lower case.
pub record IsValidToken (t : Token) : Type 0 where
  pub address_in_lower_case : to_lower t.address ≡ t.address
  pub owner_in_lower_case : lowercase t.owner_address ≡ t.owner_address
  pub metadata_flag : t.has_metadata ≡ is_object t.metadata
  pub asset_flag : t.has_asset ≡ true → is_some t.asset_id ≡ true

pub record IsValid (d : Db) : Type 0 where
  pub jobs : All IsValidJob d.jobs
  pub tokens : All IsValidToken d.tokens

lowercase-lowercase : (o : Option Text) → lowercase (lowercase o) ≡ lowercase o
lowercase-lowercase none = refl
lowercase-lowercase (some s) = ap some (to_lower-to_lower s)

JobChange-IsValidJob :
    {f : TokenJob → TokenJob} → JobChange f → (j : TokenJob) → IsValidJob j → IsValidJob (f j)
JobChange-IsValidJob (JobChange.start now) j h = ground arith
JobChange-IsValidJob (JobChange.complete now) j h = ground arith
JobChange-IsValidJob (JobChange.fail now) j h = ground arith
JobChange-IsValidJob (JobChange.fail_with_attempt now) j h = ground arith
JobChange-IsValidJob (JobChange.retry at attempts now) j h = ground arith

job_row-IsValidJob : (id now : ℕ) (v : JobValues) → IsValidJob (job_row id now v)
unfolding job_row
job_row-IsValidJob id now v = ground (arith, lowercase-lowercase v.address)

TokenChange-IsValidToken :
    {f : Token → Token} → TokenChange f → (t : Token) → IsValidToken t → IsValidToken (f t)
unfolding set_metadata set_asset set_asset_job set_transferred
TokenChange-IsValidToken (TokenChange.metadata p a j) t h = ground arith
TokenChange-IsValidToken (TokenChange.owner address now) t h =
    ground (arith, to_lower-to_lower address)
TokenChange-IsValidToken (TokenChange.checked now) t h = ground arith
TokenChange-IsValidToken (TokenChange.asset a) t h = ground arith
TokenChange-IsValidToken (TokenChange.asset_job j) t h = ground arith
TokenChange-IsValidToken (TokenChange.transferred owner changed checked) t h =
    ground (arith, lowercase-lowercase owner)

minted-IsValid :
    (id now token_id changed checked : ℕ) (place : Place) (uri : Text) (owner : Option Text)
    (d : Db)
    → IsValid d
    → IsValid (upsert_minted (new_token id now place token_id) uri owner changed checked d)
unfolding upsert_minted
minted-IsValid id now token_id changed checked place uri owner d h = record {
  jobs = h.jobs;
  tokens =
      All-upsert_row IsValidToken _ _ _ d.tokens (λ t v. ground (arith, lowercase-lowercase owner))
        (ground (arith, lowercase-lowercase owner, to_lower-to_lower place.address)) h.tokens;
}

pub IsValid-Withstands : (env : Env) → Withstands env IsValid (λ j. Unit)
unfolding update_jobs update_tokens insert_job insert_transfer insert_contract upsert_uploaded
    count_tokens update_contracts
IsValid-Withstands env = record {
  found = λ d p j h e s. tt;
  job = λ j d change q h. record {
    jobs = All-update_where IsValidJob _ _ d.jobs (λ j v _. JobChange-IsValidJob change j v) h.jobs;
    tokens = h.tokens;
  };
  frozen = λ type now at d other h. record {
    jobs =
        All-update_where IsValidJob (is_frozen type now) (thaw at) d.jobs (λ j v _. ground arith)
          h.jobs;
    tokens = h.tokens;
  };
  inserted = λ tick now v d h. record {
    jobs = All-append IsValidJob d.jobs _ h.jobs (job_row-IsValidJob _ now v, tt);
    tokens = h.tokens;
  };
  token = λ p d change h. record {
    jobs = h.jobs;
    tokens =
        All-update_where IsValidToken p _ d.tokens (λ t v _. TokenChange-IsValidToken change t v)
          h.tokens;
  };
  minted = minted-IsValid;
  uploaded = λ id uri u d h. record { jobs = h.jobs; tokens = h.tokens };
  recorded = λ t d h. record { jobs = h.jobs; tokens = h.tokens };
  contracted = λ c d h. record { jobs = h.jobs; tokens = h.tokens };
  counted = λ d h. record { jobs = h.jobs; tokens = h.tokens };
}

-- Every handler keeps the tables valid, whether it returns or throws: every job has an execution
-- date, the dates that its status calls for and an address in lower case; every token is marked as
-- having metadata exactly if its metadata is an object that is not empty, and as having an asset only
-- if it has the id of one, and its addresses are in lower case.
pub handle-IsValid :
    (env : Env) (picked : List Token → List Token) (x : Handler) (w : World)
    → Holds IsValid w
    → Holds IsValid (handle env picked x w).1
handle-IsValid env picked x w = (handle-Keeps (IsValid-Withstands env) picked x).at w

-- Recording a transfer keeps the tables valid too, whether it returns or throws.
pub create_history-IsValid :
    (env : Env) (p : TokenHistoryParams) (w : World)
    → Holds IsValid w
    → Holds IsValid (create_history env p w).1
create_history-IsValid env p w = (create_history-Keeps (IsValid-Withstands env) p).at w
