-- ===== src/Invariant/Services.antt =====
-- The rules for invariants on the methods of the services, once they run a job.
use nft_tracker.Prelude.{◌≡◌, ℕ, Text, ◌≡◌, Option, none, some, Bool, false, List, [], ◌∷◌}
use nft_tracker.Store.Entities.{same_type, refresh_token, TokenJob, TokenJobType, Token}
use nft_tracker.Store.World.{Db, Error, too_many_requests}
use nft_tracker.Store.Exec.{Connection}
use nft_tracker.Store.Exec.Keeps.{Keeps, Holds, Keeps-pure, Keeps-bind, Keeps-gets, keeps_rules}
use nft_tracker.Store.Env.{Env, HttpReply, body, failure}
use nft_tracker.Store.Tables.{JobValues, save_job}
use nft_tracker.Jobs.Service.{
  CreateJobParams, RefreshParams, create_job, create_unless_open, create_refresh_token_job,
}
use nft_tracker.Jobs.Schedule.{reset_frozen_jobs}
use nft_tracker.Jobs.VerifyMint
use nft_tracker.Jobs.VerifyMint.{Place, ResyncItem}
use nft_tracker.Jobs.FetchMetadata
use nft_tracker.Jobs.FetchMetadata.{TokenKey}
use nft_tracker.Jobs.FetchOwnerAddress
use nft_tracker.Jobs.FetchOwnerAddress.{StaleOwners}
use nft_tracker.Jobs.UploadAsset
use nft_tracker.Jobs.RefreshToken
use nft_tracker.Invariant.Outside.{Keeps-new_date, outside_rules}
use nft_tracker.Invariant.{Withstands, JobChange, TokenChange}

pub ruleset job_changes = (
  JobChange.start, JobChange.complete, JobChange.fail, JobChange.fail_with_attempt, JobChange.retry,
)

pub ruleset token_changes = (
  TokenChange.metadata, TokenChange.owner, TokenChange.checked, TokenChange.asset,
  TokenChange.asset_job, TokenChange.transferred,
)

module _ {env : Env} {P : Db → Type 0} {Q : TokenJob → Type 0} (h : Withstands env P Q) where
  pub Keeps-save_job : (c : Connection) (v : JobValues) → Keeps (Holds P) (save_job env c v)
  unfolding save_job
  Keeps-save_job c v = search (keeps_rules, h.inserted) depth 20

  pub Keeps-create_job : (p : CreateJobParams) → Keeps (Holds P) (create_job env p)
  unfolding create_job
  Keeps-create_job p = search (outside_rules, Keeps-save_job) depth 20

  pub Keeps-create_refresh_token_job :
      (p : RefreshParams) → Keeps (Holds P) (create_refresh_token_job env p)
  unfolding create_refresh_token_job
  Keeps-create_refresh_token_job p = Keeps-bind _ _ (Keeps-gets _) created
    where
      created : (job : Option TokenJob) → Keeps (Holds P) (create_unless_open env p job)
      created none = Keeps-create_job _
      created (some job) = Keeps-pure job

  pub Keeps-reset_frozen_jobs :
      (type : TokenJobType)
      → same_type type refresh_token ≡ false
      → Keeps (Holds P) (reset_frozen_jobs env type)
  unfolding reset_frozen_jobs
  Keeps-reset_frozen_jobs type other = search (keeps_rules, Keeps-new_date, h.frozen) depth 20

  pub Keeps-upsert_token :
      (given : Bool) (place : Place) (token_id : ℕ) (uri : Text) (owner : Option Text)
      → Keeps (Holds P) (VerifyMint.upsert_token env given place token_id uri owner)
  unfolding VerifyMint.upsert_token
  Keeps-upsert_token given place token_id uri owner =
      search (outside_rules, Keeps-save_job, h.minted) depth 20

  pub Keeps-verify_token :
      (place : Place) (base_uri : Option Text) (token_id : ℕ)
      → Keeps (Holds P) (VerifyMint.verify_token env place base_uri token_id)
  unfolding VerifyMint.verify_token
  Keeps-verify_token place base_uri token_id = search (outside_rules, Keeps-upsert_token) depth 20

  pub Keeps-verify_mint_by_tokens_ids :
      (given : Bool) (place : Place) (ids : List ℕ)
      → Keeps (Holds P) (VerifyMint.verify_mint_by_tokens_ids env given place ids)
  unfolding VerifyMint.verify_mint_by_tokens_ids
  Keeps-verify_mint_by_tokens_ids given place ids =
      search (outside_rules, Keeps-verify_token) depth 20

  module _ (job : TokenJob) (q : Q job) where
    pub Keeps-verify_job : Keeps (Holds P) (VerifyMint.run_job env (some job))
    unfolding VerifyMint.run_job VerifyMint.give_up VerifyMint.verify_job
    Keeps-verify_job =
        search
          (outside_rules, h.job, job_changes, Keeps-save_job, Keeps-verify_mint_by_tokens_ids, q)
          depth 20

    pub Keeps-metadata_error : (e : Error) → Keeps (Holds P) (FetchMetadata.handle_error env job e)
    unfolding FetchMetadata.handle_error FetchMetadata.calculate_exponential_backoff_time
    Keeps-metadata_error too_many_requests = search (outside_rules, h.job, job_changes, q) depth 20
    Keeps-metadata_error e = search (outside_rules, h.job, job_changes, q) depth 20

  pub Keeps-get_reply : (reply : HttpReply) → Keeps (Holds P) (FetchMetadata.get_reply env reply)
  unfolding FetchMetadata.get_reply
  Keeps-get_reply (body payload) = search keeps_rules
  Keeps-get_reply (failure e) = search keeps_rules

  pub Keeps-fetch_metadata :
      (uri : Text) (key : TokenKey)
      → Keeps (Holds P) (FetchMetadata.fetch_metadata_by_token_and_update env uri key)
  unfolding FetchMetadata.fetch_metadata_by_token_and_update FetchMetadata.fetch_metadata_from
      FetchMetadata.update_metadata_token
  Keeps-fetch_metadata uri key =
      search (outside_rules, Keeps-get_reply, h.token, token_changes) depth 20

  pub Keeps-metadata_job :
      (job : TokenJob) → Q job → Keeps (Holds P) (FetchMetadata.run_job env (some job))
  unfolding FetchMetadata.run_job FetchMetadata.execute_started
  Keeps-metadata_job job q = uris job.tokens_uris
    where
      uris : (o : Option (List Text)) → Keeps (Holds P) (FetchMetadata.run_uris env job o)
      uris none = Keeps-pure tt
      uris (some []) = Keeps-pure tt
      uris (some (uri ∷ more)) =
          search (outside_rules, h.job, job_changes, Keeps-fetch_metadata, Keeps-metadata_error, q)
            depth 20

  pub Keeps-refresh_owner :
      (job : TokenJob) (token_id : ℕ)
      → Keeps (Holds P) (FetchOwnerAddress.refresh_owner env job token_id)
  unfolding FetchOwnerAddress.refresh_owner
  Keeps-refresh_owner job token_id = search (outside_rules, saved, h.token, token_changes) depth 20
    where
      saved : (o : Option Text) → Keeps (Holds P) (FetchOwnerAddress.save_owner env job token_id o)
      saved none = Keeps-pure tt
      saved (some owner) = search (outside_rules, h.token, token_changes) depth 20

  pub Keeps-owner_job :
      (job : TokenJob) → Q job → Keeps (Holds P) (FetchOwnerAddress.run_job env (some job))
  unfolding FetchOwnerAddress.run_job FetchOwnerAddress.execute_started
  Keeps-owner_job job q =
      search (outside_rules, h.job, job_changes, Keeps-refresh_owner, q) depth 20

  pub Keeps-upload :
      (uri : Text) → Keeps (Holds P) (UploadAsset.upload_asset_and_update_token env uri)
  unfolding UploadAsset.upload_asset_and_update_token UploadAsset.update_asset_token
  Keeps-upload uri = search (keeps_rules, h.uploaded, h.token, token_changes) depth 20

  pub Keeps-upload_job :
      (job : TokenJob) → Q job → Keeps (Holds P) (UploadAsset.run_job env (some job))
  unfolding UploadAsset.run_job UploadAsset.execute_started
  Keeps-upload_job job q = of_uri job.asset_uri
    where
      of_uri : (o : Option Text) → Keeps (Holds P) (UploadAsset.run_uri env job o)
      of_uri none = Keeps-pure tt
      of_uri (some uri) = search (outside_rules, h.job, job_changes, Keeps-upload, q) depth 20

  pub Keeps-found_or_throw :
      (key : TokenKey) (o : Option Token) → Keeps (Holds P) (RefreshToken.found_or_throw env key o)
  unfolding RefreshToken.found_or_throw
  Keeps-found_or_throw key none = search keeps_rules
  Keeps-found_or_throw key (some t) = search keeps_rules

  pub Keeps-cache_media :
      (o : Option Token) → Keeps (Holds P) (RefreshToken.cache_media_asset env o)
  unfolding RefreshToken.cache_media_asset
  Keeps-cache_media none = search keeps_rules
  Keeps-cache_media (some t) = search (keeps_rules, Keeps-upload) depth 20

  pub Keeps-get_token : (key : TokenKey) → Keeps (Holds P) (RefreshToken.get_token env key)
  unfolding RefreshToken.get_token
  Keeps-get_token key = search keeps_rules

  pub Keeps-refresh_job :
      (job : TokenJob) → Q job → Keeps (Holds P) (RefreshToken.run_job env (some job))
  unfolding RefreshToken.run_job RefreshToken.execute_started
  Keeps-refresh_job job q =
      search
        (
          outside_rules, h.job, job_changes, Keeps-verify_mint_by_tokens_ids, Keeps-get_token,
          Keeps-found_or_throw, Keeps-fetch_metadata, Keeps-cache_media, q,
        )
        depth 20
