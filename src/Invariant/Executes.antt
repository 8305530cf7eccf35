-- ===== src/Invariant/Executes.antt =====
-- The rules for invariants on the `execute` of every service.
use nft_tracker.Prelude.{
  ℕ, ◌≡◌, refl, Option, none, some, Bool, true, find_one, find_one-eq-some, arith,
}
use nft_tracker.Store.Entities.{TokenJob, TokenJobType, TokenJobStatus}
use nft_tracker.Store.World.{Db, World}
use nft_tracker.Store.Exec.{Exec, gets, ◌>>=◌}
use nft_tracker.Store.Exec.Keeps.{Keeps, Holds, Keeps-pure, Keeps-bind, Keeps-bind-gets}
use nft_tracker.Store.Env.{Env}
use nft_tracker.Store.Tables.{new_date, is_ready}
use nft_tracker.Jobs.VerifyMint
use nft_tracker.Jobs.VerifyMint.{Place, ResyncItem}
use nft_tracker.Jobs.FetchMetadata
use nft_tracker.Jobs.FetchMetadata.{TokenKey}
use nft_tracker.Jobs.FetchOwnerAddress
use nft_tracker.Jobs.FetchOwnerAddress.{StaleOwners}
use nft_tracker.Jobs.UploadAsset
use nft_tracker.Jobs.RefreshToken
use nft_tracker.Invariant.Outside.{Keeps-new_date}
use nft_tracker.Invariant.Services.{
  Keeps-verify_job, Keeps-metadata_job, Keeps-owner_job, Keeps-upload_job, Keeps-refresh_job,
}
use nft_tracker.Invariant.{Withstands}

pub status_of_ready :
    (type : TokenJobType) (now id : ℕ) (j : TokenJob)
    → is_ready type now id j ≡ true
    → j.status ≡ TokenJobStatus.created
status_of_ready type now id j e = ground arith

pub status_of_ready_any :
    (now id : ℕ) (j : TokenJob)
    → FetchOwnerAddress.is_ready_of_any_type now id j ≡ true
    → j.status ≡ TokenJobStatus.created
status_of_ready_any now id j e = ground arith

-- what is known of a job, if one was found
abbrev IfFound : (TokenJob → Type 0) → Option TokenJob → Type 0
IfFound Q none = Unit
IfFound Q (some j) = Q j

module _ {env : Env} {P : Db → Type 0} {Q : TokenJob → Type 0} (h : Withstands env P Q) where
  pub found_ready :
      (p : TokenJob → Bool)
      → ((j : TokenJob) → p j ≡ true → j.status ≡ TokenJobStatus.created)
      → (w : World) → Holds P w
      → IfFound Q (find_one p w.db.jobs)
  found_ready p status w held = found (find_one p w.db.jobs) refl
    where
      found : (o : Option TokenJob) → find_one p w.db.jobs ≡ o → IfFound Q o
      found none e = tt
      found (some j) e =
          h.found w.db p j held.committed e (status j (find_one-eq-some p w.db.jobs e))

  -- a service's `execute`: the job that is found, if any, is run
  pub executed :
      (p : ℕ → TokenJob → Bool) (run : Option TokenJob → Exec Unit)
      → ((now : ℕ) (j : TokenJob) → p now j ≡ true → j.status ≡ TokenJobStatus.created)
      → Keeps (Holds P) (run none)
      → ((j : TokenJob) → Q j → Keeps (Holds P) (run (some j)))
      → Keeps (Holds P) (new_date env >>= λ now. gets (λ w. find_one (p now) w.db.jobs) >>= run)
  executed p run status idle runs =
      Keeps-bind _ _ (Keeps-new_date env)
        λ now. Keeps-bind-gets _ _ (found_ready (p now) (status now)) run_found
    where
      run_found : (o : Option TokenJob) → IfFound Q o → Keeps (Holds P) (run o)
      run_found none _ = idle
      run_found (some j) q = runs j q

  module _ (job_id : ℕ) where
    pub Keeps-verify_mint : Keeps (Holds P) (VerifyMint.execute env job_id)
    unfolding VerifyMint.execute
    Keeps-verify_mint =
        executed _ (VerifyMint.run_job env) (λ now. status_of_ready _ now job_id) (Keeps-pure tt)
          (Keeps-verify_job h)

    pub Keeps-fetch_metadata_job : Keeps (Holds P) (FetchMetadata.execute env job_id)
    unfolding FetchMetadata.execute
    Keeps-fetch_metadata_job =
        executed _ (FetchMetadata.run_job env) (λ now. status_of_ready _ now job_id) (Keeps-pure tt)
          (Keeps-metadata_job h)

    pub Keeps-fetch_owner_address : Keeps (Holds P) (FetchOwnerAddress.execute env job_id)
    unfolding FetchOwnerAddress.execute
    Keeps-fetch_owner_address =
        executed _ (FetchOwnerAddress.run_job env) (λ now. status_of_ready_any now job_id)
          (Keeps-pure tt) (Keeps-owner_job h)

    pub Keeps-upload_asset : Keeps (Holds P) (UploadAsset.execute env job_id)
    unfolding UploadAsset.execute
    Keeps-upload_asset =
        executed _ (UploadAsset.run_job env) (λ now. status_of_ready _ now job_id) (Keeps-pure tt)
          (Keeps-upload_job h)

    pub Keeps-refresh_token : Keeps (Holds P) (RefreshToken.execute env job_id)
    unfolding RefreshToken.execute
    Keeps-refresh_token =
        executed _ (RefreshToken.run_job env) (λ now. status_of_ready _ now job_id) (Keeps-pure tt)
          (Keeps-refresh_job h)
