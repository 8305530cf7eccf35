-- ===== src/Invariant/Finished.antt =====
-- The handlers of the processor and the jobs that have ended, or that refresh a token and were
-- started.
use mathlib.Core.Bool.{false≢true}
use nft_tracker.Prelude.{
  ℕ, ◌≡◌, ◌≢◌, refl, sym, ap, ◌∙◌, ◌⊎◌, inl, inr, some, Bool, false, List, ◌==◌, ==_iff, find_one,
  All, All-append, All-update_where, All-find_one, All-of, find_one-update_where, find_one-append,
  arith,
}
use nft_tracker.Store.Entities.{
  TokenJob, TokenJobType, TokenJobStatus, Token, same_type, verify_mint, fetch_metadata,
  fetch_owner_address, upload_asset, refresh_token,
}
use nft_tracker.Store.World.{Db, World}
use nft_tracker.Store.Exec.Keeps.{Holds}
use nft_tracker.Store.Env.{Env}
use nft_tracker.Store.Tables.{
  has_id, job_row, insert_job, insert_transfer, insert_contract, update_jobs, update_tokens,
  update_contracts,
}
use nft_tracker.Contracts.{count_tokens}
use nft_tracker.Jobs.Schedule.{is_frozen, thaw}
use nft_tracker.Jobs.VerifyMint.{upsert_minted}
use nft_tracker.Jobs.UploadAsset.{upsert_uploaded}
use nft_tracker.Processor.{Handler, handle}
use nft_tracker.Invariant.{Withstands, JobChange}
use nft_tracker.Invariant.Handlers.{handle-Keeps}

abbrev pub IsFinished : TokenJob → Type 0
IsFinished j =
    ((j.status ≡ TokenJobStatus.completed) ⊎ (j.status ≡ TokenJobStatus.failed))
    ⊎ ((j.status ≡ TokenJobStatus.started) × (j.type ≡ refresh_token))

-- The job stands in the table as it is, under an id that no other row has.
pub record Rests (job : TokenJob) (d : Db) : Type 0 where
  pub only : All (λ j. j.id ≡ job.id → j ≡ job) d.jobs
  pub listed : find_one (has_id job.id) d.jobs ≡ some job

same_type_refresh : (t : TokenJobType) → same_type refresh_token t ≡ same_type t refresh_token
same_type_refresh verify_mint = refl
same_type_refresh fetch_metadata = refl
same_type_refresh fetch_owner_address = refl
same_type_refresh upload_asset = refl
same_type_refresh refresh_token = refl

JobChange-id : {f : TokenJob → TokenJob} → JobChange f → (j : TokenJob) → (f j).id ≡ j.id
JobChange-id (JobChange.start now) j = refl
JobChange-id (JobChange.complete now) j = refl
JobChange-id (JobChange.fail now) j = refl
JobChange-id (JobChange.fail_with_attempt now) j = refl
JobChange-id (JobChange.retry at attempts now) j = refl

module _ (job : TokenJob) where
  -- An update that respects ids and leaves the job alone.
  Rests-update :
      (p : TokenJob → Bool) (f : TokenJob → TokenJob) (d : Db)
      → ((j : TokenJob) → (f j).id ≡ j.id)
      → p job ≡ false
      → Rests job d
      → Rests job (update_jobs p f d)
  unfolding update_jobs
  Rests-update p f d same_id spared h = record {
    only =
        All-update_where (λ j. j.id ≡ job.id → j ≡ job) p f d.jobs
          (λ j is passed same.
            let here : j ≡ job = is (sym (same_id j) ∙ same) in
            absurd (false≢true (sym spared ∙ sym (ap p here) ∙ passed)))
          h.only;
    listed =
        find_one-update_where (has_id job.id) p f d.jobs (λ j. ap (λ i. i == job.id) (same_id j))
          (All-of d.jobs (λ j is same. ap p (is ((==_iff j.id job.id).0 same)) ∙ spared) h.only)
        ∙ h.listed;
  }

  module _ (finished : IsFinished job) where
    not_created : job.status ≢ TokenJobStatus.created
    not_created e = elim finished [ inl (inl c) ↦ cc | inl (inr f) ↦ cc | inr (s, r) ↦ cc ]

    not_frozen :
        (type : TokenJobType) (now : ℕ)
        → same_type type refresh_token ≡ false
        → is_frozen type now job ≡ false
    not_frozen type now other = elim finished [
      | inl (inl c) ↦ rw c refl
      | inl (inr f) ↦ rw f refl
      | inr (s, r) ↦ rw (s, r, same_type_refresh type, other) refl
    ]

    other_id : (i : ℕ) → i ≢ job.id → has_id i job ≡ false
    other_id i ne = ground (arith, ne)

    Rests-Withstands :
        (env : Env)
        → ((tick : ℕ) → env.uuid tick ≢ job.id)
        → Withstands env (Rests job) (λ j. j.id ≢ job.id)
    unfolding update_jobs update_tokens insert_job upsert_minted upsert_uploaded count_tokens
        update_contracts job_row insert_transfer insert_contract
    Rests-Withstands env fresh = record {
      found = λ d p j h e created same.
          not_created (ap (λ k. k.status) (sym (All-find_one _ p d.jobs e h.only same)) ∙ created);
      job = λ j d change ne h.
          Rests-update (has_id j.id) _ d (JobChange-id change) (other_id j.id ne) h;
      frozen = λ type now at d other h.
          Rests-update (is_frozen type now) (thaw at) d (λ j. refl) (not_frozen type now other) h;
      inserted = λ tick now v d h. record {
        only = All-append _ d.jobs _ h.only ((λ e. absurd (fresh tick e)), tt);
        listed = find_one-append (has_id job.id) d.jobs _ h.listed;
      };
      token = λ p d change h. record { only = h.only; listed = h.listed };
      minted = λ id now token_id changed checked place uri owner d h. record {
        only = h.only;
        listed = h.listed;
      };
      uploaded = λ id uri u d h. record { only = h.only; listed = h.listed };
      recorded = λ t d h. record { only = h.only; listed = h.listed };
      contracted = λ c d h. record { only = h.only; listed = h.listed };
      counted = λ d h. record { only = h.only; listed = h.listed };
    }

-- A job that is completed or failed, under an id of its own that no new row is given, stays in the
-- table as it is, every column of it, whichever handler runs and whether it returns or throws. So
-- does a job that refreshes a token and is found as started when a handler begins: what resets the
-- jobs of the other types after five minutes leaves it out.
pub handle-Rests :
    (job : TokenJob)
    → IsFinished job
    → (env : Env) → ((tick : ℕ) → env.uuid tick ≢ job.id)
    → (picked : List Token → List Token) (x : Handler) (w : World) → Holds (Rests job) w
    → Holds (Rests job) (handle env picked x w).1
handle-Rests job finished env fresh picked x w =
    (handle-Keeps (Rests-Withstands job finished env fresh) picked x).at w
