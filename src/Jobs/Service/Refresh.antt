-- ===== src/Jobs/Service/Refresh.antt =====
-- `createRefreshTokenJob` of tokens-jobs.service.ts.
use nft_tracker.Prelude.{
  ℕ, ◌≡◌, refl, ap, Option, none, some, true, List, [], ◌∷◌, ◌++◌, find_one, to_lower, Bool-cases,
  inl, inr, arith,
}
use nft_tracker.Store.Entities.{TokenJob}
use nft_tracker.Store.World.{World}
use nft_tracker.Store.Exec.{Exec, ok, repository, ◌>>=◌}
use nft_tracker.Store.Env.{Env}
use nft_tracker.Store.Tables.{new_date, save_job, job_row, insert_job}
use nft_tracker.Jobs.Service.{
  RefreshParams, refresh_params, date_or_now, create_job, job_values, is_open_refresh,
  create_unless_open, create_refresh_token_job,
}

module _ (env : Env) (p : RefreshParams) where
  -- The job that the query finds is what the method returns, in the state as it is.
  found_again :
      (w : World) (job : TokenJob)
      → find_one (is_open_refresh env p) w.db.jobs ≡ some job
      → create_refresh_token_job env p w ≡ (ok job, w)
  unfolding create_refresh_token_job create_unless_open ◌>>=◌
  found_again w job found = ap (λ o. create_unless_open env p o w) found

  find_one-snoc :
      (js : List TokenJob) (j : TokenJob)
      → find_one (is_open_refresh env p) js ≡ none
      → is_open_refresh env p j ≡ true
      → find_one (is_open_refresh env p) (js ++ j ∷ []) ≡ some j
  find_one-snoc [] j missing e = rw e refl
  find_one-snoc (k ∷ ks) j missing e = elim (Bool-cases (is_open_refresh env p k)) [
    | inl t ↦ absurd (cc (rw t at missing))
    | inr t ↦ rw t (find_one-snoc ks j (rw t at missing) e)
  ]

  -- the query finds the job that has just been made for it
  is_open_refresh-row :
      (id now at : ℕ)
      → env.ilike (to_lower p.address) p.address ≡ true
      → is_open_refresh env p (job_row id now (job_values (refresh_params p) at)) ≡ true
  unfolding job_row
  is_open_refresh-row id now at likes = ground (arith, likes)

  Finds : Exec TokenJob → World → Type 0
  Finds m w =
      (job : TokenJob) × ((m w).0 ≡ ok job)
      × (find_one (is_open_refresh env p) (m w).1.db.jobs ≡ some job)

  saved-Finds :
      (o : Option ℕ) (w : World)
      → env.ilike (to_lower p.address) p.address ≡ true
      → find_one (is_open_refresh env p) w.db.jobs ≡ none
      → Finds
          (date_or_now env o >>= λ at. save_job env repository (job_values (refresh_params p) at))
          w
  unfolding Finds date_or_now save_job new_date insert_job ◌>>=◌
  saved-Finds none w likes missing =
      (_, refl, find_one-snoc w.db.jobs _ missing (is_open_refresh-row _ _ _ likes))
  saved-Finds (some at) w likes missing =
      (_, refl, find_one-snoc w.db.jobs _ missing (is_open_refresh-row _ _ _ likes))

  unless_open-Finds :
      (o : Option TokenJob) (w : World)
      → env.ilike (to_lower p.address) p.address ≡ true
      → find_one (is_open_refresh env p) w.db.jobs ≡ o
      → Finds (create_unless_open env p o) w
  unfolding Finds create_unless_open create_job ◌>>=◌
  unless_open-Finds (some job) w likes found = (job, refl, found)
  unless_open-Finds none w likes missing = saved-Finds p.execute_at w likes missing

-- A refresh that is asked for a second time makes no second job: the stored job that was returned
-- is returned again, and the state stays as it is. The address is taken to be like itself in lower
-- case, which is how it is stored.
pub create_refresh_token_job-create_refresh_token_job :
    (env : Env) (p : RefreshParams)
    → env.ilike (to_lower p.address) p.address ≡ true
    → (w : World)
    → let first = create_refresh_token_job env p w in
      (job : TokenJob) × (first.0 ≡ ok job)
      × (create_refresh_token_job env p first.1 ≡ (ok job, first.1))
unfolding create_refresh_token_job ◌>>=◌ Finds
create_refresh_token_job-create_refresh_token_job env p likes w =
    let o = find_one (is_open_refresh env p) w.db.jobs in
    let (job, returned, there) = unless_open-Finds env p o w likes refl in
    (job, returned, found_again env p (create_unless_open env p o w).1 job there)
