-- ===== src/Jobs/VerifyMint/Atomic.antt =====
-- The transaction of `execute` of tokens-jobs-verify-mint.service.ts.
use nft_tracker.Prelude.{ℕ, ◌≡◌, refl, ap, ◌∙◌, Text, Option, some, true, List, find_one}
use nft_tracker.Store.Entities.{TokenJob, verify_mint}
use nft_tracker.Store.World.{Db, World, Error}
use nft_tracker.Store.Exec.{Result, err, runner, ask, ask_result, ◌>>=◌}
use nft_tracker.Store.Exec.Keeps.{
  Keeps, Keeps-pure, Keeps-throw, Keeps-lift, Keeps-gets, Keeps-if, Keeps-try_catch, Keeps-bind,
  Keeps-parallel, Keeps-Inside-write, Keeps-Inside_transaction, Inside,
}
use nft_tracker.Store.Exec.Ends.{run_transaction-err, try_catch-err}
use nft_tracker.Store.Env.{Env}
use nft_tracker.Store.Tables.{
  JobValues, new_date, save_job, update_jobs, has_id, is_ready, start_job, fail_job,
}
use nft_tracker.Provider.{create, owner_of, get_owner_of, get_uri, get_token_uri, get_base_uri}
use nft_tracker.Jobs.VerifyMint.{
  Place, upsert_token, verify_token, verify_mint_by_tokens_ids, continue_after, verify_job, give_up,
  run_job, execute,
}
use nft_tracker.Jobs.Outcome.{execute-run}

module _ (env : Env) (d : Db) where
  Inside-ask : {A : Type 0} (answer : ℕ → A) → Keeps (Inside d) (ask answer)
  unfolding ◌>>=◌
  Inside-ask answer = record { at = λ w h. record { same = h.same; is_open = h.is_open } }

  Inside-date : Keeps (Inside d) (new_date env)
  unfolding new_date
  Inside-date = Inside-ask _

  Inside-ask_result : {A : Type 0} (answer : ℕ → Result A) → Keeps (Inside d) (ask_result answer)
  Inside-ask_result answer = Keeps-bind _ _ (Inside-ask answer) Keeps-lift

  ruleset inside_rules = (
    Keeps-pure, Keeps-throw, Keeps-lift, Keeps-gets, Keeps-if, Keeps-try_catch, Keeps-bind,
    Keeps-parallel, Keeps-Inside-write, Keeps-Inside_transaction, Inside-ask, Inside-date,
    Inside-ask_result,
  )

  Inside-save_job : (v : JobValues) → Keeps (Inside d) (save_job env runner v)
  unfolding save_job
  Inside-save_job v = search (inside_rules) depth 20

  Inside-create : (chain_id : ℕ) → Keeps (Inside d) (create env chain_id)
  unfolding create
  Inside-create chain_id = Inside-ask_result _

  Inside-base_uri :
      (address : Text) (chain_id : ℕ) → Keeps (Inside d) (get_base_uri env address chain_id)
  unfolding get_base_uri
  Inside-base_uri address chain_id = search (inside_rules) depth 20

  Inside-token_uri :
      (address : Text) (chain_id token_id : ℕ)
      → Keeps (Inside d) (get_token_uri env address chain_id token_id)
  unfolding get_token_uri get_uri
  Inside-token_uri address chain_id token_id = search (inside_rules) depth 20

  Inside-owner_of :
      (address : Text) (chain_id token_id : ℕ)
      → Keeps (Inside d) (get_owner_of env address chain_id token_id)
  unfolding get_owner_of owner_of
  Inside-owner_of address chain_id token_id = search (inside_rules) depth 20

  Inside-upsert_token :
      (place : Place) (token_id : ℕ) (token_uri : Text) (owner : Option Text)
      → Keeps (Inside d) (upsert_token env true place token_id token_uri owner)
  unfolding upsert_token
  Inside-upsert_token place token_id token_uri owner =
      Keeps-Inside_transaction _ (search (inside_rules, Inside-save_job) depth 20)

  Inside-verify_token :
      (place : Place) (base_uri : Option Text) (token_id : ℕ)
      → Keeps (Inside d) (verify_token env place base_uri token_id)
  unfolding verify_token
  Inside-verify_token place base_uri token_id =
      search (inside_rules, Inside-token_uri, Inside-owner_of, Inside-upsert_token) depth 20

  Inside-verify_mint :
      (place : Place) (ids : List ℕ)
      → Keeps (Inside d) (verify_mint_by_tokens_ids env true place ids)
  unfolding verify_mint_by_tokens_ids
  Inside-verify_mint place ids =
      Keeps-Inside_transaction _
        (search (inside_rules, Inside-create, Inside-base_uri, Inside-verify_token) depth 20)

  Inside-verify_job : (job : TokenJob) → Keeps (Inside d) (verify_job env job)
  unfolding verify_job continue_after
  Inside-verify_job job = search (inside_rules, Inside-verify_mint, Inside-save_job) depth 20

-- The tables with the job marked as started, and after that as failed, and nothing else changed.
pub record OnlyFailed (job : TokenJob) (before after : Db) : Type 0 where
  pub started_at : ℕ
  pub failed_at : ℕ
  pub same :
      after
      ≡ update_jobs
          (has_id job.id)
          (fail_job failed_at)
          (update_jobs (has_id job.id) (start_job started_at) before)

module _ (env : Env) (job : TokenJob) where
  abbrev FailedFrom : Db → Db → Type 0
  FailedFrom d d' = (at : ℕ) × (d' ≡ update_jobs (has_id job.id) (fail_job at) d)

  give_up-err :
      (w : World) (d : Db) {e : Error}
      → Inside d w
      → (give_up env job (verify_job env job) w).0 ≡ err e
      → FailedFrom d (give_up env job (verify_job env job) w).1.db
  unfolding give_up ◌>>=◌ new_date
  give_up-err w d inside thrown =
      let (x, handled) = try_catch-err (verify_job env job) _ w thrown in
      let w' = (verify_job env job w).1 in
      let at = env.clock w'.ticks in
      (
        at,
        ap (λ r. r.1.db) handled
            ∙ ap (update_jobs (has_id job.id) (fail_job at))
                ((Inside-verify_job env d job).at w inside).same,
      )

  run_job-OnlyFailed :
      (w : World) {e : Error}
      → (run_job env (some job) w).0 ≡ err e
      → OnlyFailed job w.db (run_job env (some job) w).1.db
  unfolding run_job ◌>>=◌ new_date
  run_job-OnlyFailed w thrown =
      let start = start_job (env.clock w.ticks) in
      let rolled = run_transaction-err _ w thrown in
      let failed =
        give_up-err _ (update_jobs (has_id job.id) start w.db)
          (record { same = refl; is_open = refl }) rolled.0 in
      record { started_at = env.clock w.ticks; failed_at = failed.0; same = rolled.1 ∙ failed.1 }

-- The verification of tokens, for a job that is ready: if it throws, whatever its transaction has
-- written of tokens and of new jobs is undone. Nothing is left of the run but the job itself, which
-- is marked as started and then as failed.
pub execute-OnlyFailed :
    (env : Env) (job_id : ℕ) (w : World) (job : TokenJob) (e : Error)
    → find_one (is_ready verify_mint (env.clock w.ticks) job_id) w.db.jobs ≡ some job
    → (execute env job_id w).0 ≡ err e
    → OnlyFailed job w.db (execute env job_id w).1.db
unfolding execute
execute-OnlyFailed env job_id w job e found thrown =
    let run = execute-run env (λ now. is_ready verify_mint now job_id) (run_job env) w job found in
    rw run (run_job-OnlyFailed env job _ (rw run at thrown))
