-- ===== src/Jobs/Progress.antt =====
-- The calls of a contract (ERC721.provider.ts) in tokens-jobs-fetch-owner-address.service.ts.
use nft_tracker.Prelude.{
  ℕ, suc, ◌≡◌, ap, ◌∙◌, Text, Option, none, some, false, find_one, is_empty, or_else,
}
use nft_tracker.Provider.{create, get_owner_of, get_uri, get_token_uri, get_base_uri}
use nft_tracker.Store.Entities.{TokenJob, TokenJobStatus}
use nft_tracker.Store.World.{World}
use nft_tracker.Store.Exec.{ok}
use nft_tracker.Store.Exec.Ends.{Settles-ok}
use nft_tracker.Store.Exec.Returns.{
  Returns, Returns-pure, Returns-ask, Returns-if, Returns-try, Returns-try_catch, Returns-write,
  Returns-bind, Returns-ask_result, Returns-parallel,
}
use nft_tracker.Store.Env.{Env}
use nft_tracker.Store.Tables.{new_date}
use nft_tracker.Jobs.FetchOwnerAddress.{
  is_ready_of_any_type, save_owner, refresh_owner, execute_started, run_job, execute,
}
use nft_tracker.Jobs.Outcome.{RowOf, execute-run, owner-CompletedOrFailed}

module _ (env : Env) where
  Returns-date : Returns (new_date env)
  unfolding new_date
  Returns-date = Returns-ask _

  module _ (address : Text) (chain_id token_id : ℕ) where
    -- Whatever the chain answers, asking for an owner, for the address of a token and for the base
    -- address returns an answer, perhaps none, and throws nothing.
    pub contract-Returns :
        Returns (get_owner_of env address chain_id token_id)
        × Returns (get_token_uri env address chain_id token_id)
        × Returns (get_base_uri env address chain_id)
    unfolding get_owner_of get_token_uri get_uri get_base_uri
    contract-Returns = (
      Returns-try_catch _ _ (λ e. Returns-pure _),
      Returns-try_catch _ _ (λ e. Returns-try_catch _ _ (λ e. Returns-pure _)),
      Returns-try_catch _ _ (λ e. Returns-pure _),
    )

  module _ (job : TokenJob) where
    Returns-save_owner :
        (token_id : ℕ) (owner : Option Text) → Returns (save_owner env job token_id owner)
    unfolding save_owner
    Returns-save_owner token_id none = Returns-pure tt
    Returns-save_owner token_id (some owner) = search (Returns-bind, Returns-date, Returns-write)

    Returns-refresh_owner : (token_id : ℕ) → Returns (refresh_owner env job token_id)
    unfolding refresh_owner
    Returns-refresh_owner token_id = Returns-bind _ _ (contract-Returns _ _ token_id).0 λ owner.
        Returns-bind _ _ (Returns-save_owner token_id owner) λ _.
          Returns-bind _ _ Returns-date
            λ now. Returns-bind _ _ (Returns-write _ _) (λ _. Returns-pure 0)

    module _ (connects : (tick : ℕ) → env.connect tick (or_else job.chain_id 0) ≡ ok tt) where
      Returns-create : Returns (create env (or_else job.chain_id 0))
      unfolding create
      Returns-create = Returns-ask_result _ (λ tick. (tt, connects tick))

      Returns-execute_started : Returns (execute_started env job)
      unfolding execute_started
      Returns-execute_started =
          search
            (
              Returns-bind, Returns-create, Returns-refresh_owner, Returns-parallel, Returns-date,
              Returns-write, Returns-ask,
            )
            depth 20

      Returns-run_job : Returns (run_job env (some job))
      unfolding run_job
      Returns-run_job = Returns-if _ _ _ (Returns-pure tt) (Returns-try _ _ Returns-execute_started)

-- The check of owners completes its job, for a job that is ready and names a token, once there is a
-- connection to the chain: no answer of the contract makes it fail.
pub owner-completes :
    (env : Env) (job_id : ℕ) (w : World) (job : TokenJob)
    → find_one (is_ready_of_any_type (env.clock w.ticks) job_id) w.db.jobs ≡ some job
    → is_empty job.tokens_ids ≡ false
    → ((tick : ℕ) → env.connect tick (or_else job.chain_id 0) ≡ ok tt)
    → let after = execute env job_id w in
      (after.0 ≡ ok tt) × RowOf job.id (λ j. j.status ≡ TokenJobStatus.completed) after.1.db
unfolding execute
owner-completes env job_id w job found present connects =
    let run = execute-run env (λ now. is_ready_of_any_type now job_id) (run_job env) w job found in
    let (a, returned) = (Returns-run_job env job connects).at (record w { ticks = suc w.ticks }) in
    let ends = owner-CompletedOrFailed env job_id w job found present in
    let returns = ap (λ r. r.0) run ∙ returned in
    (returns, Settles-ok _ _ (execute env job_id w).0 (execute env job_id w).1 returns ends)
