-- ===== src/Jobs/FetchOwnerAddress.antt =====
-- modules/tokens/tokens-jobs-fetch-owner-address.service.ts
use nft_tracker.Prelude.{
  ℕ, zero, suc, ◌+◌, ◌-◌, ◌*◌, Text, Option, none, some, Bool, true, false, List, [], ◌∷◌, ◌++◌,
  ◌==◌, ◌===◌, ◌&&◌, ltb, not, any, select, take, to_lower, or_else, find_one, is_empty,
  if◌then◌else◌,
}
use nft_tracker.Provider.{address_zero, create, get_owner_of}
use nft_tracker.Store.Entities.{
  TokenJob, TokenJobStatus, Token, fetch_owner_address, same_status, same_type,
}
use nft_tracker.Store.World.{execute_fetch_owner_address_by_job}
use nft_tracker.Store.Exec.{
  Exec, repository, pure, throw, gets, ask, try_catch, write, parallel, ◌>>=◌, ◌>>◌,
}
use nft_tracker.Store.Env.{Env}
use nft_tracker.Store.Tables.{
  new_date, update_jobs, update_tokens, has_token_key, has_id, before, start_job, complete_job,
  fail_job,
}
use nft_tracker.Jobs.Service.{create_job, is_open}
use nft_tracker.Jobs.Schedule.{reset_frozen_jobs, schedule_jobs}

-- The `where` of `execute`: unlike those of the other services it asks for no type.
abbrev pub is_ready_of_any_type : ℕ → ℕ → TokenJob → Bool
is_ready_of_any_type now id j =
    has_id id j && same_status j.status TokenJobStatus.created && before j.execute_at now

abbrev pub set_owner : Text → ℕ → Token → Token
set_owner owner now t = record t {
  owner_address = some (to_lower owner);
  last_owner_address_change_at = some now;
}

abbrev pub set_checked : ℕ → Token → Token
set_checked now t = record t { last_owner_address_check_at = some now }

abbrev pub of_job : TokenJob → ℕ → Token → Bool
of_job job token_id = has_token_key job.address job.chain_id (some token_id)

-- A row of the query of `checkTokensOwnerAddressNotChangeForLongTime`.
pub record StaleOwners : Type 0 where
  pub address : Text
  pub chain_id : ℕ
  pub tokens_ids : List ℕ

abbrev seven_days : ℕ
seven_days = 7 * 24 * 60 * 60 * 1000

abbrev same_text : Option Text → Text → Bool
same_text none t = false
same_text (some s) t = s === t

abbrev same_number : Option ℕ → ℕ → Bool
same_number none n = false
same_number (some m) n = m == n

-- the condition of the `LEFT OUTER JOIN`
abbrev is_asked_for : Token → TokenJob → Bool
is_asked_for t j =
    same_number j.chain_id t.chain_id
    && same_text j.address t.address
    && any (λ id. id == t.token_id) j.tokens_ids
    && is_open j.status
    && same_type j.type fetch_owner_address

abbrev unchecked_for_long : ℕ → Option ℕ → Bool
unchecked_for_long now none = false
unchecked_for_long now (some checked) = ltb (checked + seven_days) now

abbrev owner_is_stale : ℕ → Token → Option Text → Bool
owner_is_stale now t none = true
owner_is_stale now t (some owner) =
    unchecked_for_long now t.last_owner_address_check_at && not (owner === address_zero)

unfoldable pub has_stale_owner : ℕ → List TokenJob → Token → Bool
has_stale_owner now jobs t = not (any (is_asked_for t) jobs) && owner_is_stale now t t.owner_address

-- `GROUP BY tokens.address, tokens.chain_id` with `json_agg(token_id)`
add_to_group : Token → List StaleOwners → List StaleOwners
add_to_group t [] =
    record { address = t.address; chain_id = t.chain_id; tokens_ids = t.token_id ∷ [] } ∷ []
add_to_group t (g ∷ gs) =
    let rest = add_to_group t gs in
    if g.address === t.address && g.chain_id == t.chain_id
    then record g { tokens_ids = t.token_id ∷ g.tokens_ids } ∷ gs
    else g ∷ rest

-- `json_agg`; the numbers are read back exactly here, while the driver reads them as doubles, which
-- are inexact above 2 ^ 53
unfoldable pub group_stale : List Token → List StaleOwners
unfolding add_to_group
group_stale [] = []
group_stale (t ∷ ts) = add_to_group t (group_stale ts)

-- `cluster` of the package radash: groups of at most `size`, in order
cluster_from : ℕ → ℕ → List ℕ → List ℕ → List (List ℕ)
cluster_from size room [] group = if is_empty group then [] else group ∷ []
cluster_from size zero (id ∷ ids) group = group ∷ cluster_from size (size - 1) ids (id ∷ [])
cluster_from size (suc room) (id ∷ ids) group = cluster_from size room ids (group ++ id ∷ [])

unfoldable pub cluster : ℕ → List ℕ → List (List ℕ)
unfolding cluster_from
cluster size ids = cluster_from size size ids []

module _ (env : Env) where
  unfoldable pub save_owner : TokenJob → ℕ → Option Text → Exec Unit
  save_owner job token_id none = pure tt
  save_owner job token_id (some owner) = do
    now ← new_date env
    write repository (update_tokens (of_job job token_id) (set_owner owner now))

  -- the body of the `parallel`
  unfoldable pub refresh_owner : TokenJob → ℕ → Exec ℕ
  unfolding save_owner
  refresh_owner job token_id = do
    owner ← get_owner_of env (or_else job.address []) (or_else job.chain_id 0) token_id
    save_owner job token_id owner
    now ← new_date env
    write repository (update_tokens (of_job job token_id) (set_checked now))
    pure 0

  unfoldable pub execute_started : TokenJob → Exec Unit
  execute_started job = do
    started_at ← new_date env
    write repository (update_jobs (has_id job.id) (start_job started_at))
    create env (or_else job.chain_id 0)
    ids ← ask (λ t. env.order t job.tokens_ids)
    parallel ids (refresh_owner job)
    complete_at ← new_date env
    write repository (update_jobs (has_id job.id) (complete_job complete_at))

  unfoldable pub run_job : Option TokenJob → Exec Unit
  run_job none = pure tt
  run_job (some job) =
      if is_empty job.tokens_ids
      then pure tt
      else try_catch (execute_started job) (λ error. do
        now ← new_date env
        write repository (update_jobs (has_id job.id) (fail_job now))
        throw error)

  unfoldable pub execute : ℕ → Exec Unit
  unfolding run_job
  execute job_id = do
    now ← new_date env
    job ← gets (λ w. find_one (is_ready_of_any_type now job_id) w.db.jobs)
    run_job job

  unfoldable pub check_jobs_have_already_started_but_not_finished : Exec Unit
  check_jobs_have_already_started_but_not_finished = reset_frozen_jobs env fetch_owner_address

  unfoldable pub create_for_group : StaleOwners → List ℕ → Exec Unit
  create_for_group item tokens_ids = do
    now ← new_date env
    create_job env (record {
      tokens_ids = tokens_ids;
      tokens_uris = some [];
      address = some item.address;
      chain_id = some item.chain_id;
      type = fetch_owner_address;
      asset_uri = none;
      execute_at = some now;
    })
    pure tt

  unfoldable pub create_for_groups : StaleOwners → List (List ℕ) → Exec Unit
  create_for_groups item [] = pure tt
  create_for_groups item (group ∷ groups) =
      create_for_group item group >> create_for_groups item groups

  unfoldable pub create_for_items : List StaleOwners → Exec Unit
  create_for_items [] = pure tt
  create_for_items (item ∷ items) =
      create_for_groups item (cluster 10 item.tokens_ids) >> create_for_items items

  -- the `parallel` over the groups is not awaited; here its jobs are made one after the other
  unfoldable pub check_tokens_owner_address_not_change_for_long_time : Exec Unit
  unfolding create_for_items create_for_groups create_for_group
  check_tokens_owner_address_not_change_for_long_time = do
    now ← ask env.clock
    items ← gets (λ w. take 10 (group_stale (select (has_stale_owner now w.db.jobs) w.db.tokens)))
    create_for_items items

  unfoldable pub schedule_next_jobs : Exec Unit
  schedule_next_jobs =
      schedule_jobs env fetch_owner_address (some 30) execute_fetch_owner_address_by_job
