-- ===== src/Jobs/VerifyMint.antt =====
-- modules/tokens/tokens-jobs-verify-mint.service.ts
pub mod Atomic
pub mod Ids
pub mod Resync
use nft_tracker.Prelude.{
  ℕ, zero, suc, ◌-◌, ◌/◌, Text, Option, none, some, Bool, true, false, List, [], ◌∷◌, map, ◌==◌,
  ◌&&◌, ltb, leb, ◌===◌, select, is_empty, or_else, to_lower, find_one, if◌then◌else◌,
}
use nft_tracker.Uri.{format_token_uri}
use nft_tracker.Provider.{create, get_owner_of, get_token_uri, get_base_uri}
use nft_tracker.Store.Entities.{TokenJob, Token, Contract, same_type, verify_mint, fetch_metadata}
use nft_tracker.Store.World.{Db, execute_verify_mint_by_job}
use nft_tracker.Store.Exec.{
  Exec, repository, runner, pure, throw, gets, ask, try_catch, write, parallel, run_transaction,
  ◌>>=◌, ◌>>◌,
}
use nft_tracker.Store.Env.{Env}
use nft_tracker.Store.Tables.{
  JobValues, new_date, save_job, lowercase, update_jobs, upsert_token_row, has_token_key, has_id,
  is_ready, start_job, complete_job, fail_job,
}
use nft_tracker.Jobs.Double.{to_double, add_double}
use nft_tracker.Jobs.Schedule.{reset_frozen_jobs, schedule_jobs}

-- The key of a contract, as the services pass it about.
pub record Place : Type 0 where
  pub address : Text
  pub chain_id : ℕ

abbrev pub max_double : ℕ → List ℕ → ℕ
max_double highest [] = highest
max_double highest (id ∷ ids) =
    max_double (if ltb highest (to_double id) then to_double id else highest) ids

count_up : ℕ → ℕ → ℕ → List ℕ
count_up zero highest index = []
count_up (suc n) highest index =
    add_double (add_double highest index) 1 ∷ count_up n highest (suc index)

-- It is called with at least one id: `Math.max()` of none would be -Infinity.
unfoldable pub get_next_sequential_from_tokens_ids : List ℕ → ℕ → List ℕ
unfolding count_up
get_next_sequential_from_tokens_ids [] number_of_items = []
get_next_sequential_from_tokens_ids (id ∷ ids) number_of_items =
    count_up number_of_items (max_double (to_double id) ids) 0

abbrev pub verify_mint_values : Option Text → Option ℕ → List ℕ → ℕ → JobValues
verify_mint_values address chain_id tokens_ids execute_at = record {
  address = address;
  chain_id = chain_id;
  tokens_ids = tokens_ids;
  tokens_uris = none;
  asset_uri = none;
  execute_at = execute_at;
  type = verify_mint;
}

-- the values of `upsertToken`, on a row that is there and as a new row
abbrev set_minted : Text → Option Text → ℕ → ℕ → Token → Token
set_minted token_uri owner changed checked t = record t {
  token_uri = token_uri;
  owner_address = owner;
  last_owner_address_change_at = some changed;
  last_owner_address_check_at = some checked;
}

abbrev keep_or : Option Text → Option Text → Option Text
keep_or none old = old
keep_or (some new) old = some new

abbrev pub new_token : ℕ → ℕ → Place → ℕ → Token
new_token id now place token_id = record {
  id = id;
  created_at = now;
  address = to_lower place.address;
  chain_id = place.chain_id;
  token_id = token_id;
  token_uri = [];
  name = none;
  description = none;
  external_url = none;
  image_raw_url = none;
  metadata = none;
  has_metadata = false;
  owner_address = none;
  last_owner_address_check_at = none;
  last_owner_address_change_at = none;
  asset_id = none;
  has_asset = false;
  asset_token_job_id = none;
}

-- `upsert(TokenEntity, …, ['address', 'chainId', 'tokenId'])`. `ownerAddress?.toLocaleLowerCase()`
-- is undefined where there is no owner, and an undefined column is left alone by the update.
unfoldable pub upsert_minted : Token → Text → Option Text → ℕ → ℕ → Db → Db
unfolding upsert_token_row
upsert_minted new token_uri owner changed checked =
    upsert_token_row (has_token_key (some new.address) (some new.chain_id) (some new.token_id))
      (λ t. set_minted token_uri (keep_or (lowercase owner) t.owner_address) changed checked t)
      (set_minted token_uri (lowercase owner) changed checked new)

-- A row of the query of `resyncVerifyMint`: a contract, when it was last verified, its last token.
pub record ResyncItem : Type 0 where
  pub address : Text
  pub chain_id : ℕ
  pub last_verify_at : Option ℕ
  pub token_id : Option ℕ

abbrev later_of : Option ℕ → ℕ → Option ℕ
later_of none n = some n
later_of (some m) n = some (if ltb m n then n else m)

-- `ORDER BY … DESC LIMIT 1`
greatest : List ℕ → Option ℕ
greatest [] = none
greatest (n ∷ ns) = later_of (greatest ns) n

abbrev verifies : Contract → TokenJob → Bool
verifies c j =
    same_type j.type verify_mint
    && equals_text j.address c.address
    && equals_number j.chain_id c.chain_id
  where
    equals_text : Option Text → Text → Bool
    equals_text none t = false
    equals_text (some s) t = s === t

    equals_number : Option ℕ → ℕ → Bool
    equals_number none n = false
    equals_number (some m) n = m == n

abbrev belongs : Contract → Token → Bool
belongs c t = t.address === c.address && t.chain_id == c.chain_id

-- the query of `resyncVerifyMint`; contracts are never deleted softly by the program
unfoldable pub resync_items : Db → List ResyncItem
unfolding greatest
resync_items d = map item d.contracts
  where
    item : Contract → ResyncItem
    item c = record {
      address = c.address;
      chain_id = c.chain_id;
      last_verify_at = greatest (map (λ j. j.created_at) (select (verifies c) d.jobs));
      token_id = greatest (map (λ t. t.token_id) (select (belongs c) d.tokens));
    }

module _ (env : Env) where
  unfoldable pub upsert_token : Bool → Place → ℕ → Text → Option Text → Exec Unit
  upsert_token given place token_id token_uri owner = run_transaction given (do
    changed ← new_date env
    checked ← new_date env
    id ← ask env.uuid
    now ← ask env.clock
    write runner (upsert_minted (new_token id now place token_id) token_uri owner changed checked)
    execute_at ← new_date env
    save_job env runner (record {
      address = some place.address;
      chain_id = some place.chain_id;
      tokens_ids = token_id ∷ [];
      tokens_uris = some (token_uri ∷ []);
      asset_uri = none;
      execute_at = execute_at;
      type = fetch_metadata;
    })
    pure tt)

  -- the body of the `parallel`: 1 if the token was found
  unfoldable pub verify_token : Place → Option Text → ℕ → Exec ℕ
  verify_token place base_uri token_id = do
    uri ← get_token_uri env place.address place.chain_id token_id
    let token_uri = format_token_uri env.is_url token_id base_uri uri
    if is_empty token_uri then pure 0 else do
      owner ← get_owner_of env place.address place.chain_id token_id
      upsert_token true place token_id token_uri owner
      pure 1

  unfoldable pub verify_mint_by_tokens_ids : Bool → Place → List ℕ → Exec ℕ
  verify_mint_by_tokens_ids given place tokens_ids = run_transaction given (do
    create env place.chain_id
    base_uri ← get_base_uri env place.address place.chain_id
    ids ← ask (λ t. env.order t tokens_ids)
    parallel ids (verify_token place base_uri))

  -- `job.address!`, `job.chainId!`
  abbrev pub place_of : TokenJob → Place
  place_of job = record { address = or_else job.address []; chain_id = or_else job.chain_id 0 }

  unfoldable pub continue_after : TokenJob → ℕ → Exec Unit
  continue_after job count = if count == 0 then pure tt else do
    execute_at ← new_date env
    save_job env runner (
        verify_mint_values job.address job.chain_id
          (get_next_sequential_from_tokens_ids job.tokens_ids 10) execute_at)
    pure tt

  unfoldable pub verify_job : TokenJob → Exec Unit
  unfolding continue_after
  verify_job job = do
    count ← verify_mint_by_tokens_ids true (place_of job) job.tokens_ids
    now ← new_date env
    write runner (update_jobs (has_id job.id) (complete_job now))
    continue_after job count

  unfoldable pub give_up : TokenJob → Exec Unit → Exec Unit
  give_up job m = try_catch m (λ error. do
    now ← new_date env
    write repository (update_jobs (has_id job.id) (fail_job now))
    throw error)

  unfoldable pub run_job : Option TokenJob → Exec Unit
  run_job none = pure tt
  run_job (some job) = run_transaction false (do
    now ← new_date env
    write repository (update_jobs (has_id job.id) (start_job now))
    give_up job (verify_job job))

  unfoldable pub execute : ℕ → Exec Unit
  unfolding run_job
  execute job_id = do
    now ← new_date env
    job ← gets (λ w. find_one (is_ready verify_mint now job_id) w.db.jobs)
    run_job job

  unfoldable pub check_jobs_have_already_started_but_not_finished : Exec Unit
  check_jobs_have_already_started_but_not_finished = reset_frozen_jobs env verify_mint

  unfoldable pub schedule_next_jobs : Exec Unit
  schedule_next_jobs = schedule_jobs env verify_mint (some 5) execute_verify_mint_by_job

  -- `differenceInMinutes(new Date(last_verify_at), new Date()) >= 60`: full minutes from the second
  -- date to the first; `new Date(null)` is the date 0
  unfoldable pub is_selected : ℕ → ResyncItem → Bool
  is_selected now item = leb 60 ((or_else item.last_verify_at 0 - now) / 60000)

  unfoldable pub save_resync : List ResyncItem → Exec Unit
  save_resync [] = pure tt
  save_resync (contract ∷ contracts) = do
    execute_at ← new_date env
    save_job env repository (
        verify_mint_values (some contract.address) (some contract.chain_id)
          (get_next_sequential_from_tokens_ids (or_else contract.token_id 0 ∷ []) 10) execute_at)
    save_resync contracts

  -- `new Date()` is taken anew for each item; nothing is awaited between, so it is taken once here
  unfoldable pub resync_verify_mint : Exec Unit
  unfolding is_selected save_resync
  resync_verify_mint = do
    items ← gets (λ w. resync_items w.db)
    now ← new_date env
    save_resync (select (is_selected now) items)
