-- ===== src/Jobs/Service.antt =====
-- modules/tokens/tokens-jobs.service.ts
pub mod Refresh
use nft_tracker.Prelude.{
  ℕ, Text, Option, none, some, Bool, false, List, [], ◌∷◌, ◌==◌, ◌&&◌, ◌||◌, any, find_one,
}
use nft_tracker.Store.Entities.{
  TokenJob, TokenJobType, TokenJobStatus, refresh_token, same_status, same_type,
}
use nft_tracker.Store.Exec.{Exec, repository, pure, gets, ◌>>=◌}
use nft_tracker.Store.Env.{Env}
use nft_tracker.Store.Tables.{JobValues, new_date, save_job}

pub record CreateJobParams : Type 0 where
  pub tokens_ids : List ℕ
  pub tokens_uris : Option (List Text)
  pub address : Option Text
  pub chain_id : Option ℕ
  pub type : TokenJobType
  pub asset_uri : Option Text
  pub execute_at : Option ℕ

pub record RefreshParams : Type 0 where
  pub token_id : ℕ
  pub address : Text
  pub chain_id : ℕ
  pub execute_at : Option ℕ

abbrev pub job_values : CreateJobParams → ℕ → JobValues
job_values p execute_at = record {
  address = p.address;
  chain_id = p.chain_id;
  tokens_ids = p.tokens_ids;
  tokens_uris = p.tokens_uris;
  asset_uri = p.asset_uri;
  execute_at = execute_at;
  type = p.type;
}

-- `status IN ('created', 'started')`
abbrev pub is_open : TokenJobStatus → Bool
is_open s = same_status s TokenJobStatus.created || same_status s TokenJobStatus.started

abbrev pub null_or_equal : Option ℕ → ℕ → Bool
null_or_equal none n = false
null_or_equal (some m) n = m == n

abbrev pub refresh_params : RefreshParams → CreateJobParams
refresh_params p = record {
  tokens_ids = p.token_id ∷ [];
  tokens_uris = some [];
  address = some p.address;
  chain_id = some p.chain_id;
  type = refresh_token;
  asset_uri = none;
  execute_at = p.execute_at;
}

module _ (env : Env) where
  unfoldable pub date_or_now : Option ℕ → Exec ℕ
  date_or_now (some date) = pure date
  date_or_now none = new_date env

  unfoldable pub create_job : CreateJobParams → Exec TokenJob
  unfolding date_or_now
  create_job p = do
    execute_at ← date_or_now p.execute_at
    save_job env repository (job_values p execute_at)

  abbrev ilike_address : Option Text → Text → Bool
  ilike_address none pattern = false
  ilike_address (some address) pattern = env.ilike address pattern

  -- the query of `createRefreshTokenJob`
  abbrev pub is_open_refresh : RefreshParams → TokenJob → Bool
  is_open_refresh p j =
      ilike_address j.address p.address
      && null_or_equal j.chain_id p.chain_id
      && is_open j.status
      && same_type j.type refresh_token
      && any (λ id. id == p.token_id) j.tokens_ids

  unfoldable pub create_unless_open : RefreshParams → Option TokenJob → Exec TokenJob
  create_unless_open p (some job) = pure job
  create_unless_open p none = create_job (refresh_params p)

  unfoldable pub create_refresh_token_job : RefreshParams → Exec TokenJob
  unfolding create_unless_open
  create_refresh_token_job p = do
    job ← gets (λ w. find_one (is_open_refresh p) w.db.jobs)
    create_unless_open p job
