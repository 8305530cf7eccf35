-- ===== src/Jobs/UploadAsset.antt =====
-- modules/tokens/tokens-jobs-upload-asset.service.ts. The request to Cloudinary is a question to
-- the outside: `upload` answers with the hash and the address that it stores under.
use nft_tracker.Prelude.{
  ℕ, Text, Option, none, some, Bool, true, false, not, List, [], ◌∷◌, ◌==◌, ◌===◌, ◌&&◌, any, map,
  select, is_some, find_one, if◌then◌else◌,
}
use nft_tracker.Store.Entities.{
  TokenJob, Token, TokenAsset, TokenAssetStatus, Contract, upload_asset,
}
use nft_tracker.Store.World.{Db, execute_upload_asset_by_job}
use nft_tracker.Store.Exec.{
  Exec, repository, pure, throw, gets, ask, ask_result, try_catch, write, ◌>>=◌, ◌>>◌,
}
use nft_tracker.Store.Env.{Env, Uploaded}
use nft_tracker.Store.Tables.{
  new_date, update_jobs, update_tokens, upsert_asset_row, has_id, is_ready, start_job, complete_job,
  fail_job,
}
use nft_tracker.Jobs.Service.{create_job}
use nft_tracker.Jobs.Schedule.{reset_frozen_jobs, schedule_jobs}

abbrev pub text_equals : Option Text → Text → Bool
text_equals none t = false
text_equals (some s) t = s === t

-- `{ imageRawUrl: … }`
abbrev pub shows : Text → Token → Bool
shows uri t = text_equals t.image_raw_url uri

abbrev set_uploaded : Text → Uploaded → TokenAsset → TokenAsset
set_uploaded raw_uri u a = record a {
  raw_url = raw_uri;
  public_id = u.public_id;
  url = some u.url;
  status = TokenAssetStatus.uploaded;
}

abbrev defined_or : Option ℕ → Option ℕ → Option ℕ
defined_or none old = old
defined_or (some new) old = some new

abbrev id_of : Option TokenAsset → Option ℕ
id_of none = none
id_of (some a) = some a.id

unfoldable pub set_asset : Option ℕ → Token → Token
set_asset asset_id t = record t {
  asset_id = defined_or asset_id t.asset_id;
  has_asset = is_some asset_id;
}

unfoldable pub set_asset_job : ℕ → Token → Token
set_asset_job job_id t = record t { asset_token_job_id = some job_id }

abbrev same_uri : Option Text → Option Text → Bool
same_uri none none = true
same_uri (some s) (some t) = s === t
same_uri _ _ = false

-- `GROUP BY tokens.image_raw_url`: each address once
pub distinct : List (Option Text) → List (Option Text)
distinct [] = []
distinct (uri ∷ uris) =
    let rest = distinct uris in if any (same_uri uri) rest then rest else uri ∷ rest

-- `upsert(…, ['publicId'])`
unfoldable pub upsert_uploaded : ℕ → Text → Uploaded → Db → Db
unfolding upsert_asset_row
upsert_uploaded id raw_uri u =
    upsert_asset_row (λ a. a.public_id === u.public_id) (set_uploaded raw_uri u)
      (set_uploaded raw_uri u (record {
        id = id;
        raw_url = raw_uri;
        public_id = u.public_id;
        url = none;
        status = TokenAssetStatus.created;
      }))

module _ (env : Env) where
  unfoldable pub update_asset_token : Text → Uploaded → Exec Unit
  update_asset_token raw_uri u = do
    id ← ask env.uuid
    write repository (upsert_uploaded id raw_uri u)
    asset ← gets (λ w. find_one (λ a. a.public_id === u.public_id) w.db.assets)
    write repository (update_tokens (shows raw_uri) (set_asset (id_of asset)))

  unfoldable pub upload_asset_and_update_token : Text → Exec Unit
  upload_asset_and_update_token asset_uri = do
    asset ← ask_result (λ t. env.upload t asset_uri)
    update_asset_token asset_uri asset

  unfoldable pub execute_started : TokenJob → Text → Exec Unit
  execute_started job asset_uri = do
    started_at ← new_date env
    write repository (update_jobs (has_id job.id) (start_job started_at))
    upload_asset_and_update_token asset_uri
    complete_at ← new_date env
    write repository (update_jobs (has_id job.id) (complete_job complete_at))

  unfoldable pub run_uri : TokenJob → Option Text → Exec Unit
  run_uri job none = pure tt
  run_uri job (some asset_uri) = try_catch (execute_started job asset_uri) (λ error. do
    now ← new_date env
    write repository (update_jobs (has_id job.id) (fail_job now))
    throw error)

  unfoldable pub run_job : Option TokenJob → Exec Unit
  unfolding run_uri
  run_job none = pure tt
  run_job (some job) = run_uri job job.asset_uri

  unfoldable pub execute : ℕ → Exec Unit
  unfolding run_job
  execute job_id = do
    now ← new_date env
    job ← gets (λ w. find_one (is_ready upload_asset now job_id) w.db.jobs)
    run_job job

  unfoldable pub check_jobs_have_already_started_but_not_finished : Exec Unit
  check_jobs_have_already_started_but_not_finished = reset_frozen_jobs env upload_asset

  -- the query of `checkTokensWithoutMediaCache`: a token waits for a copy of its media
  caches_media : Token → List Contract → Bool
  caches_media t contracts =
      any (λ c. c.chain_id == t.chain_id && env.ilike t.address c.address && c.cache_media)
        contracts

  unfoldable pub waits_for_media : List Contract → Token → Bool
  unfolding caches_media
  waits_for_media contracts t =
      not t.has_asset && caches_media t contracts && not (is_some t.asset_token_job_id)

  -- `{ assetUri: … }` of a find: a value that is null is no condition
  abbrev has_asset_uri : Option Text → TokenJob → Bool
  has_asset_uri none j = true
  has_asset_uri (some uri) j = text_equals j.asset_uri uri

  -- `{ imageRawUrl: … }` of an update: no row equals NULL
  abbrev pub shows_uri : Option Text → Token → Bool
  shows_uri none t = false
  shows_uri (some uri) t = shows uri t

  unfoldable pub cache_or_create : Option Text → Option TokenJob → Exec Unit
  cache_or_create uri (some job) =
      write repository (update_tokens (shows_uri uri) (set_asset_job job.id))
  cache_or_create uri none = do
    now ← new_date env
    create_job env (record {
      tokens_ids = [];
      tokens_uris = some [];
      address = none;
      chain_id = none;
      type = upload_asset;
      asset_uri = uri;
      execute_at = some now;
    })
    pure tt

  unfoldable pub cache_all : List (Option Text) → Exec Unit
  cache_all [] = pure tt
  cache_all (uri ∷ uris) = do
    already_exist ← gets (λ w. find_one (has_asset_uri uri) w.db.jobs)
    cache_or_create uri already_exist
    cache_all uris

  unfoldable pub check_tokens_without_media_cache : Exec Unit
  unfolding cache_all cache_or_create
  check_tokens_without_media_cache = do
    items ← gets (λ w.
        distinct (map (λ t. t.image_raw_url) (select (waits_for_media w.db.contracts) w.db.tokens)))
    cache_all items

  unfoldable pub schedule_next_jobs : Exec Unit
  schedule_next_jobs = schedule_jobs env upload_asset none execute_upload_asset_by_job
