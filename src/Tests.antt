-- ===== src/Tests.antt =====
-- The theorems applied to a small state of the program.
mod State
mod Data
mod Services
mod Chain
mod Helpers
mod Pages
mod Columns
mod Process
mod Schema
use nft_tracker.Prelude.{
  Among, get_elem?, ◌⊎◌, or_else, ℕ, ◌+◌, ◌≡◌, ◌≢◌, inl, refl, text, none, some, true, List, [],
  ◌∷◌, ◌===◌, to_lower, any, select, IsSorted, length, All, ◌==◌, ◌≤◌, arith,
}
use nft_tracker.Uri.Hex.{from_hex-pad_start, length-pad_start, pad_start, to_hex}
use nft_tracker.Uri.{sanitize_uri, gateway}
use nft_tracker.Uri.Laws
use nft_tracker.Provider.{create, get_owner_of, get_token_uri, get_base_uri}
use nft_tracker.Store.Entities.{
  TokenJob, TokenJobStatus, TokenJobType, Token, verify_mint, fetch_metadata, fetch_owner_address,
  upload_asset, refresh_token,
}
use nft_tracker.Store.World.{World, rpc_error, message, execute_fetch_owner_address_by_job}
use nft_tracker.Store.Exec
use nft_tracker.Store.Exec.{ok, err, run_transaction}
use nft_tracker.Store.Exec.Keeps.{Holds, Holds-idle}
use nft_tracker.Store.Exec.Returns.{Returns}
use nft_tracker.Store.Tables.{new_date}
use nft_tracker.Store.Env.{Env, HttpReply, failure}
use nft_tracker.Jobs.Service.{RefreshParams, create_refresh_token_job}
use nft_tracker.Jobs.Service.Refresh
use nft_tracker.Jobs.Schedule
use nft_tracker.Jobs.Schedule.Due
use nft_tracker.Jobs.Schedule.Queue
use nft_tracker.Jobs.VerifyMint
use nft_tracker.Jobs.VerifyMint.Atomic
use nft_tracker.Jobs.VerifyMint.Ids
use nft_tracker.Jobs.VerifyMint.Resync
use nft_tracker.Jobs.FetchMetadata
use nft_tracker.Jobs.FetchMetadata.Payload
use nft_tracker.Jobs.FetchMetadata.Stale
use nft_tracker.Jobs.FetchOwnerAddress
use nft_tracker.Jobs.UploadAsset
use nft_tracker.Jobs.RefreshToken
use nft_tracker.Jobs.Outcome
use nft_tracker.Jobs.Progress
use nft_tracker.Jobs.Retry
use nft_tracker.Processor.{handle, execute_upload_asset, check_job_frozen}
use nft_tracker.Transfers.{TokenHistoryParams, create_history}
use nft_tracker.Transfers.Once
use nft_tracker.Events.{
  Events, get_latest_block_number_sync, save_last_block_number_sync, sync_block, is_block_queued,
}
use nft_tracker.Invariant.Program
use nft_tracker.Invariant.Validity
use nft_tracker.Invariant.Finished
use State.{
  contract_address, small_env, broken_env, busy_env, small_job, done_job, small_token, small_world,
  as_picked, small_refresh, small_transfer, next_transfer, small_events,
}

small_world-Holds : Holds Validity.IsValid small_world
small_world-Holds = Holds-idle Validity.IsValid small_world.db small_world (ground arith)

done_job-Holds : Holds (Finished.Rests done_job) small_world
done_job-Holds = Holds-idle (Finished.Rests done_job) small_world.db small_world (ground arith)

new_id : (tick : ℕ) → small_env.uuid tick ≢ done_job.id
new_id tick = omega arith

handle-IsValid_example :
    Holds Validity.IsValid (handle small_env as_picked (execute_upload_asset 4) small_world).1
handle-IsValid_example =
    Validity.handle-IsValid small_env as_picked (execute_upload_asset 4) small_world
      small_world-Holds

handle-Rests_example :
    Holds (Finished.Rests done_job) (handle small_env as_picked check_job_frozen small_world).1
handle-Rests_example =
    Finished.handle-Rests done_job (inl (inl refl)) small_env new_id as_picked check_job_frozen
      small_world done_job-Holds

execute-OnlyFailed_example :
    Atomic.OnlyFailed
      (small_job 1 verify_mint)
      small_world.db
      (VerifyMint.execute broken_env 1 small_world).1.db
unfolding VerifyMint.execute Exec.◌>>=◌ new_date run_transaction VerifyMint.give_up
    VerifyMint.verify_job VerifyMint.verify_mint_by_tokens_ids create
execute-OnlyFailed_example =
    Atomic.execute-OnlyFailed broken_env 1 small_world (small_job 1 verify_mint)
      (message (text "no provider")) refl refl

fetch_metadata-Retries_example :
    Retry.Retries busy_env
      (small_job 2 fetch_metadata)
      (FetchMetadata.execute busy_env 2 small_world).0
      (FetchMetadata.execute busy_env 2 small_world).1
fetch_metadata-Retries_example =
    Retry.fetch_metadata-Retries busy_env 2 small_world (small_job 2 fetch_metadata) (text "QmA") []
      refl refl

owner-completes_example :
    ((FetchOwnerAddress.execute small_env 3 small_world).0 ≡ ok tt)
    × Outcome.RowOf 3
        (λ j. j.status ≡ TokenJobStatus.completed)
        (FetchOwnerAddress.execute small_env 3 small_world).1.db
owner-completes_example =
    Progress.owner-completes small_env 3 small_world (small_job 3 fetch_owner_address) refl refl
      (λ tick. refl)

refresh-CompletedOrFailed_example :
    Outcome.CompletedOrFailed 5
      (RefreshToken.execute small_env 5 small_world).0
      (RefreshToken.execute small_env 5 small_world).1
refresh-CompletedOrFailed_example =
    Outcome.refresh-CompletedOrFailed small_env 5 small_world (small_job 5 refresh_token) refl refl

schedule_jobs-queues_example :
    let after =
      Schedule.schedule_jobs small_env fetch_owner_address
        (some 30)
        execute_fetch_owner_address_by_job
        small_world in
    (after.0 ≡ ok tt)
    × (after.1.db ≡ small_world.db)
    × All
        (λ j. Schedule.is_queued execute_fetch_owner_address_by_job j.id after.1.queue ≡ true)
        (Schedule.due_jobs fetch_owner_address
          (some 30)
          (small_env.clock small_world.ticks)
          small_world.db.jobs)
    × All (λ q. Schedule.is_queued q.name q.job_id after.1.queue ≡ true) small_world.queue
schedule_jobs-queues_example =
    Queue.schedule_jobs-queues small_env (λ tick ids n. refl) fetch_owner_address (some 30)
      execute_fetch_owner_address_by_job small_world

create_refresh_token_job_example :
    let first = create_refresh_token_job small_env small_refresh small_world in
    (job : TokenJob) × (first.0 ≡ ok job)
    × (create_refresh_token_job small_env small_refresh first.1 ≡ (ok job, first.1))
create_refresh_token_job_example =
    Refresh.create_refresh_token_job-create_refresh_token_job small_env small_refresh refl
      small_world

get_next_sequential_example :
    VerifyMint.get_next_sequential_from_tokens_ids (4 ∷ 9 ∷ 7 ∷ []) 10 ≡ Ids.consecutive 10 10
get_next_sequential_example =
    Ids.get_next_sequential_from_tokens_ids-consecutive 4 (9 ∷ 7 ∷ []) 10 (ground arith)

resync_verify_mint_idle_example :
    VerifyMint.resync_verify_mint small_env small_world ≡ (ok tt, record small_world { ticks = 1 })
resync_verify_mint_idle_example =
    Resync.resync_verify_mint_idle small_env small_world (ground arith)

small_transfer-SameKey : Once.SameKey small_transfer next_transfer
small_transfer-SameKey = record {
  address = refl;
  chain_id = refl;
  token_id = refl;
  transaction_hash = refl;
  transaction_index = refl;
}

create_history-create_history_example :
    let after = (create_history small_env small_transfer small_world).1 in
    create_history small_env next_transfer after ≡ (ok tt, after)
create_history-create_history_example =
    Once.create_history-create_history small_env small_transfer next_transfer small_transfer-SameKey
      small_world

-- a transfer is recorded, then a handler runs
Reach-IsValid_example :
    Holds Validity.IsValid
      (handle small_env as_picked
        (execute_upload_asset 4)
        (create_history small_env small_transfer small_world).1).1
Reach-IsValid_example =
    Program.Reach-IsValid {env = small_env} {picked = as_picked}
      (Program.then_
        (Program.then_ (Program.here {w = small_world}) (Program.records small_transfer))
        (Program.handles (execute_upload_asset 4)))
      small_world-Holds

due_jobs-IsDue_example :
    let js = small_world.db.jobs in
    let due = Schedule.due_jobs upload_asset (some 30) 7200000 js in
    All (Due.IsDue upload_asset 7200000) due
    × Due.InOrder due
    × (length due ≤ 30)
    × ((j : TokenJob)
        → Among j js
        → Due.IsDue upload_asset 7200000 j
        → Among j due ⊎ Due.LeftFor 30 j due)
due_jobs-IsDue_example = Due.due_jobs-IsDue upload_asset 30 7200000 small_world.db.jobs

abbrev small_key : FetchMetadata.TokenKey
small_key = record { address = some contract_address; chain_id = some 1; token_id = some 1 }

update_metadata_token-IsStale_example :
    let r = FetchMetadata.update_metadata_token small_env small_key none small_world in
    (r.0 ≡ ok tt)
    × (after : Token) × (get_elem? r.1.db.tokens 0 ≡ some after)
    × Stale.IsStale small_env [] small_token after
unfolding Payload.sanitize_payload
update_metadata_token-IsStale_example =
    Stale.update_metadata_token-IsStale small_env small_key none small_world 0 tt refl refl refl
