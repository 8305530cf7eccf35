-- ===== src/Health.antt =====
-- modules/health/health.controller.ts, modules/queue/queue.health.ts and modules/database/migration.health.ts.
-- The packages terminus and prom-client, the memory and the ping of the database are parameters.
-- The report on the chains is that of Evm.Health.
pub mod Live
use nft_tracker.Prelude.{
  ℕ, ◌+◌, ◌*◌, ◌<◌, ◌≡◌, Text, text, Option, none, some, Bool, true, false, not, List, [], ◌∷◌,
  ◌++◌, ◌==◌, ◌===◌, ltb, leb, map, or_else, is_empty, find_one, trim, upsert_row, if◌then◌else◌,
  All, any,
}
use nft_tracker.Store.World.{Error}
use nft_tracker.Store.Exec.{Result, ok, err}

-- What an indicator comes to: up or down, with a message, under its name; or an error of its own,
-- which is no report.
pub data Indicated : Type 0 where
  up : Text → Indicated
  down : Text → Text → Indicated
  raised : Error → Indicated

pub data CheckStatus : Type 0 where
  status_ok status_error shutting_down : CheckStatus

pub record Detail : Type 0 where
  pub key : Text
  pub is_up : Bool
  pub message : Text

pub record HealthCheckResult : Type 0 where
  pub status : CheckStatus
  pub details : List Detail
  -- the details of those that are down
  pub error : List Detail

-- `HealthCheckService.check` returns a result, or throws: an exception with a result as its response,
-- or another error.
pub data Checked : Type 0 where
  returned : HealthCheckResult → Checked
  rejected : HealthCheckResult → Checked
  failed : Error → Checked

pub record QueueInfo : Type 0 where
  pub name : Text
  pub is_ready : Bool
  pub is_paused : Bool
  pub counts : ℕ

-- `getQueueStatus`; the three questions to the queue may fail
unfoldable pub get_queue_status : Text → Option (Result QueueInfo) → Result QueueInfo
get_queue_status queue_name none =
    ok (record { name = queue_name; is_ready = false; is_paused = true; counts = 0 })
get_queue_status queue_name (some answer) = answer

queue_indicated : Text → Result QueueInfo → Indicated
queue_indicated key (err e) = raised e
queue_indicated key (ok info) =
    if info.is_ready
    then up (key ++ text "_queue")
    else down (key ++ text "_queue") (text "QueueHealthIndicator")

unfoldable pub queue_is_healthy : (Text → Option (Result QueueInfo)) → Text → Indicated
unfolding get_queue_status queue_indicated
queue_is_healthy queues key = queue_indicated key (get_queue_status key (queues key))

-- of the migrations that have not run
unfoldable pub migrations_are_run : Result (List Text) → Indicated
migrations_are_run (err e) = raised e
migrations_are_run (ok pending) =
    if is_empty pending
    then up (text "migrations")
    else down (text "migrations") (text "MigrationHealthIndicator")

-- `indicators`
pub record Indicators : Type 0 where
  pub migration : Indicated
  pub database : Indicated
  pub memory_heap : Indicated
  pub memory_rss_aloc : Indicated
  pub blockchain : Indicated
  pub webhook_queue : Indicated
  pub token_job_queue : Indicated
  pub evm_events_queue : Indicated

-- What the indicators ask.
pub record Probes : Type 0 where
  pub pending_migrations : Result (List Text)
  pub ping_check : Indicated
  pub check_heap : ℕ → Indicated
  pub check_rss : ℕ → Indicated
  pub is_blockchain_healthy : Indicated
  pub queues : Text → Option (Result QueueInfo)

-- `getMaxMemory`, of the option --max-old-space-size in megabytes, or 0, and the memory available
unfoldable pub get_max_memory : ℕ → ℕ → ℕ
get_max_memory max_old_space_size max_available_memory =
    let asked = max_old_space_size * 1024 * 1024 in
    let max_memory =
      if ltb 0 max_old_space_size
      then if leb asked max_available_memory then asked else max_available_memory
      else max_available_memory in
    if ltb 0 max_memory then max_memory else 256 * 1024 * 1024

unfoldable pub indicators : ℕ → ℕ → Probes → Indicators
unfolding queue_is_healthy migrations_are_run
indicators max_memory_heap max_memory_aloc p = record {
  migration = migrations_are_run p.pending_migrations;
  database = p.ping_check;
  memory_heap = p.check_heap max_memory_heap;
  memory_rss_aloc = p.check_rss max_memory_aloc;
  blockchain = p.is_blockchain_healthy;
  webhook_queue = queue_is_healthy p.queues (text "webhook");
  token_job_queue = queue_is_healthy p.queues (text "tokenJob");
  evm_events_queue = queue_is_healthy p.queues (text "evmEvents");
}

abbrev pub all_indicators : Indicators → List Indicated
all_indicators i =
    i.migration ∷ i.database ∷ i.memory_heap ∷ i.memory_rss_aloc ∷ i.blockchain ∷ i.webhook_queue
    ∷ i.token_job_queue ∷ i.evm_events_queue ∷ []

abbrev pub liveness_indicators : Indicators → List Indicated
liveness_indicators i = i.database ∷ i.blockchain ∷ i.token_job_queue ∷ i.evm_events_queue ∷ []

abbrev pub readiness_indicators : Indicators → List Indicated
readiness_indicators i = i.migration ∷ i.database ∷ i.memory_heap ∷ i.memory_rss_aloc ∷ []

-- `getFirstError`
unfoldable pub get_first_error : HealthCheckResult → Text
get_first_error r = first_of r.error
  where
    first_of : List Detail → Text
    first_of [] = text "Unknown error"
    first_of (d ∷ ds) =
        d.key
        ++ (text " is "
            ++ ((if d.is_up then text "up" else text "down") ++ (text ": " ++ d.message)))

-- `catch` of `wrapCheckIndicators`: a response with a status is the result. An error of another kind is
-- taken to have no response with a status.
wrapped : Checked → Result HealthCheckResult
wrapped (returned r) = ok r
wrapped (rejected r) = ok r
wrapped (failed e) = err (Error.message (text "Service is not healthy"))

unless_error : CheckStatus → Result (Unit {0})
unless_error status_error = err (Error.message (text "Service is not healthy due status error"))
unless_error status_ok = ok tt
unless_error shutting_down = ok tt

live : Result HealthCheckResult → Result (Unit {0})
unfolding unless_error
live (err e) = err e
live (ok r) = unless_error r.status

-- A status that is not `ok` is logged, and the request succeeds.
ready : Result HealthCheckResult → Result (Unit {0})
ready (err e) = err e
ready (ok r) = ok tt

-- the gauges by the names of the indicators
pub record Gauge : Type 0 where
  pub type : Text
  pub value : ℕ

abbrev pub set_gauge : Detail → List Gauge → List Gauge
set_gauge d =
    let value = if d.is_up then 1 else 0 in
    upsert_row (λ g. g.type === d.key) (λ g. record g { value = value })
      (record { type = d.key; value = value })

unfoldable pub set_gauges : List Detail → List Gauge → List Gauge
set_gauges [] gauges = gauges
set_gauges (d ∷ ds) gauges = set_gauges ds (set_gauge d gauges)

-- an error is logged
collected : Result HealthCheckResult → List Gauge → List Gauge
collected (err e) gauges = gauges
collected (ok r) gauges = set_gauges r.details gauges

module _ (check : List Indicated → Checked) where
  unfoldable pub wrap_check_indicators : List Indicated → Result HealthCheckResult
  unfolding wrapped
  wrap_check_indicators is = wrapped (check is)

  unfoldable pub get_liveness : Indicators → Result (Unit {0})
  unfolding live wrap_check_indicators
  get_liveness i = live (wrap_check_indicators (liveness_indicators i))

  unfoldable pub get_readiness : Indicators → Result (Unit {0})
  unfolding ready wrap_check_indicators
  get_readiness i = ready (wrap_check_indicators (readiness_indicators i))

  unfoldable pub collect_health_check_metrics : Indicators → List Gauge → List Gauge
  unfolding collected set_gauges wrap_check_indicators
  collect_health_check_metrics i gauges =
      collected (wrap_check_indicators (all_indicators i)) gauges
