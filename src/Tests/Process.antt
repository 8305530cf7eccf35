-- ===== src/Tests/Process.antt =====
-- The theorems on the process, its settings and its reports, applied.
use nft_tracker.Prelude.{
  ◌≡◌, ◌↔◌, refl, Option, Text, text, none, some, true, false, List, [], ◌∷◌, any, join,
  if◌then◌else◌, arith,
}
use nft_tracker.Store.World.{Error}
use nft_tracker.Store.Exec.{Result, ok}
use nft_tracker.Shutdown.{Event, run, started}
use nft_tracker.Shutdown.Orderly
use nft_tracker.Shutdown.Orderly.{Phase}
use nft_tracker.LoggerContext.{begins, ends, run_calls}
use nft_tracker.LoggerContext.Overlap.{idle, run_calls-overlapped}
use nft_tracker.HttpException.{Exception, Answer, plain, status_of, catch}
use nft_tracker.HttpException.Answers.{catch_hides}
use nft_tracker.Percent.{decode_uri_component}
use nft_tracker.Settings.{split_clear}
use nft_tracker.Settings.Words.{Spelled, split_clear-join}
use nft_tracker.Health.{
  Indicated, up, down, status_ok, status_error, Checked, returned, rejected, failed, QueueInfo,
  Probes, indicators, get_liveness,
}
use nft_tracker.Health.Live.{
  is_raised, is_down, IsUp, IsReady, IsHealthCheck, not_raised, not_down, get_liveness-IsUp,
}

run-Phase_example : Phase (run (Event.sigterm ∷ Event.closed ∷ []) started)
run-Phase_example = Orderly.run-Phase (Event.sigterm ∷ Event.closed ∷ [])

run_calls-overlapped_example :
    run_calls
      (begins 1 (text "A:a") ∷ begins 2 (text "A:b") ∷ ends 1 ∷ ends 2 ∷ [])
      (record { context = text "A"; open_calls = [] })
    ≡ record { context = text "A:a"; open_calls = [] }
run_calls-overlapped_example =
    run_calls-overlapped 1 2 (text "A:a") (text "A:b") idle idle idle
      (record { context = text "A"; open_calls = [] }) (omega arith)

abbrev failure_of : Text → Exception
failure_of cause = record {
  name = text "Error";
  message = cause;
  http = some (record { status = 502; response = plain cause });
  axios = none;
}

catch_hides_example :
    (a a' : Answer) × (catch 7
        (λ n. some (text "BAD_GATEWAY"))
        (text "/a%20b")
        (failure_of (text "x"))
      ≡ ok a)
    × (catch 7 (λ n. some (text "BAD_GATEWAY")) (text "/a%20b") (failure_of (text "y")) ≡ ok a')
    × (a.status ≡ a'.status)
    × (a.body ≡ a'.body)
unfolding decode_uri_component status_of
catch_hides_example =
    catch_hides 7 (λ n. some (text "BAD_GATEWAY")) (text "/a%20b") (text "/a b")
      (failure_of (text "x")) (failure_of (text "y")) refl refl refl refl (omega arith) refl

abbrev small_check : List Indicated → Checked
small_check is =
    if any is_raised is
    then failed (Error.message [])
    else if any is_down is
    then rejected (record { status = status_error; details = []; error = [] })
    else returned (record { status = status_ok; details = []; error = [] })

small_check-IsHealthCheck : IsHealthCheck small_check
small_check-IsHealthCheck = record {
  all_up = λ is h. (
    record { status = status_ok; details = []; error = [] },
    rw (not_raised is h) (rw (not_down is h) refl),
    refl,
  );
  some_down = λ is h k.
      (record { status = status_error; details = []; error = [] }, rw h (rw k refl), refl);
  some_raised = λ is h. (Error.message [], rw h refl);
}

abbrev ready_queue : Text → Option (Result QueueInfo)
ready_queue name =
    some (ok (record { name = name; is_ready = true; is_paused = false; counts = 0 }))

-- the migrations have not run and the memory is short; the rest is up
abbrev small_probes : Probes
small_probes = record {
  pending_migrations = ok (text "AddIndex" ∷ []);
  ping_check = up (text "database");
  check_heap = λ n. down (text "memory_heap") (text "exceeded");
  check_rss = λ n. up (text "memory_rss_aloc");
  is_blockchain_healthy = up (text "blockchain");
  queues = ready_queue;
}

get_liveness-IsUp_example : (get_liveness small_check (indicators 0 0 small_probes) ≡ ok tt) ↔ (
    IsUp small_probes.ping_check
    × IsUp small_probes.is_blockchain_healthy
    × IsReady (small_probes.queues (text "tokenJob"))
    × IsReady (small_probes.queues (text "evmEvents")))
get_liveness-IsUp_example = get_liveness-IsUp small_check small_check-IsHealthCheck 0 0 small_probes

-- "137 , 1" as two words
abbrev first_word : Spelled
first_word = record {
  before = [];
  word = text "137";
  after = text " ";
  spaces_before = tt;
  spaces_after = (refl, tt);
  trimmed = (refl, refl);
  no_comma = (refl, (refl, (refl, tt)));
}

abbrev second_word : Spelled
second_word = record {
  before = text " ";
  word = text "1";
  after = [];
  spaces_before = (refl, tt);
  spaces_after = tt;
  trimmed = (refl, refl);
  no_comma = (refl, tt);
}

split_clear-join_example : split_clear (some (text "137 , 1")) ≡ text "137" ∷ text "1" ∷ []
unfolding join
split_clear-join_example = split_clear-join first_word (second_word ∷ [])
