-- ===== src/Shutdown.antt =====
-- common/helpers/app.helpers.ts (`gracefulShutdownFn`) and what main.ts binds it to. The process ends
-- with `process.exit`; nothing runs after that. `app.close()` answers later, as an event.
pub mod Orderly
use nft_tracker.Prelude.{
  ℕ, zero, suc, ◌+◌, Text, text, Option, none, some, Bool, true, false, List, [], ◌∷◌, is_some,
  if◌then◌else◌,
}

pub record Process : Type 0 where
  -- whether `shutdownTimer` is set
  pub timer : Bool
  -- the code that the call of `app.close()` in flight is to exit with
  pub closing : Option ℕ
  -- how often `app.close()` was called
  pub closes : ℕ
  -- the code that the process ended with
  pub exited : Option ℕ

-- What reaches the process: the events that main.ts listens to, and what `gracefulShutdownFn` waits
-- for. An uncaught error comes with whether its message names ECONNREFUSED, an unhandled rejection
-- with whether its reason is an error of TypeORM. A thrown null, of which the first listener reads
-- the message and throws itself, is no event here.
pub data Event : Type 0 where
  sigterm sigint closed close_failed timed_out : Event
  uncaught_exception unhandled_rejection : Bool → Event

exit : ℕ → Process → Process
exit code p = record p { exited = some code }

-- the function that `exitHandler(code, reason)` returns
unfoldable pub terminate : ℕ → Process → Process
terminate code p =
    if p.timer then p else record p { closing = some code; closes = p.closes + 1; timer = true }

-- `app.close().then`
unfoldable pub on_closed : Option ℕ → Process → Process
unfolding exit
on_closed none p = p
on_closed (some code) p = exit code p

-- `app.close().catch`
unfoldable pub on_close_failed : Option ℕ → Process → Process
unfolding exit
on_close_failed none p = p
on_close_failed (some code) p = exit 1 (record p { timer = false })

-- `setTimeout`
unfoldable pub on_timeout : Bool → Process → Process
unfolding exit
on_timeout true p = exit 1 p
on_timeout false p = p

-- The listeners to errors call `exitHandler(1, reason)` and leave what it returns alone.
unfoldable pub on_error : Bool → (Process → Process) → Process → Process
on_error true exit_handler p = p
on_error false exit_handler p = p

unfoldable pub react : Event → Process → Process
unfolding on_error
react Event.sigterm p = terminate 0 p
react Event.sigint p = terminate 0 p
react Event.closed p = on_closed p.closing p
react Event.close_failed p = on_close_failed p.closing p
react Event.timed_out p = on_timeout p.timer p
react (Event.uncaught_exception refused) p = on_error refused (terminate 1) p
react (Event.unhandled_rejection of_typeorm) p = on_error of_typeorm (terminate 1) p

unfoldable pub handle_event : Event → Process → Process
handle_event e p = if is_some p.exited then p else react e p

unfoldable pub run : List Event → Process → Process
run [] p = p
run (e ∷ es) p = run es (handle_event e p)

-- `bootstrap` is done: the handlers are bound and nothing has happened
abbrev pub started : Process
started = record { timer = false; closing = none; closes = 0; exited = none }
