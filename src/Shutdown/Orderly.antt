-- ===== src/Shutdown/Orderly.antt =====
-- How a process ends: `app.close()` runs once at most.
use nft_tracker.Prelude.{
  ℕ, ◌≡◌, refl, ap, ◌∙◌, ◌⊎◌, inl, inr, none, some, Bool, true, false, List, [], ◌∷◌, ◌++◌, is_some,
}
use nft_tracker.Shutdown.{
  Process, Event, terminate, on_closed, on_close_failed, on_timeout, on_error, react, handle_event,
  run, started,
}

-- A process runs; or it was told to end and closes its parts, once; or it has ended after that, with
-- the code of a signal, or with 1.
pub data Phase : Process → Type 0 where
  running : Phase started
  closing_down : Phase (record { timer = true; closing = some 0; closes = 1; exited = none })
  ended :
      (timer : Bool) (code : ℕ)
      → (code ≡ 0) ⊎ (code ≡ 1)
      → Phase (record { timer = timer; closing = some 0; closes = 1; exited = some code })

Phase-handle_event : (e : Event) {p : Process} → Phase p → Phase (handle_event e p)
unfolding handle_event react terminate on_closed on_close_failed on_timeout on_error
Phase-handle_event e (ended timer code h) = ended timer code h
Phase-handle_event Event.sigterm running = closing_down
Phase-handle_event Event.sigint running = closing_down
Phase-handle_event Event.closed running = running
Phase-handle_event Event.close_failed running = running
Phase-handle_event Event.timed_out running = running
Phase-handle_event (Event.uncaught_exception true) running = running
Phase-handle_event (Event.uncaught_exception false) running = running
Phase-handle_event (Event.unhandled_rejection true) running = running
Phase-handle_event (Event.unhandled_rejection false) running = running
Phase-handle_event Event.sigterm closing_down = closing_down
Phase-handle_event Event.sigint closing_down = closing_down
Phase-handle_event Event.closed closing_down = ended true 0 (inl refl)
Phase-handle_event Event.close_failed closing_down = ended false 1 (inr refl)
Phase-handle_event Event.timed_out closing_down = ended true 1 (inr refl)
Phase-handle_event (Event.uncaught_exception true) closing_down = closing_down
Phase-handle_event (Event.uncaught_exception false) closing_down = closing_down
Phase-handle_event (Event.unhandled_rejection true) closing_down = closing_down
Phase-handle_event (Event.unhandled_rejection false) closing_down = closing_down

Phase-run : (es : List Event) {p : Process} → Phase p → Phase (run es p)
unfolding run
Phase-run [] h = h
Phase-run (e ∷ es) h = Phase-run es (Phase-handle_event e h)

-- Whatever of these events happens to a process once it is started, and in whatever order, it closes
-- its parts once at most, and ends only after it has begun to, with the code 0 of the signals or with
-- 1.
pub run-Phase : (es : List Event) → Phase (run es started)
run-Phase es = Phase-run es running

run-append : (es fs : List Event) (p : Process) → run (es ++ fs) p ≡ run fs (run es p)
unfolding run
run-append [] fs p = refl
run-append (e ∷ es) fs p = run-append es fs (handle_event e p)

signalled :
    {p : Process} → Phase p → is_some (run (Event.sigterm ∷ Event.timed_out ∷ []) p).exited ≡ true
unfolding run handle_event react terminate on_timeout
signalled running = refl
signalled closing_down = refl
signalled (ended timer code h) = refl

-- Whatever has happened before, a process that is told to end has ended when the time for it is up.
run-sigterm :
    (es : List Event)
    → is_some (run (es ++ Event.sigterm ∷ Event.timed_out ∷ []) started).exited ≡ true
run-sigterm es =
    ap (λ p. is_some p.exited) (run-append es (Event.sigterm ∷ Event.timed_out ∷ []) started)
    ∙ signalled (run-Phase es)
