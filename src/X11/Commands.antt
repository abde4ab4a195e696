-- ===== src/X11/Commands.antt =====
-- src/x11_activity.rs: the commands of `X11ActivityBackend` and the loop of its thread.
use rusteyes.Common.{ℕ, Bool, true, false, Option, none, some, List, [], ◌∷◌, ◌++◌}
use rusteyes.Common.Text.{Text}
use rusteyes.Common.Result.{Result, ok, err}
use rusteyes.Activity.{RuntimeEvent, shutdown}
use rusteyes.Runtime.{
  BackendCommand, start_break, replace_active_break, finish_break, request_lock_after_current_break,
  clear_break,
}
use rusteyes.X11.{
  X11OverlayError, X11ActivityError, bell, start_lock_command, Display, ObservedTime,
  PendingBreakStart, ActiveBreak, X11ActivityBackend,
}
use rusteyes.X11.Break
use rusteyes.X11.Break.{request_pending_lock, replace_pending, prepare_lock_handoff}
use rusteyes.X11.Backend.{
  overlay_error, lock_error, queue_backend_error, stored, sample_once, clear, queue_result, start,
}

abbrev pub pending_map :
    (PendingBreakStart → PendingBreakStart) → X11ActivityBackend → X11ActivityBackend
pending_map f x = record x {
  pending_break = elim (x.pending_break) [ none ↦ none | some pending ↦ some (f pending) ];
}

-- `BackendWait`, with the time that the operation reads.
pub data BackendWait : Type 0 where
  command : BackendCommand → ObservedTime → BackendWait
  timeout : ObservedTime → BackendWait
  disconnected : BackendWait

-- The loop goes on from what a round leaves.
abbrev pub while_running :
    List RuntimeEvent × Option X11ActivityBackend
    → (List RuntimeEvent → X11ActivityBackend → List RuntimeEvent × Option X11ActivityBackend)
    → List RuntimeEvent × Option X11ActivityBackend
while_running (sent, none) next = (sent, none)
while_running (sent, some x) next = next sent x

module _ (display : Display) (time_max : ℕ) where
  -- The lock command, once the hand-off is prepared.
  unfoldable pub run_lock_command :
      Result X11OverlayError (Unit {0})
      → X11ActivityBackend
      → X11ActivityBackend × Option X11ActivityError
  run_lock_command (err error) x = (x, some (overlay_error error))
  run_lock_command (ok _) x = (
    record x { calls = start_lock_command ∷ x.calls },
    elim (display.lock x.calls) [ ok _ ↦ none | err message ↦ some (lock_error message) ],
  )

  -- `prepare_lock_handoff` and the lock command, on the active break.
  unfoldable pub lock_handoff :
      ActiveBreak → X11ActivityBackend → X11ActivityBackend × Option X11ActivityError
  unfolding prepare_lock_handoff run_lock_command
  lock_handoff active x =
      let end = prepare_lock_handoff display (record { current = active; calls = x.calls }) in
      run_lock_command end.1 (stored end x)

  unfoldable pub first_error :
      Option X11ActivityError
      → Result X11OverlayError (Unit {0})
      → X11ActivityBackend
      → X11ActivityBackend
  unfolding queue_backend_error queue_result
  first_error (some error) cleared x = queue_backend_error error x
  first_error none cleared x = queue_result display time_max cleared x

  -- `finish_break` from the hand-off's error, if there is one.
  unfoldable pub finish_cleared : X11ActivityBackend × Option X11ActivityError → X11ActivityBackend
  unfolding clear first_error
  finish_cleared (x, lock_result) =
      let (cleared, result) = clear display time_max x in first_error lock_result result cleared

  abbrev ring_bell : X11ActivityBackend → X11ActivityBackend
  ring_bell x = record x { calls = bell ∷ x.calls }

  unfoldable pub finish_with : Option ActiveBreak → Bool → X11ActivityBackend → X11ActivityBackend
  unfolding lock_handoff finish_cleared
  finish_with none lock_after x = finish_cleared (x, none)
  finish_with (some active) false x = finish_cleared (ring_bell x, none)
  finish_with (some active) true x = finish_cleared (lock_handoff active (ring_bell x))

  -- `finish_break`. The bell's error is only traced.
  unfoldable pub finish : Bool → X11ActivityBackend → X11ActivityBackend
  unfolding finish_with
  finish lock_after x = finish_with x.active_break lock_after x

  unfoldable pub request_lock_with : Option ActiveBreak → X11ActivityBackend → X11ActivityBackend
  unfolding request_pending_lock queue_result Break.request_lock_after_current_break
  request_lock_with none x = pending_map request_pending_lock x
  request_lock_with (some active) x =
      let end =
        Break.request_lock_after_current_break display
          (record { current = active; calls = x.calls }) in
      queue_result display time_max end.1 (stored end x)

  -- `request_lock_after_current_break`, with the error that `handle_command` queues.
  unfoldable pub request_lock : X11ActivityBackend → X11ActivityBackend
  unfolding request_lock_with
  request_lock x = request_lock_with x.active_break x

  unfoldable pub replace_with :
      Option ActiveBreak → Text → ℕ → Bool → ObservedTime → X11ActivityBackend → X11ActivityBackend
  unfolding replace_pending queue_result Break.replace
  replace_with none message remaining lock_after now x =
      pending_map (replace_pending message remaining lock_after) x
  replace_with (some active) message remaining lock_after now x =
      let end =
        Break.replace display time_max now message remaining lock_after
          (record { current = active; calls = x.calls }) in
      queue_result display time_max end.1 (stored end x)

  -- `replace_active_break`, with the error that `handle_command` queues.
  unfoldable pub replace : Text → ℕ → Bool → ObservedTime → X11ActivityBackend → X11ActivityBackend
  unfolding replace_with
  replace message remaining lock_after now x =
      replace_with x.active_break message remaining lock_after now x

  -- `handle_command`.
  unfoldable pub handle_command :
      BackendCommand → ObservedTime → X11ActivityBackend → X11ActivityBackend
  unfolding start replace finish request_lock clear queue_result
  handle_command (start_break b) now x = start display time_max b now x
  handle_command (replace_active_break message remaining lock_after) now x =
      replace message remaining lock_after now x
  handle_command (finish_break lock_after) now x = finish lock_after x
  handle_command request_lock_after_current_break now x = request_lock x
  handle_command clear_break now x =
      let (cleared, result) = clear display time_max x in
      queue_result display time_max result cleared

  unfoldable pub after_sample :
      X11ActivityBackend × Result X11ActivityError (Unit {0})
      → List RuntimeEvent
      → List RuntimeEvent × Option X11ActivityBackend
  after_sample (x, ok _) sent = (sent, some x)
  after_sample (x, err error) sent = (sent ++ shutdown ∷ [], none)

  -- One round of `run_actor`: the events that wait are sent, and then one wait is handled; the loop
  -- has returned if there is no backend left.
  unfoldable pub run_round :
      BackendWait
      → List RuntimeEvent
      → X11ActivityBackend
      → List RuntimeEvent × Option X11ActivityBackend
  unfolding handle_command sample_once after_sample
  run_round wait sent x =
      let all = sent ++ x.poller.events in
      let drained = record x { poller = record x.poller { events = [] } } in
      elim wait [
        | command c now ↦ (all, some (handle_command c now drained))
        | timeout now ↦ after_sample (sample_once display time_max now drained) all
        | disconnected ↦ (all, none)
      ]

  -- `run_actor`, over what it waits for: the events sent, and the backend, if the loop still runs.
  unfoldable pub run_actor :
      List BackendWait
      → List RuntimeEvent
      → X11ActivityBackend
      → List RuntimeEvent × Option X11ActivityBackend
  unfolding run_round
  run_actor [] sent x = (sent, some x)
  run_actor (wait ∷ waits) sent x = while_running (run_round wait sent x) (run_actor waits)
