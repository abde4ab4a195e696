-- ===== src/X11/Backend.antt =====
-- src/x11_activity.rs: the operations of `X11ActivityBackend`.
use rusteyes.Common.{ℕ, Bool, true, false, Option, none, some, [], ◌∷◌, if◌then◌else◌}
use rusteyes.Common.Text.{Text, text}
use rusteyes.Common.Words.{millis}
use rusteyes.Common.Result.{Result, ok, err}
use rusteyes.Scheduler.{ScheduledBreak}
use rusteyes.Activity
use rusteyes.Activity.{
  ActivityPoller, queue_event, queue_sample_at, RuntimeEvent, wall_clock_elapsed,
  break_start_failed, break_finished, shutdown,
}
use rusteyes.X11.{
  poll_interval, overlay_tick_interval, X11OverlayError, X11ActivityError, query_idle, show,
  destroy, Display, ObservedTime, PendingBreakStart, ActiveBreak, BreakAdvance, X11ActivityBackend,
  Shown,
}
use rusteyes.X11.Break.{
  new_pending, advance_wait, retry_timed_out, new_active, advance, next_sample_delay_at,
}

-- `X11ActivityError::overlay`, `query_info` and `lock`.
abbrev pub overlay_error : X11OverlayError → X11ActivityError
overlay_error e = record { operation = text "manage X11 break overlay"; message = e.message }

abbrev pub query_info_error : Text → X11ActivityError
query_info_error message = record { operation = text "query X11 idle time"; message = message }

abbrev pub lock_error : Text → X11ActivityError
lock_error message = record { operation = text "request local lock"; message = message }

-- The backend that `connect` makes.
unfoldable pub connected : X11ActivityBackend
unfolding Activity.new
connected = record {
  poller = Activity.new poll_interval;
  active_break = none;
  pending_break = none;
  calls = [];
}

unfoldable pub queue : RuntimeEvent → X11ActivityBackend → X11ActivityBackend
unfolding queue_event
queue event x = record x { poller = queue_event event x.poller }

abbrev pub queue_if : Bool → RuntimeEvent → X11ActivityBackend → X11ActivityBackend
queue_if true event x = queue event x
queue_if false event x = x

-- `queue_backend_error`.
unfoldable pub queue_backend_error : X11ActivityError → X11ActivityBackend → X11ActivityBackend
unfolding queue
queue_backend_error error x = queue shutdown x

-- `next_sample_delay`.
abbrev delay_of : Option ActiveBreak → Option PendingBreakStart → ℕ → ℕ → ℕ
delay_of (some b) pending interval now = next_sample_delay_at b now
delay_of none (some p) interval now = overlay_tick_interval
delay_of none none interval now = interval

unfoldable pub next_sample_delay : ObservedTime → X11ActivityBackend → ℕ
unfolding next_sample_delay_at
next_sample_delay now x = delay_of x.active_break x.pending_break x.poller.poll_interval now.wall

-- What an operation on the active break leaves, whether it worked or not.
abbrev pub stored :
    {A : Type 0} → Shown × Result X11OverlayError A → X11ActivityBackend → X11ActivityBackend
stored (s, result) x = record x { active_break = some s.current; calls = s.calls }

module _ (display : Display) (time_max : ℕ) where
  -- `sample_activity_once`, on the answer to the query.
  unfoldable pub sampled :
      Result Text ℕ
      → ObservedTime
      → X11ActivityBackend
      → X11ActivityBackend × Result X11ActivityError (Unit {0})
  unfolding queue_sample_at
  sampled (err message) now x = (x, err (query_info_error message))
  sampled (ok idle_ms) now x =
      (record x { poller = (queue_sample_at (millis idle_ms) now.wall x.poller).0 }, ok tt)

  -- `sample_activity_once`.
  unfoldable pub sample_activity_once :
      ObservedTime → X11ActivityBackend → X11ActivityBackend × Result X11ActivityError (Unit {0})
  unfolding sampled
  sample_activity_once now x =
      sampled (display.idle x.calls) now (record x { calls = query_idle ∷ x.calls })

  -- The events of an advance.
  unfoldable pub queue_advance :
      Result X11OverlayError BreakAdvance
      → X11ActivityBackend
      → X11ActivityBackend × Result X11ActivityError (Unit {0})
  unfolding queue
  queue_advance (err error) x = (x, err (overlay_error error))
  queue_advance (ok a) x = (
    queue_if a.finished break_finished (
        queue_if a.lock_after_break_requested RuntimeEvent.lock_after_current_break
          (queue (wall_clock_elapsed a.elapsed) x)),
    ok tt,
  )

  -- `sample_overlay_once`, with the active break.
  unfoldable pub sample_overlay_once :
      ActiveBreak
      → ObservedTime
      → X11ActivityBackend
      → X11ActivityBackend × Result X11ActivityError (Unit {0})
  unfolding advance queue_advance
  sample_overlay_once active now x =
      let end = advance display now (record { current = active; calls = x.calls }) in
      queue_advance end.1 (stored end x)

  -- What the answer to `show` makes of a pending break.
  unfoldable pub after_retry :
      Result X11OverlayError (Unit {0})
      → PendingBreakStart
      → ObservedTime
      → X11ActivityBackend
      → X11ActivityBackend × Result X11ActivityError (Unit {0})
  unfolding new_active retry_timed_out queue
  after_retry (ok _) pending now x = (
    record x { active_break = some (new_active time_max now pending.scheduled_break.duration) },
    ok tt,
  )
  after_retry (err error) pending now x =
      if error.is_retryable_grab_failure
      then (
        if retry_timed_out pending
            then queue break_start_failed x
            else record x { pending_break = some pending },
        ok tt,
      )
      else (x, err (overlay_error error))

  -- `sample_pending_break_once`, with the pending break, which is taken first.
  unfoldable pub sample_pending_break_once :
      PendingBreakStart
      → ObservedTime
      → X11ActivityBackend
      → X11ActivityBackend × Result X11ActivityError (Unit {0})
  unfolding queue advance_wait after_retry
  sample_pending_break_once pending now x =
      let waited = advance_wait overlay_tick_interval pending in
      let taken =
        queue (wall_clock_elapsed overlay_tick_interval)
          (record x { pending_break = none; calls = show waited.scheduled_break ∷ x.calls }) in
      after_retry (display.overlay x.calls (show waited.scheduled_break)) waited now taken

  unfoldable pub sample_by :
      Option ActiveBreak
      → Option PendingBreakStart
      → ObservedTime
      → X11ActivityBackend
      → X11ActivityBackend × Result X11ActivityError (Unit {0})
  unfolding sample_overlay_once sample_pending_break_once sample_activity_once
  sample_by (some active) pending now x = sample_overlay_once active now x
  sample_by none (some pending) now x = sample_pending_break_once pending now x
  sample_by none none now x = sample_activity_once now x

  -- `sample_once`.
  unfoldable pub sample_once :
      ObservedTime → X11ActivityBackend → X11ActivityBackend × Result X11ActivityError (Unit {0})
  unfolding sample_by
  sample_once now x = sample_by x.active_break x.pending_break now x

  unfoldable pub destroyed :
      Option ActiveBreak
      → X11ActivityBackend
      → X11ActivityBackend × Result X11OverlayError (Unit {0})
  destroyed none x = (x, ok tt)
  destroyed (some active) x =
      (record x { calls = destroy ∷ x.calls }, display.overlay x.calls destroy)

  -- `clear_break`; its error is that of the overlay.
  unfoldable pub clear : X11ActivityBackend → X11ActivityBackend × Result X11OverlayError (Unit {0})
  unfolding destroyed
  clear x = destroyed x.active_break (record x { pending_break = none; active_break = none })

  unfoldable pub queue_result :
      Result X11OverlayError (Unit {0}) → X11ActivityBackend → X11ActivityBackend
  unfolding queue_backend_error
  queue_result (ok _) x = x
  queue_result (err error) x = queue_backend_error (overlay_error error) x

  -- What the answer to the first `show` makes of a break.
  unfoldable pub after_show :
      Result X11OverlayError (Unit {0})
      → ScheduledBreak
      → ObservedTime
      → X11ActivityBackend
      → X11ActivityBackend
  unfolding new_active new_pending queue_backend_error
  after_show (ok _) b now x = record x { active_break = some (new_active time_max now b.duration) }
  after_show (err error) b now x =
      if error.is_retryable_grab_failure
      then record x { pending_break = some (new_pending b) }
      else queue_backend_error (overlay_error error) x

  -- `start_break`, once the break before it is cleared.
  unfoldable pub start_cleared :
      Result X11OverlayError (Unit {0})
      → ScheduledBreak
      → ObservedTime
      → X11ActivityBackend
      → X11ActivityBackend
  unfolding queue_backend_error after_show
  start_cleared (err error) b now x = queue_backend_error (overlay_error error) x
  start_cleared (ok _) b now x =
      after_show (display.overlay x.calls (show b)) b now (record x { calls = show b ∷ x.calls })

  -- `start_break`.
  unfoldable pub start : ScheduledBreak → ObservedTime → X11ActivityBackend → X11ActivityBackend
  unfolding clear start_cleared
  start b now x = let (cleared, result) = clear x in start_cleared result b now cleared
