-- ===== src/X11/Break.antt =====
-- src/x11_activity.rs: `PendingBreakStart` and `ActiveBreak`. The largest time that the platform's
-- clock can hold is a parameter.
use rusteyes.Common.{ℕ, ◌-◌, min, Bool, true, false, not, ◌||◌, if◌then◌else◌, leb, ◌∷◌}
use rusteyes.Common.Text.{Text}
use rusteyes.Common.Words.{saturating_add}
use rusteyes.Common.Result.{ok}
use rusteyes.Scheduler.{ScheduledBreak}
use rusteyes.Activity.{starting_at, remaining_at, is_finished_at}
use rusteyes.X11.{
  overlay_tick_interval, break_start_retry_timeout, Display, handle_pending_events, raise,
  release_input, update_message, update_remaining, set_lock_after_break, request_lock_after_break,
  ObservedTime, PendingBreakStart, ActiveBreak, BreakAdvance, Action, ◌>>=◌, ◌>>◌, done, perform,
}

-- `PendingBreakStart::new`.
unfoldable pub new_pending : ScheduledBreak → PendingBreakStart
new_pending b = record { scheduled_break = b; waited = 0 }

-- `advance_wait`.
unfoldable pub advance_wait : ℕ → PendingBreakStart → PendingBreakStart
advance_wait elapsed p = record p { waited = saturating_add p.waited elapsed }

-- `retry_timed_out`.
unfoldable pub retry_timed_out : PendingBreakStart → Bool
retry_timed_out p = leb break_start_retry_timeout p.waited

-- `PendingBreakStart::request_lock_after_current_break`.
unfoldable pub request_pending_lock : PendingBreakStart → PendingBreakStart
request_pending_lock p = record p { scheduled_break = record p.scheduled_break { autolock = true } }

-- `PendingBreakStart::replace`.
unfoldable pub replace_pending : Text → ℕ → Bool → PendingBreakStart → PendingBreakStart
replace_pending message remaining lock_after p = record p {
  scheduled_break = record p.scheduled_break {
    message = message;
    duration = remaining;
    autolock = lock_after;
  };
}

module _ (time_max : ℕ) where
  -- `ActiveBreak::new`, at the time that it reads.
  unfoldable pub new_active : ObservedTime → ℕ → ActiveBreak
  unfolding starting_at
  new_active started_at duration = record {
    deadline = starting_at time_max started_at.wall duration;
    last_observed_at = started_at.monotonic;
    finish_reported = false;
  }

module _ (display : Display) where
  -- `overlay.handle_pending_events`: whether a lock was asked for.
  unfoldable pub poll_overlay : Action Bool
  poll_overlay s =
      (record s { calls = handle_pending_events ∷ s.calls }, display.lock_requested s.calls)

  -- `elapsed_since_last_observation`; `saturating_duration_since` stops at zero.
  unfoldable pub elapsed_since_last_observation : ℕ → Action ℕ
  elapsed_since_last_observation now s = (
    record s { current = record s.current { last_observed_at = now } },
    ok (now - s.current.last_observed_at),
  )

  -- `mark_finished_if_due`.
  unfoldable pub mark_finished_if_due : ℕ → Action Bool
  unfolding is_finished_at
  mark_finished_if_due now s =
      if s.current.finish_reported || not (is_finished_at s.current.deadline now)
      then (s, ok false)
      else (record s { current = record s.current { finish_reported = true } }, ok true)

  unfoldable pub remaining_now : ℕ → Action ℕ
  unfolding remaining_at
  remaining_now now s = (s, ok (remaining_at s.current.deadline now))

  -- `advance`.
  unfoldable pub advance : ObservedTime → Action BreakAdvance
  unfolding poll_overlay elapsed_since_last_observation remaining_now mark_finished_if_due
  advance now = do
    lock_after_break_requested ← poll_overlay
    perform display raise
    elapsed ← elapsed_since_last_observation now.monotonic
    remaining ← remaining_now now.wall
    finished ← mark_finished_if_due now.wall
    perform display (update_remaining remaining)
    done (record {
      elapsed = elapsed;
      remaining = remaining;
      finished = finished;
      lock_after_break_requested = lock_after_break_requested;
    })

  unfoldable pub restart : ActiveBreak → Action (Unit {0})
  restart b s = (record s { current = b }, ok tt)

  -- `ActiveBreak::replace`, at the time that it reads.
  unfoldable pub replace : (time_max : ℕ) → ObservedTime → Text → ℕ → Bool → Action (Unit {0})
  unfolding new_active restart
  replace time_max started_at message remaining lock_after = do
    restart (new_active time_max started_at remaining)
    perform display (update_message message)
    perform display (update_remaining remaining)
    perform display (set_lock_after_break lock_after)

  -- `ActiveBreak::prepare_lock_handoff`.
  unfoldable pub prepare_lock_handoff : Action (Unit {0})
  prepare_lock_handoff = do perform display raise; perform display release_input

  -- `ActiveBreak::request_lock_after_current_break`.
  unfoldable pub request_lock_after_current_break : Action (Unit {0})
  request_lock_after_current_break = perform display request_lock_after_break

-- `next_sample_delay_at`.
unfoldable pub next_sample_delay_at : ActiveBreak → ℕ → ℕ
unfolding remaining_at
next_sample_delay_at b now =
    if b.finish_reported
    then overlay_tick_interval
    else min overlay_tick_interval (remaining_at b.deadline now)
