-- ===== src/X11.antt =====
-- src/x11_activity.rs: the backend for X11. What the display, the overlay on it (src/x11_overlay.rs)
-- and the lock command answer to a call is a function of the calls made before it, which are kept in
-- a log, the newest first.
pub mod Break
pub mod Backend
pub mod Commands
pub mod Exclusive
pub mod Running
pub mod Retry
pub mod Finish
use rusteyes.Common.{ℕ, Bool, true, false, Option, none, some, List, [], ◌∷◌}
use rusteyes.Common.Text.{Text}
use rusteyes.Common.Words.{millis, secs}
use rusteyes.Common.Result.{Result, ok, err}
use rusteyes.Scheduler.{ScheduledBreak}
use rusteyes.Activity.{ActivityPoller, BreakDeadline}

abbrev pub poll_interval : ℕ
poll_interval = secs 1

abbrev pub overlay_tick_interval : ℕ
overlay_tick_interval = millis 500

abbrev pub break_start_retry_timeout : ℕ
break_start_retry_timeout = secs 10

-- `X11OverlayError`, with what `is_retryable_grab_failure` says of it.
pub record X11OverlayError : Type 0 where
  pub message : Text
  pub is_retryable_grab_failure : Bool

-- `X11ActivityError`.
pub record X11ActivityError : Type 0 where
  pub operation : Text
  pub message : Text

-- A call of the display, of the overlay or of the lock command.
pub data Call : Type 0 where
  query_idle : Call
  show : ScheduledBreak → Call
  handle_pending_events raise release_input destroy : Call
  update_message : Text → Call
  update_remaining : ℕ → Call
  set_lock_after_break : Bool → Call
  request_lock_after_break bell start_lock_command : Call

-- What the calls answer: the milliseconds since the last input, whether a lock was asked for on the
-- overlay, or only that they worked.
pub record Display : Type 0 where
  pub idle : List Call → Result Text ℕ
  pub lock_requested : List Call → Result X11OverlayError Bool
  pub overlay : List Call → Call → Result X11OverlayError (Unit {0})
  pub lock : List Call → Result Text (Unit {0})

-- `ObservedTime`.
pub record ObservedTime : Type 0 where
  pub wall : ℕ
  pub monotonic : ℕ

-- `PendingBreakStart`.
pub record PendingBreakStart : Type 0 where
  pub scheduled_break : ScheduledBreak
  pub waited : ℕ

-- `ActiveBreak`; its overlay is known by the calls.
pub record ActiveBreak : Type 0 where
  pub deadline : BreakDeadline
  pub last_observed_at : ℕ
  pub finish_reported : Bool

-- `BreakAdvance`.
pub record BreakAdvance : Type 0 where
  pub elapsed : ℕ
  pub remaining : ℕ
  pub finished : Bool
  pub lock_after_break_requested : Bool

pub record X11ActivityBackend : Type 0 where
  pub poller : ActivityPoller
  pub active_break : Option ActiveBreak
  pub pending_break : Option PendingBreakStart
  pub calls : List Call

-- An active break and the log of calls, as the operations on the break change them.
pub record Shown : Type 0 where
  pub current : ActiveBreak
  pub calls : List Call

-- What changes them, and may stop at an error with the changes made so far.
abbrev pub Action : Type 0 → Type 0
Action A = Shown → Shown × Result X11OverlayError A

abbrev continue :
    {A B : Type 0}
    → (A → Action B)
    → Shown × Result X11OverlayError A
    → Shown × Result X11OverlayError B
continue f (s, ok a) = f a s
continue f (s, err e) = (s, err e)

infixl 5 ◌>>=◌ ◌>>◌
abbrev pub ◌>>=◌ : {A B : Type 0} → Action A → (A → Action B) → Action B
◌>>=◌ m f s = continue f (m s)

abbrev pub ◌>>◌ : {B : Type 0} → Action (Unit {0}) → Action B → Action B
m >> k = m >>= λ _. k

abbrev pub done : {A : Type 0} → A → Action A
done a s = (s, ok a)

abbrev pub perform : Display → Call → Action (Unit {0})
perform display call s = (record s { calls = call ∷ s.calls }, display.overlay s.calls call)
