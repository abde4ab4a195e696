-- ===== src/Macos.antt =====
-- src/macos_helper.rs: the backend for macOS, `MacOSHelperCore`. What the session with the helper
-- process and the lock command answer to a call is a function of the calls made before it, which are
-- kept in a log, the newest first.
pub mod Break
pub mod Core
pub mod Commands
pub mod Locked
pub mod Handoff
use rusteyes.Common.{ℕ, Bool, Option, List}
use rusteyes.Common.Text.{Text}
use rusteyes.Common.Words.{millis, secs}
use rusteyes.Common.Result.{Result}
use rusteyes.Activity.{ActivityPoller, BreakDeadline}
use rusteyes.Runtime.{BackendCommand}

abbrev pub activity_poll_interval : ℕ
activity_poll_interval = secs 1

abbrev pub overlay_tick_interval : ℕ
overlay_tick_interval = millis 500

-- `HelperActivitySample`, with the idle time of its `ActivitySample`.
pub record HelperActivitySample : Type 0 where
  pub idle_for : ℕ
  pub session_locked : Bool
  pub lock_after_break_requested : Bool

-- A call of `HelperSession` or of the lock command.
pub data HelperCall : Type 0 where
  poll_activity : HelperCall
  send_command : BackendCommand → HelperCall
  update_break : (remaining : ℕ) (lock_after : Bool) → HelperCall
  replace_break : (message : Text) (remaining : ℕ) (lock_after : Bool) → HelperCall
  start_lock_command : HelperCall

-- What the calls answer; an error is its text.
pub record Helper : Type 0 where
  pub activity : List HelperCall → Result Text HelperActivitySample
  pub answer : List HelperCall → HelperCall → Result Text (Unit {0})

-- `MacOSLock`.
pub data MacosLock : Type 0 where
  platform_default lock_command : MacosLock

-- `ObservedTime`.
pub record ObservedTime : Type 0 where
  pub wall : ℕ
  pub monotonic : ℕ

-- `DeferredFinish`.
pub record DeferredFinish : Type 0 where
  pub lock_after_break : Bool

-- `ActiveBreak`.
pub record ActiveBreak : Type 0 where
  pub deadline : BreakDeadline
  pub last_observed_at : ℕ
  pub lock_after_break : Bool
  pub deferred_finish : Option DeferredFinish

-- `ActiveBreakUpdate`.
pub record ActiveBreakUpdate : Type 0 where
  pub elapsed : ℕ
  pub remaining : ℕ
  pub lock_after_break : Bool
  pub lock_after_break_requested : Bool
  pub finished : Bool

-- `MacOSHelperCore`.
pub record MacosHelperCore : Type 0 where
  pub poller : ActivityPoller
  pub active_break : Option ActiveBreak
  pub lock : MacosLock
  pub calls : List HelperCall
