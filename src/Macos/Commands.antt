-- ===== src/Macos/Commands.antt =====
-- src/macos_helper.rs: the commands of `MacOSHelperCore`.
use rusteyes.Common.{ℕ, Bool, Option, none, some}
use rusteyes.Common.Text.{Text}
use rusteyes.Common.Result.{ok, err}
use rusteyes.Activity.{remaining_at}
use rusteyes.Scheduler.{ScheduledBreak}
use rusteyes.Runtime.{
  BackendCommand, start_break, replace_active_break, finish_break, request_lock_after_current_break,
  clear_break,
}
use rusteyes.Macos.{
  send_command, update_break, replace_break, Helper, ObservedTime, ActiveBreak, MacosHelperCore,
}
use rusteyes.Macos.Break
use rusteyes.Macos.Break.{new_at, request_lock_after_break}
use rusteyes.Macos.Core.{Outcome, call, queue_backend_error, finish_active_break}

-- The error of an operation is queued as a shutdown.
unfoldable pub queue_failure : Outcome → MacosHelperCore
unfolding queue_backend_error
queue_failure (x, ok _) = x
queue_failure (x, err error) = queue_backend_error x

-- What `send_backend_command` answers decides whether the core changes too.
abbrev pub if_sent : (MacosHelperCore → MacosHelperCore) → Outcome → MacosHelperCore
if_sent change (x, ok _) = change x
if_sent change (x, err error) = queue_backend_error x

module _ (helper : Helper) (time_max : ℕ) where
  -- `start_break`.
  unfoldable pub start : ScheduledBreak → ObservedTime → MacosHelperCore → MacosHelperCore
  unfolding new_at queue_backend_error
  start b now x =
      if_sent (λ y. record y { active_break = some (new_at time_max b.duration b.autolock now) })
        (call helper (send_command (start_break b)) x)

  -- `finish_break`.
  unfoldable pub finish : Bool → MacosHelperCore → MacosHelperCore
  unfolding finish_active_break queue_failure
  finish lock_after x = queue_failure (finish_active_break helper lock_after x)

  -- `clear_break`.
  unfoldable pub clear : MacosHelperCore → MacosHelperCore
  unfolding queue_backend_error
  clear x =
      if_sent (λ y. record y { active_break = none }) (call helper (send_command clear_break) x)

  unfoldable pub request_lock_with :
      Option ActiveBreak → ObservedTime → MacosHelperCore → MacosHelperCore
  unfolding request_lock_after_break queue_failure remaining_at
  request_lock_with none now x = x
  request_lock_with (some b) now x =
      let asked = request_lock_after_break b in
      queue_failure (
        call helper (update_break (remaining_at asked.deadline now.wall) asked.lock_after_break)
          (record x { active_break = some asked }))

  -- `request_lock_after_current_break`.
  unfoldable pub request_lock : ObservedTime → MacosHelperCore → MacosHelperCore
  unfolding request_lock_with
  request_lock now x = request_lock_with x.active_break now x

  unfoldable pub replace_with :
      Option ActiveBreak → Text → ℕ → Bool → ObservedTime → MacosHelperCore → MacosHelperCore
  unfolding Break.replace queue_failure
  replace_with none message remaining lock_after now x = x
  replace_with (some b) message remaining lock_after now x =
      let replaced = Break.replace time_max remaining lock_after now b in
      queue_failure (
        call helper (replace_break message remaining replaced.lock_after_break)
          (record x { active_break = some replaced }))

  -- `replace_active_break`.
  unfoldable pub replace : Text → ℕ → Bool → ObservedTime → MacosHelperCore → MacosHelperCore
  unfolding replace_with
  replace message remaining lock_after now x =
      replace_with x.active_break message remaining lock_after now x

  -- `handle_command`.
  unfoldable pub handle_command : BackendCommand → ObservedTime → MacosHelperCore → MacosHelperCore
  unfolding start replace finish request_lock clear
  handle_command (start_break b) now x = start b now x
  handle_command (replace_active_break message remaining lock_after) now x =
      replace message remaining lock_after now x
  handle_command (finish_break lock_after) now x = finish lock_after x
  handle_command request_lock_after_current_break now x = request_lock now x
  handle_command clear_break now x = clear x
