-- ===== src/Macos/Core.antt =====
-- src/macos_helper.rs: the samples of `MacOSHelperCore` and the end of a break.
use rusteyes.Common.{ℕ, Bool, true, false, not, ◌&&◌, Option, none, some, [], ◌∷◌, if◌then◌else◌}
use rusteyes.Common.Text.{Text}
use rusteyes.Common.Result.{Result, ok, err}
use rusteyes.Activity
use rusteyes.Activity.{
  queue_event, queue_sample_at, RuntimeEvent, wall_clock_elapsed, break_finished, shutdown,
}
use rusteyes.Runtime.{finish_break}
use rusteyes.Macos.{
  activity_poll_interval, HelperActivitySample, HelperCall, poll_activity, send_command,
  update_break, start_lock_command, Helper, MacosLock, platform_default, lock_command, ObservedTime,
  ActiveBreak, ActiveBreakUpdate, MacosHelperCore,
}
use rusteyes.Macos.Break.{
  helper_lock_after, observe_elapsed_at, apply_sample, defer_finish, has_deferred_finish,
  next_sample_delay_at,
}

-- `MacOSHelperCore::new`.
unfoldable pub new : MacosLock → MacosHelperCore
unfolding Activity.new
new lock = record {
  poller = Activity.new activity_poll_interval;
  active_break = none;
  lock = lock;
  calls = [];
}

unfoldable pub queue : RuntimeEvent → MacosHelperCore → MacosHelperCore
unfolding queue_event
queue event x = record x { poller = queue_event event x.poller }

-- `queue_backend_error`.
unfoldable pub queue_backend_error : MacosHelperCore → MacosHelperCore
unfolding queue
queue_backend_error x = queue shutdown x

abbrev pub queue_if : Bool → RuntimeEvent → MacosHelperCore → MacosHelperCore
queue_if true event x = queue event x
queue_if false event x = x

-- `queue_overlay_runtime_events`.
unfoldable pub queue_overlay_runtime_events :
    ActiveBreakUpdate → Bool → MacosHelperCore → MacosHelperCore
unfolding queue
queue_overlay_runtime_events update queue_break_finished x =
    queue_if (update.finished && queue_break_finished) break_finished (
      queue_if update.lock_after_break_requested RuntimeEvent.lock_after_current_break
        (queue (wall_clock_elapsed update.elapsed) x))

abbrev pub delay_of : Option ActiveBreak → (poll_interval now : ℕ) → ℕ
delay_of (some b) poll_interval now = next_sample_delay_at b now
delay_of none poll_interval now = poll_interval

-- `next_sample_delay`.
unfoldable pub next_sample_delay : ObservedTime → MacosHelperCore → ℕ
unfolding next_sample_delay_at
next_sample_delay now x = delay_of x.active_break x.poller.poll_interval now.wall

abbrev pub Outcome : Type 0
Outcome = MacosHelperCore × Result Text (Unit {0})

abbrev pub and_then : Outcome → (MacosHelperCore → Outcome) → Outcome
and_then (x, ok _) next = next x
and_then (x, err error) next = (x, err error)

module _ (helper : Helper) where
  -- A call of the session, or of the lock command.
  abbrev pub call : HelperCall → MacosHelperCore → Outcome
  call c x = (record x { calls = c ∷ x.calls }, helper.answer x.calls c)

  -- `start_configured_lock_command`.
  unfoldable pub start_configured_lock_command : MacosLock → MacosHelperCore → Outcome
  start_configured_lock_command platform_default x = (x, ok tt)
  start_configured_lock_command lock_command x = call start_lock_command x

  unfoldable pub lock_if : Bool → MacosHelperCore → Outcome
  unfolding start_configured_lock_command
  lock_if true x = start_configured_lock_command x.lock x
  lock_if false x = (x, ok tt)

  unfoldable pub finish_taken : Option ActiveBreak → Bool → MacosHelperCore → Outcome
  unfolding helper_lock_after lock_if
  finish_taken none lock_after x = (x, ok tt)
  finish_taken (some b) lock_after x =
      and_then (call (send_command (finish_break (helper_lock_after x.lock lock_after))) x)
        (lock_if lock_after)

  -- `finish_active_break` and `finish_active_break_with_effective_lock`.
  unfoldable pub finish_active_break : Bool → MacosHelperCore → Outcome
  unfolding finish_taken
  finish_active_break lock_after x =
      finish_taken x.active_break lock_after (record x { active_break = none })

  -- `finish_deferred_active_break`; the deferred finish that it takes is not used.
  unfoldable pub finish_deferred_active_break : MacosHelperCore → Outcome
  unfolding finish_active_break
  finish_deferred_active_break x = finish_active_break false x

  -- `apply_overlay_sample` of a break whose finish was deferred.
  unfoldable pub apply_deferred :
      ActiveBreak → HelperActivitySample → ObservedTime → MacosHelperCore → Outcome
  unfolding observe_elapsed_at queue finish_deferred_active_break
  apply_deferred b sample observed_at x =
      let (observed, elapsed) = observe_elapsed_at observed_at.monotonic b in
      let y = record x { active_break = some observed } in
      if sample.session_locked
      then (queue (wall_clock_elapsed elapsed) y, ok tt)
      else and_then (finish_deferred_active_break y)
          (λ z. (queue break_finished (queue (wall_clock_elapsed elapsed) z), ok tt))

  -- What `apply_overlay_sample` does before it queues the events of an update.
  unfoldable pub apply_update : Bool → ActiveBreak → ActiveBreakUpdate → MacosHelperCore → Outcome
  unfolding defer_finish finish_active_break
  apply_update session_locked b update x =
      if update.finished
      then (if session_locked
          then (record x { active_break = some (defer_finish update.lock_after_break b) }, ok tt)
          else finish_active_break update.lock_after_break x)
      else call (update_break update.remaining update.lock_after_break) x

  -- `apply_overlay_sample` of a break that is not finished.
  unfoldable pub apply_running :
      ActiveBreak → HelperActivitySample → ObservedTime → MacosHelperCore → Outcome
  unfolding apply_sample apply_update queue_overlay_runtime_events
  apply_running b sample observed_at x =
      let (observed, update) = apply_sample sample observed_at b in
      and_then
        (apply_update sample.session_locked observed update
          (record x { active_break = some observed }))
        (λ y. (
          queue_overlay_runtime_events update (update.finished && not sample.session_locked) y,
          ok tt,
        ))

  unfoldable pub apply_to :
      Option ActiveBreak → HelperActivitySample → ObservedTime → MacosHelperCore → Outcome
  unfolding has_deferred_finish apply_deferred apply_running
  apply_to none sample observed_at x = (x, ok tt)
  apply_to (some b) sample observed_at x =
      if has_deferred_finish b
      then apply_deferred b sample observed_at x
      else apply_running b sample observed_at x

  -- `apply_overlay_sample`.
  unfoldable pub apply_overlay_sample :
      HelperActivitySample → ObservedTime → MacosHelperCore → Outcome
  unfolding apply_to
  apply_overlay_sample sample observed_at x = apply_to x.active_break sample observed_at x

  unfoldable pub apply_polled :
      Option ActiveBreak
      → Result Text HelperActivitySample
      → ObservedTime
      → MacosHelperCore
      → Outcome
  unfolding apply_overlay_sample queue_sample_at
  apply_polled active (err error) now x = (x, err error)
  apply_polled (some b) (ok sample) now x = apply_overlay_sample sample now x
  apply_polled none (ok sample) now x =
      (record x { poller = (queue_sample_at sample.idle_for now.wall x.poller).0 }, ok tt)

  -- `sample_once`, with `sample_overlay_once` and `sample_activity_once`, which both poll first.
  unfoldable pub sample_once : ObservedTime → MacosHelperCore → Outcome
  unfolding apply_polled
  sample_once now x =
      apply_polled x.active_break (helper.activity x.calls) now
        (record x { calls = poll_activity ∷ x.calls })
