-- ===== src/Runtime/NoEcho.antt =====
-- src/runtime.rs: what the runtime sends to its peers when it hears from one.
use rusteyes.Common.{
  ℕ, ◌≡◌, ◌≢◌, refl, ◌∙◌, Bool, true, false, Option, none, some, Bool-cases, inl, inr, ◌==◌,
}
use rusteyes.Protocol.{PeerId, SyncActiveBreak, SyncEvent, SyncSchedulerPosition}
use rusteyes.Protocol
use rusteyes.Scheduler.{BreakOrigin, ScheduledBreak}
use rusteyes.Scheduler.Operations
use rusteyes.Scheduler.Operations.{has_break, is_pending}
use rusteyes.Runtime.{
  BackendCommand, CurrentBreakState, DaemonRuntime, DisableMode, SyncedBreakStart, suppress, World,
}
use rusteyes.Runtime.Display.{clear_pre_break_notice, update_availability, update_status_display}
use rusteyes.Runtime.Breaks.{
  broadcast_if_needed, command_and_broadcast, finish_scheduler, handle_command, lock_after_current,
  remaining_break_duration, request_lock, start_break_at, show_break, update_if,
}
use rusteyes.Runtime.Sync.{
  apply_active, apply_against, apply_synced_break_start, apply_synced_scheduler_state,
  apply_with_origin, break_origin_from_sync, merge_if_replaced, merge_if_started, merge_position,
  replace_current_break, replace_with_synced, start_synced_break, synced_break_replaces_current,
}
use rusteyes.Runtime.Handlers.{
  apply_scheduler_reset, disable_and_broadcast, disable_for, disable_scheduler,
  disable_until_restart, enable, handle_sync_event,
}

-- Nothing more has been sent to peers.
abbrev pub IsQuiet : DaemonRuntime → DaemonRuntime → Type 0
IsQuiet r t = t.sync_sends ≡ r.sync_sends

module _ (w : World) where
  update_if-IsQuiet : (changed : Bool) (r : DaemonRuntime) → IsQuiet r (update_if changed w r)
  unfolding update_if update_status_display update_availability
  update_if-IsQuiet true r = refl
  update_if-IsQuiet false r = refl

  finish_scheduler-IsQuiet : (r : DaemonRuntime) → IsQuiet r (finish_scheduler w r)
  unfolding finish_scheduler
  finish_scheduler-IsQuiet r =
      update_if-IsQuiet (Operations.finish_break r.scheduler).1
        (record r { scheduler = (Operations.finish_break r.scheduler).0 })

  command_and_broadcast-IsQuiet :
      (command : BackendCommand) (event : SyncEvent) (r : DaemonRuntime)
      → IsQuiet r (command_and_broadcast w command suppress event r).0
  unfolding command_and_broadcast handle_command broadcast_if_needed
  command_and_broadcast-IsQuiet command event r = elim (Bool-cases w.backend_alive) [
    | inl alive ↦ rw alive refl
    | inr gone ↦ rw gone refl
  ]

  start_break_at-IsQuiet :
      (b : ScheduledBreak) (started_at_ms : ℕ) (r : DaemonRuntime)
      → IsQuiet r (start_break_at w b started_at_ms suppress r).0
  unfolding start_break_at show_break clear_pre_break_notice
  start_break_at-IsQuiet b started_at_ms r =
      elim (Bool-cases (remaining_break_duration w started_at_ms b.duration == 0)) [
        | inl over ↦ rw over (finish_scheduler-IsQuiet r)
        | inr left ↦ rw left (search command_and_broadcast-IsQuiet)
      ]

  lock_after_current-IsQuiet :
      (current : Option CurrentBreakState) (r : DaemonRuntime)
      → IsQuiet r (lock_after_current w suppress current r).0
  unfolding lock_after_current
  lock_after_current-IsQuiet none r = refl
  lock_after_current-IsQuiet (some current) r = elim (Bool-cases current.lock_after) [
    | inl locked ↦ rw locked refl
    | inr unlocked ↦ rw unlocked (search command_and_broadcast-IsQuiet)
  ]

  disable_and_broadcast-IsQuiet :
      (mode : DisableMode) (event : SyncEvent) (r : DaemonRuntime)
      → IsQuiet r (disable_and_broadcast w mode suppress event r).0
  unfolding disable_and_broadcast disable_scheduler handle_command clear_pre_break_notice
      update_status_display update_availability broadcast_if_needed Operations.disable
  disable_and_broadcast-IsQuiet mode event r = elim (Bool-cases (is_pending r.scheduler.state)) [
    | inr free ↦ rw free refl
    | inl was ↦ elim (Bool-cases w.backend_alive) [
      | inl alive ↦ rw (was, alive) refl
      | inr gone ↦ rw (was, gone) refl
    ]
  ]

  merge_if_started-IsQuiet :
      (start : SyncedBreakStart) (begun : Option ScheduledBreak) (r : DaemonRuntime)
      → IsQuiet r (merge_if_started w start begun r).0
  unfolding merge_if_started update_status_display update_availability
  merge_if_started-IsQuiet start none r = refl
  merge_if_started-IsQuiet start (some b) r = search start_break_at-IsQuiet

  merge_if_replaced-IsQuiet :
      (start : SyncedBreakStart) (current : CurrentBreakState) (replacement : Option ScheduledBreak)
      (r : DaemonRuntime)
      → IsQuiet r (merge_if_replaced w start current replacement r).0
  unfolding merge_if_replaced replace_current_break handle_command
  merge_if_replaced-IsQuiet start current none r = refl
  merge_if_replaced-IsQuiet start current (some b) r =
      elim (Bool-cases (remaining_break_duration w start.started_at_ms b.duration == 0)) [
        | inl over ↦ rw over (search finish_scheduler-IsQuiet)
        | inr left ↦ rw left refl
      ]

  merge_position-IsQuiet :
      (p : SyncSchedulerPosition) (r : DaemonRuntime) → IsQuiet r (merge_position w p r)
  unfolding merge_position
  merge_position-IsQuiet p r = search update_if-IsQuiet

  apply_against-IsQuiet :
      (peer : PeerId) (origin : BreakOrigin) (start : SyncedBreakStart)
      (current : Option CurrentBreakState) (r : DaemonRuntime)
      → IsQuiet r (apply_against w peer origin start current r).0
  unfolding apply_against start_synced_break replace_with_synced
  apply_against-IsQuiet peer origin start none r = search merge_if_started-IsQuiet
  apply_against-IsQuiet peer origin start (some current) r =
      elim (Bool-cases (
        synced_break_replaces_current r.local_peer_id peer origin current.origin start.started_at_ms
          current.started_at_ms)) [
            | inl wins ↦ rw wins (search merge_if_replaced-IsQuiet)
            | inr loses ↦ rw loses (merge_position-IsQuiet start.position r)
          ]

  apply_with_origin-IsQuiet :
      (peer : PeerId) (origin : Option BreakOrigin) (start : SyncedBreakStart) (r : DaemonRuntime)
      → IsQuiet r (apply_with_origin w peer origin start r).0
  unfolding apply_with_origin
  apply_with_origin-IsQuiet peer none start r = refl
  apply_with_origin-IsQuiet peer (some origin) start r =
      elim (Bool-cases (has_break r.scheduler start.name)) [
        | inl known ↦ rw known (apply_against-IsQuiet peer origin start r.current_break r)
        | inr unknown ↦ rw unknown refl
      ]

  apply_active-IsQuiet :
      (peer : PeerId) (position : SyncSchedulerPosition) (active : Option SyncActiveBreak)
      (r : DaemonRuntime)
      → IsQuiet r (apply_active w peer position active r).0
  unfolding apply_active apply_synced_break_start
  apply_active-IsQuiet peer position none r = refl
  apply_active-IsQuiet peer position (some active) r = search apply_with_origin-IsQuiet

  apply_synced_scheduler_state-IsQuiet :
      (peer : PeerId) (position : SyncSchedulerPosition) (active : Option SyncActiveBreak)
      (r : DaemonRuntime)
      → IsQuiet r (apply_synced_scheduler_state w peer position active r).0
  unfolding apply_synced_scheduler_state
  apply_synced_scheduler_state-IsQuiet peer position active r =
      let applied = apply_active-IsQuiet peer position active r in
      elim (Bool-cases (apply_active w peer position active r).1) [
        | inl going ↦
            rw going
              (merge_position-IsQuiet position (apply_active w peer position active r).0 ∙ applied)
        | inr stopped ↦ rw stopped applied
      ]

  apply_scheduler_reset-IsQuiet :
      (r : DaemonRuntime) → IsQuiet r (apply_scheduler_reset w suppress r)
  unfolding apply_scheduler_reset clear_pre_break_notice update_status_display update_availability
      broadcast_if_needed
  apply_scheduler_reset-IsQuiet r = elim (Bool-cases (Operations.reset_position r.scheduler).1) [
    | inl changed ↦ rw changed refl
    | inr unchanged ↦ rw unchanged refl
  ]

-- An event of a peer is not passed on: whatever it brings about, it sends nothing to the peers. The
-- event is not a report of active time, which may lead to a break of the runtime's own.
pub handle_sync_event-IsQuiet :
    (w : World) (peer : PeerId) (event : SyncEvent) (r : DaemonRuntime)
    → ((elapsed : ℕ) → event ≢ Protocol.active_time_elapsed elapsed)
    → IsQuiet r (handle_sync_event w peer event r).0
unfolding handle_sync_event apply_synced_break_start disable_for disable_until_restart request_lock
    enable update_status_display update_availability broadcast_if_needed
handle_sync_event-IsQuiet w peer (Protocol.active_time_elapsed elapsed) r u =
    absurd (u elapsed refl)
handle_sync_event-IsQuiet w peer (Protocol.break_started name message started origin position) r u =
    apply_with_origin-IsQuiet w peer (break_origin_from_sync origin)
      (record {
        name = name;
        message = message;
        started_at_ms = started;
        origin = origin;
        position = position;
        lock_after = none;
      })
      r
handle_sync_event-IsQuiet w peer (Protocol.scheduler_state slot elapsed satisfied active) r u =
    apply_synced_scheduler_state-IsQuiet w peer
      (record { slot = slot; active_elapsed = elapsed; last_satisfied_slots = satisfied }) active r
handle_sync_event-IsQuiet w peer Protocol.scheduler_reset r u = apply_scheduler_reset-IsQuiet w r
handle_sync_event-IsQuiet w peer (Protocol.disable_for duration) r u =
    disable_and_broadcast-IsQuiet w _ (Protocol.disable_for duration) r
handle_sync_event-IsQuiet w peer Protocol.disable_until_restart r u =
    disable_and_broadcast-IsQuiet w _ Protocol.disable_until_restart r
handle_sync_event-IsQuiet w peer Protocol.enable r u = refl
handle_sync_event-IsQuiet w peer Protocol.lock_after_current_break r u =
    lock_after_current-IsQuiet w r.current_break r
