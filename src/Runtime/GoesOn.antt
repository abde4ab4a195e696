-- ===== src/Runtime/GoesOn.antt =====
-- src/runtime.rs: whether the runtime goes on after an input.
use rusteyes.Common.{ℕ, ◌≡◌, ◌≢◌, refl, true, Option, none, some, Bool-cases, inl, inr, ◌==◌}
use rusteyes.Activity.{RuntimeEvent}
use rusteyes.Activity
use rusteyes.Protocol.{PeerId, SyncActiveBreak, SyncEvent, SyncSchedulerPosition}
use rusteyes.Protocol
use rusteyes.Scheduler.{BreakOrigin, ScheduledBreak}
use rusteyes.Scheduler.Operations
use rusteyes.Scheduler.Operations.{has_break, is_pending, start_manual_break}
use rusteyes.Runtime.{
  backend, BackendCommand, CurrentBreakState, DaemonRuntime, DisableMode, domain,
  peer_authenticated, peer_disconnected, peer_rejected, RuntimeInput, SyncedBreakStart,
  SyncPropagation, sync_transport, SyncTransportEvent, to_peers, suppress, ui, World,
}
use rusteyes.Runtime.Idle
use rusteyes.Runtime.Display.{clear_pre_break_notice, update_status_display}
use rusteyes.Runtime.Breaks.{
  advance_active, advance_handed, command_and_broadcast, finish, finish_current, handle_command,
  lock_after_current, remaining_break_duration, request_lock, start_break_at, show_break,
  start_manual, start_named,
}
use rusteyes.Runtime.Sync.{
  active_start, apply_active, apply_against, apply_synced_break_start, apply_synced_scheduler_state,
  apply_with_origin, break_origin_from_sync, merge_if_replaced, merge_if_started,
  replace_current_break, replace_with_synced, start_synced_break, synced_break_replaces_current,
}
use rusteyes.Runtime.Handlers.{
  disable_and_broadcast, disable_for, disable_scheduler, disable_until_restart, handle_event,
  handle_input, handle_sync_event, handle_sync_transport_event, observe_active,
}

-- An input that tells the runtime to stop.
abbrev pub Stops : RuntimeInput → Type 0
Stops (backend event) = event ≡ Activity.shutdown
Stops (ui event) = event ≡ Activity.shutdown
Stops (sync_transport event) = ⊥

module _ (w : World) (alive : w.backend_alive ≡ true) where
  command_and_broadcast-goes_on :
      (command : BackendCommand) (propagation : SyncPropagation) (event : SyncEvent)
      (r : DaemonRuntime)
      → (command_and_broadcast w command propagation event r).1 ≡ true
  unfolding command_and_broadcast handle_command
  command_and_broadcast-goes_on command propagation event r = rw alive refl

  start_break_at-goes_on :
      (b : ScheduledBreak) (started_at_ms : ℕ) (propagation : SyncPropagation) (r : DaemonRuntime)
      → (start_break_at w b started_at_ms propagation r).1 ≡ true
  unfolding start_break_at show_break
  start_break_at-goes_on b started_at_ms propagation r =
      elim (Bool-cases (remaining_break_duration w started_at_ms b.duration == 0)) [
        | inl over ↦ rw over refl
        | inr left ↦ rw left (search command_and_broadcast-goes_on)
      ]

  advance_handed-goes_on :
      (propagation : SyncPropagation) (handed : Option ScheduledBreak) (r : DaemonRuntime)
      → (advance_handed w propagation handed r).1 ≡ true
  unfolding advance_handed
  advance_handed-goes_on propagation none r = refl
  advance_handed-goes_on propagation (some b) r =
      start_break_at-goes_on b w.now propagation
        (update_status_display w (clear_pre_break_notice r))

  start_named-goes_on :
      (propagation : SyncPropagation) (handed : Option ScheduledBreak) (r : DaemonRuntime)
      → (start_named w propagation handed r).1 ≡ true
  unfolding start_named
  start_named-goes_on propagation none r = refl
  start_named-goes_on propagation (some b) r =
      start_break_at-goes_on b w.now propagation (update_status_display w r)

  observe_active-goes_on :
      (elapsed : ℕ) (active_time break_start : SyncPropagation) (r : DaemonRuntime)
      → (observe_active w elapsed active_time break_start r).1 ≡ true
  unfolding observe_active advance_active
  observe_active-goes_on elapsed active_time break_start r =
      elim (Bool-cases ((Idle.active_elapsed elapsed r.combined_activity).1 == 0)) [
        | inl nothing ↦ rw nothing refl
        | inr some_time ↦ rw some_time (search advance_handed-goes_on)
      ]

  finish_current-goes_on :
      (current : Option CurrentBreakState) (r : DaemonRuntime)
      → (finish_current w current r).1 ≡ true
  unfolding finish_current handle_command
  finish_current-goes_on none r = refl
  finish_current-goes_on (some current) r = alive

  lock_after_current-goes_on :
      (propagation : SyncPropagation) (current : Option CurrentBreakState) (r : DaemonRuntime)
      → (lock_after_current w propagation current r).1 ≡ true
  unfolding lock_after_current
  lock_after_current-goes_on propagation none r = refl
  lock_after_current-goes_on propagation (some current) r = elim (Bool-cases current.lock_after) [
    | inl locked ↦ rw locked refl
    | inr unlocked ↦ rw unlocked (search command_and_broadcast-goes_on)
  ]

  disable_and_broadcast-goes_on :
      (mode : DisableMode) (propagation : SyncPropagation) (event : SyncEvent) (r : DaemonRuntime)
      → (disable_and_broadcast w mode propagation event r).1 ≡ true
  unfolding disable_and_broadcast disable_scheduler Operations.disable handle_command
  disable_and_broadcast-goes_on mode propagation event r =
      elim (Bool-cases (is_pending r.scheduler.state)) [
        | inl was ↦ rw (was, alive) refl
        | inr free ↦ rw free refl
      ]

  merge_if_started-goes_on :
      (start : SyncedBreakStart) (begun : Option ScheduledBreak) (r : DaemonRuntime)
      → (merge_if_started w start begun r).1 ≡ true
  unfolding merge_if_started
  merge_if_started-goes_on start none r = refl
  merge_if_started-goes_on start (some b) r = search start_break_at-goes_on

  merge_if_replaced-goes_on :
      (start : SyncedBreakStart) (current : CurrentBreakState) (replacement : Option ScheduledBreak)
      (r : DaemonRuntime)
      → (merge_if_replaced w start current replacement r).1 ≡ true
  unfolding merge_if_replaced replace_current_break handle_command
  merge_if_replaced-goes_on start current none r = refl
  merge_if_replaced-goes_on start current (some b) r =
      elim (Bool-cases (remaining_break_duration w start.started_at_ms b.duration == 0)) [
        | inl over ↦ rw over alive
        | inr left ↦ rw left alive
      ]

  apply_against-goes_on :
      (peer : PeerId) (origin : BreakOrigin) (start : SyncedBreakStart)
      (current : Option CurrentBreakState) (r : DaemonRuntime)
      → (apply_against w peer origin start current r).1 ≡ true
  unfolding apply_against start_synced_break replace_with_synced
  apply_against-goes_on peer origin start none r = search merge_if_started-goes_on
  apply_against-goes_on peer origin start (some current) r =
      elim (Bool-cases (
        synced_break_replaces_current r.local_peer_id peer origin current.origin start.started_at_ms
          current.started_at_ms)) [
            | inl wins ↦ rw wins (search merge_if_replaced-goes_on)
            | inr loses ↦ rw loses refl
          ]

  apply_with_origin-goes_on :
      (peer : PeerId) (origin : Option BreakOrigin) (start : SyncedBreakStart) (r : DaemonRuntime)
      → (apply_with_origin w peer origin start r).1 ≡ true
  unfolding apply_with_origin
  apply_with_origin-goes_on peer none start r = refl
  apply_with_origin-goes_on peer (some origin) start r =
      elim (Bool-cases (has_break r.scheduler start.name)) [
        | inl known ↦ rw known (apply_against-goes_on peer origin start r.current_break r)
        | inr unknown ↦ rw unknown refl
      ]

  apply_active-goes_on :
      (peer : PeerId) (position : SyncSchedulerPosition) (active : Option SyncActiveBreak)
      (r : DaemonRuntime)
      → (apply_active w peer position active r).1 ≡ true
  unfolding apply_active apply_synced_break_start
  apply_active-goes_on peer position none r = refl
  apply_active-goes_on peer position (some active) r =
      apply_with_origin-goes_on peer (break_origin_from_sync active.origin)
        (active_start position active) r

  handle_sync_event-goes_on :
      (peer : PeerId) (event : SyncEvent) (r : DaemonRuntime)
      → (handle_sync_event w peer event r).1 ≡ true
  unfolding handle_sync_event apply_synced_break_start apply_synced_scheduler_state disable_for
      disable_until_restart request_lock
  handle_sync_event-goes_on peer (Protocol.active_time_elapsed elapsed) r =
      observe_active-goes_on elapsed suppress to_peers r
  handle_sync_event-goes_on peer (Protocol.break_started name message started origin position) r =
      search apply_with_origin-goes_on
  handle_sync_event-goes_on peer (Protocol.scheduler_state slot active_elapsed satisfied active) r =
      rw
        (apply_active-goes_on peer
          (record {
            slot = slot;
            active_elapsed = active_elapsed;
            last_satisfied_slots = satisfied;
          })
          active r)
        refl
  handle_sync_event-goes_on peer Protocol.scheduler_reset r = refl
  handle_sync_event-goes_on peer (Protocol.disable_for duration) r =
      disable_and_broadcast-goes_on _ suppress (Protocol.disable_for duration) r
  handle_sync_event-goes_on peer Protocol.disable_until_restart r =
      disable_and_broadcast-goes_on _ suppress Protocol.disable_until_restart r
  handle_sync_event-goes_on peer Protocol.enable r = refl
  handle_sync_event-goes_on peer Protocol.lock_after_current_break r =
      lock_after_current-goes_on suppress r.current_break r

  handle_event-goes_on :
      (event : RuntimeEvent) (r : DaemonRuntime)
      → event ≢ Activity.shutdown
      → (handle_event w event r).1 ≡ true
  unfolding handle_event disable_for disable_until_restart request_lock finish start_manual
  handle_event-goes_on (Activity.active_time_elapsed elapsed) r u =
      observe_active-goes_on elapsed to_peers to_peers r
  handle_event-goes_on (Activity.idle_time_elapsed elapsed) r u = refl
  handle_event-goes_on (Activity.wall_clock_elapsed elapsed) r u = refl
  handle_event-goes_on Activity.break_start_failed r u = refl
  handle_event-goes_on Activity.break_finished r u = search finish_current-goes_on
  handle_event-goes_on Activity.lock_after_current_break r u =
      lock_after_current-goes_on to_peers r.current_break r
  handle_event-goes_on (Activity.start_manual_break name) r u = search start_named-goes_on
  handle_event-goes_on (Activity.disable (Activity.for duration)) r u =
      disable_and_broadcast-goes_on _ to_peers (Protocol.disable_for duration) r
  handle_event-goes_on (Activity.disable Activity.until_restart) r u =
      disable_and_broadcast-goes_on _ to_peers Protocol.disable_until_restart r
  handle_event-goes_on Activity.enable r u = refl
  handle_event-goes_on Activity.shutdown r u = absurd (u refl)

  handle_sync_transport_event-goes_on :
      (event : SyncTransportEvent) (r : DaemonRuntime)
      → (handle_sync_transport_event w event r).1 ≡ true
  unfolding handle_sync_transport_event
  handle_sync_transport_event-goes_on (peer_authenticated peer) r = refl
  handle_sync_transport_event-goes_on (domain peer event) r = handle_sync_event-goes_on peer event r
  handle_sync_transport_event-goes_on (peer_rejected peer reason) r = refl
  handle_sync_transport_event-goes_on (peer_disconnected peer) r = refl

-- While the backend takes commands, the runtime goes on after every input but a shutdown, whatever
-- the peers send.
pub handle_input-goes_on :
    (w : World) (input : RuntimeInput) (r : DaemonRuntime)
    → w.backend_alive ≡ true
    → ¬ Stops input
    → (handle_input w input r).1 ≡ true
unfolding handle_input
handle_input-goes_on w (backend event) r alive u = handle_event-goes_on w alive event r u
handle_input-goes_on w (ui event) r alive u = handle_event-goes_on w alive event r u
handle_input-goes_on w (sync_transport event) r alive u =
    handle_sync_transport_event-goes_on w alive event r
