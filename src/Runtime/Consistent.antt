-- ===== src/Runtime/Consistent.antt =====
-- src/runtime.rs: the current break, the scheduler and the backend's overlay under every input.
use rusteyes.Common.{
  ℕ, ◌≡◌, refl, sym, ap, ◌∙◌, Bool, true, false, none, any, Bool-cases, inl, inr, ◌==◌,
}
use rusteyes.Common.Text.{text_eq}
use rusteyes.Activity.{RuntimeEvent}
use rusteyes.Activity
use rusteyes.Protocol.{PeerId, SyncEvent}
use rusteyes.Protocol
use rusteyes.Scheduler.Operations
use rusteyes.Scheduler.Operations.{is_pending}
use rusteyes.Runtime.{
  DaemonRuntime, DisableMode, SyncPropagation, to_peers, suppress, SyncTransportEvent,
  peer_authenticated, peer_disconnected, peer_rejected, domain, World, clear_break,
  PeerRejectionReason,
}
use rusteyes.Runtime.Idle
use rusteyes.Runtime.Display.{
  clear_pre_break_notice, notify_peer_rejected, update_availability, update_status_display,
}
use rusteyes.Runtime.Breaks.{broadcast_if_needed, break_start_failed}
use rusteyes.Runtime.Sync.{send_scheduler_state_to_peer}
use rusteyes.Runtime.Handlers.{
  advance_idle, advance_wall_clock, apply_scheduler_reset, disable_and_broadcast, disable_for,
  disable_scheduler, disable_until_restart, enable, handle_event, handle_sync_event,
  handle_sync_transport_event, has_ended, observe_active, reset_idle_tracking,
}
use rusteyes.Runtime.Pending.{enable-is_pending}
use rusteyes.Runtime.InStep.{
  IsInStep, advance_active-InStep, finish-InStep, handle_command-InStep, is_showing,
  request_lock-InStep, start_manual-InStep, finish_scheduler-IsFinished,
}
use rusteyes.Runtime.SyncInStep.{
  apply_synced_break_start-InStep, apply_synced_scheduler_state-InStep,
}

module _ (d : Bool) (w : World) (alive : d ≡ true → w.backend_alive ≡ true) where
  observe_active-InStep :
      (elapsed : ℕ) (active_time break_start : SyncPropagation) (r : DaemonRuntime)
      → IsInStep d r
      → IsInStep d (observe_active w elapsed active_time break_start r).0
  unfolding observe_active reset_idle_tracking broadcast_if_needed
  observe_active-InStep elapsed active_time break_start r h =
      let (activity, credited) = Idle.active_elapsed elapsed r.combined_activity in
      elim (Bool-cases (credited == 0)) [
        | inl nothing ↦ rw nothing h
        | inr some_time ↦ rw some_time (
            advance_active-InStep d w alive credited break_start
              (record (broadcast_if_needed active_time (Protocol.active_time_elapsed elapsed)
                (reset_idle_tracking r)) { combined_activity = activity })
              h)
      ]

  apply_scheduler_reset-InStep :
      (propagation : SyncPropagation) (r : DaemonRuntime)
      → IsInStep d r
      → IsInStep d (apply_scheduler_reset w propagation r)
  unfolding apply_scheduler_reset Operations.reset_position clear_pre_break_notice
      update_status_display update_availability broadcast_if_needed
  apply_scheduler_reset-InStep propagation r h =
      elim (Bool-cases (Operations.reset_position r.scheduler).1) [
        | inl changed ↦ rw changed h
        | inr unchanged ↦ rw unchanged h
      ]

  advance_idle-InStep :
      (elapsed : ℕ) (r : DaemonRuntime) → IsInStep d r → IsInStep d (advance_idle w elapsed r)
  unfolding advance_idle Operations.reset_active_time clear_pre_break_notice update_status_display
      update_availability
  advance_idle-InStep elapsed r h =
      let t = record r {
        break_count_idle_reset = (Idle.advance elapsed r.break_count_idle_reset).0;
        active_time_idle_reset = (Idle.advance elapsed r.active_time_idle_reset).0;
      } in
      elim (Bool-cases (Idle.advance elapsed r.break_count_idle_reset).1) [
        | inl count ↦ rw count (apply_scheduler_reset-InStep to_peers t h)
        | inr no_count ↦ elim (Bool-cases (Idle.advance elapsed r.active_time_idle_reset).1) [
          | inl time ↦ rw (no_count, time) h
          | inr no_time ↦ rw (no_count, no_time) h
        ]
      ]

  enable-InStep :
      (propagation : SyncPropagation) (r : DaemonRuntime)
      → IsInStep d r
      → IsInStep d (enable w propagation r)
  unfolding enable update_status_display update_availability broadcast_if_needed
  enable-InStep propagation r (same, shows) = (enable-is_pending r.scheduler ∙ same, shows)

  advance_wall_clock-InStep :
      (elapsed : ℕ) (r : DaemonRuntime) → IsInStep d r → IsInStep d (advance_wall_clock w elapsed r)
  unfolding advance_wall_clock update_status_display update_availability
  advance_wall_clock-InStep elapsed r h =
      let t = record r {
        combined_activity = Idle.advance_wall_clock elapsed r.combined_activity;
      } in
      elim (Bool-cases (has_ended r.disable_mode w.now)) [
        | inl ended ↦ rw ended (enable-InStep suppress t h)
        | inr going ↦ rw going h
      ]

  disable_scheduler-InStep :
      (r : DaemonRuntime) → IsInStep d r → IsInStep d (disable_scheduler w r).0
  unfolding disable_scheduler Operations.disable clear_pre_break_notice update_status_display
      update_availability
  disable_scheduler-InStep r (same, shows) =
      let t = clear_pre_break_notice (record r { current_break = none }) in
      let off =
        update_status_display w (record t { scheduler = (Operations.disable t.scheduler).0 }) in
      elim (Bool-cases (is_pending r.scheduler.state)) [
        | inl was ↦ rw was (handle_command-InStep d w alive clear_break off refl (λ on. refl))
        | inr free ↦ rw free (refl, λ on. shows on ∙ sym same ∙ free)
      ]

  disable_and_broadcast-InStep :
      (mode : DisableMode) (propagation : SyncPropagation) (event : SyncEvent) (r : DaemonRuntime)
      → IsInStep d r
      → IsInStep d (disable_and_broadcast w mode propagation event r).0
  unfolding disable_and_broadcast broadcast_if_needed
  disable_and_broadcast-InStep mode propagation event r h =
      let off = disable_scheduler-InStep (record r { disable_mode = mode }) h in
      elim (Bool-cases (disable_scheduler w (record r { disable_mode = mode })).1) [
        | inl going ↦ rw going off
        | inr stopped ↦ rw stopped off
      ]

  handle_sync_event-InStep :
      (peer : PeerId) (event : SyncEvent) (r : DaemonRuntime)
      → IsInStep d r
      → IsInStep d (handle_sync_event w peer event r).0
  unfolding handle_sync_event disable_for disable_until_restart
  handle_sync_event-InStep peer (Protocol.active_time_elapsed elapsed) r h =
      observe_active-InStep elapsed suppress to_peers r h
  handle_sync_event-InStep peer (Protocol.break_started name message started origin position) r h =
      apply_synced_break_start-InStep d w alive peer
        (record {
          name = name;
          message = message;
          started_at_ms = started;
          origin = origin;
          position = position;
          lock_after = none;
        })
        r h
  handle_sync_event-InStep peer (Protocol.scheduler_state slot active_elapsed satisfied active) r
        h =
      apply_synced_scheduler_state-InStep d w alive peer _ active r h
  handle_sync_event-InStep peer Protocol.scheduler_reset r h =
      apply_scheduler_reset-InStep suppress r h
  handle_sync_event-InStep peer (Protocol.disable_for duration) r h =
      disable_and_broadcast-InStep _ suppress (Protocol.disable_for duration) r h
  handle_sync_event-InStep peer Protocol.disable_until_restart r h =
      disable_and_broadcast-InStep _ suppress Protocol.disable_until_restart r h
  handle_sync_event-InStep peer Protocol.enable r h = enable-InStep suppress r h
  handle_sync_event-InStep peer Protocol.lock_after_current_break r h =
      request_lock-InStep d w alive suppress r h

  notify_peer_rejected-InStep :
      (peer : PeerId) (reason : PeerRejectionReason) (r : DaemonRuntime)
      → IsInStep d r
      → IsInStep d (notify_peer_rejected peer reason r)
  unfolding notify_peer_rejected
  notify_peer_rejected-InStep peer reason r h =
      elim (Bool-cases (any (text_eq peer) r.notified_rejected_peers)) [
        | inl known ↦ rw known h
        | inr fresh ↦ rw fresh h
      ]

  pub handle_sync_transport_event-InStep :
      (event : SyncTransportEvent) (r : DaemonRuntime)
      → IsInStep d r
      → IsInStep d (handle_sync_transport_event w event r).0
  unfolding handle_sync_transport_event send_scheduler_state_to_peer
  handle_sync_transport_event-InStep (peer_authenticated peer) r h = h
  handle_sync_transport_event-InStep (domain peer event) r h =
      handle_sync_event-InStep peer event r h
  handle_sync_transport_event-InStep (peer_rejected peer reason) r h =
      notify_peer_rejected-InStep peer reason r h
  handle_sync_transport_event-InStep (peer_disconnected peer) r h = h

  break_start_failed-InStep :
      (r : DaemonRuntime) → d ≡ false → IsInStep d r → IsInStep d (break_start_failed w r)
  unfolding break_start_failed clear_pre_break_notice
  break_start_failed-InStep r off h =
      let f =
        finish_scheduler-IsFinished w
          (record (clear_pre_break_notice r) { current_break = none }) in
      (
        f.is_idle ∙ sym (ap is_showing f.same_break),
        λ on. let clash : true ≡ false = sym on ∙ off in cc,
      )

  pub handle_event-InStep :
      (event : RuntimeEvent) (r : DaemonRuntime)
      → (event ≡ Activity.break_start_failed → d ≡ false)
      → IsInStep d r
      → IsInStep d (handle_event w event r).0
  unfolding handle_event disable_for disable_until_restart clear_pre_break_notice
  handle_event-InStep (Activity.active_time_elapsed elapsed) r u h =
      observe_active-InStep elapsed to_peers to_peers r h
  handle_event-InStep (Activity.idle_time_elapsed elapsed) r u h = advance_idle-InStep elapsed r h
  handle_event-InStep (Activity.wall_clock_elapsed elapsed) r u h =
      advance_wall_clock-InStep elapsed r h
  handle_event-InStep Activity.break_start_failed r u h = break_start_failed-InStep r (u refl) h
  handle_event-InStep Activity.break_finished r u h = finish-InStep d w alive r h
  handle_event-InStep Activity.lock_after_current_break r u h =
      request_lock-InStep d w alive to_peers r h
  handle_event-InStep (Activity.start_manual_break name) r u h =
      start_manual-InStep d w alive name to_peers r h
  handle_event-InStep (Activity.disable (Activity.for duration)) r u h =
      disable_and_broadcast-InStep _ to_peers (Protocol.disable_for duration) r h
  handle_event-InStep (Activity.disable Activity.until_restart) r u h =
      disable_and_broadcast-InStep _ to_peers Protocol.disable_until_restart r h
  handle_event-InStep Activity.enable r u h = enable-InStep to_peers r h
  handle_event-InStep Activity.shutdown r u h = h
