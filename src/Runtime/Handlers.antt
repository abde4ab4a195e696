-- ===== src/Runtime/Handlers.antt =====
-- src/runtime.rs: the handlers of an input; the answer is whether the runtime goes on.
use rusteyes.Common.{ℕ, ◌/◌, Bool, true, false, none, List, [], ◌∷◌, if◌then◌else◌, leb, ◌==◌, min}
use rusteyes.Common.Words.{saturating_add_word, word_max}
use rusteyes.Activity.{RuntimeEvent, DisableRequest}
use rusteyes.Activity
use rusteyes.Protocol.{PeerId, SyncEvent}
use rusteyes.Protocol
use rusteyes.Scheduler.Operations
use rusteyes.Runtime.{
  World, DaemonRuntime, DisableMode, enabled, timed, until_restart, SyncPropagation, to_peers,
  suppress, RuntimeInput, backend, ui, sync_transport, SyncTransportEvent, peer_authenticated,
  peer_disconnected, peer_rejected, domain, clear_break,
}
use rusteyes.Runtime.Idle
use rusteyes.Runtime.Display.{clear_pre_break_notice, update_status_display, notify_peer_rejected}
use rusteyes.Runtime.Breaks.{
  handle_command, broadcast_if_needed, advance_active, start_manual, break_start_failed, finish,
  request_lock,
}
use rusteyes.Runtime.Sync.{
  apply_synced_break_start, apply_synced_scheduler_state, send_scheduler_state_to_peer,
}

-- `reset_idle_tracking`.
unfoldable pub reset_idle_tracking : DaemonRuntime → DaemonRuntime
unfolding Idle.reset
reset_idle_tracking r = record r {
  active_time_idle_reset = Idle.reset r.active_time_idle_reset;
  break_count_idle_reset = Idle.reset r.break_count_idle_reset;
}

-- `observe_active`.
unfoldable pub observe_active :
    World → ℕ → (active_time break_start : SyncPropagation) → DaemonRuntime → DaemonRuntime × Bool
unfolding reset_idle_tracking broadcast_if_needed Idle.active_elapsed advance_active
observe_active w elapsed active_time break_start r =
    let t =
      broadcast_if_needed active_time (Protocol.active_time_elapsed elapsed)
        (reset_idle_tracking r) in
    let (activity, credited) = Idle.active_elapsed elapsed t.combined_activity in
    let u = record t { combined_activity = activity } in
    if credited == 0 then (u, true) else advance_active w credited break_start u

-- `apply_scheduler_reset`.
unfoldable pub apply_scheduler_reset : World → SyncPropagation → DaemonRuntime → DaemonRuntime
unfolding Idle.mark_triggered Operations.reset_position clear_pre_break_notice update_status_display
    broadcast_if_needed
apply_scheduler_reset w propagation r =
    let (s, changed) = Operations.reset_position r.scheduler in
    let t = update_status_display w (
      clear_pre_break_notice (record r {
        active_time_idle_reset = Idle.mark_triggered r.active_time_idle_reset;
        break_count_idle_reset = Idle.mark_triggered r.break_count_idle_reset;
        scheduler = s;
      })) in
    if changed then broadcast_if_needed propagation Protocol.scheduler_reset t else t

-- `advance_idle`.
unfoldable pub advance_idle : World → ℕ → DaemonRuntime → DaemonRuntime
unfolding Idle.advance apply_scheduler_reset Operations.reset_active_time clear_pre_break_notice
    update_status_display
advance_idle w elapsed r =
    let (count, reset_count) = Idle.advance elapsed r.break_count_idle_reset in
    let (time, reset_active_time) = Idle.advance elapsed r.active_time_idle_reset in
    let t = record r { break_count_idle_reset = count; active_time_idle_reset = time } in
    if reset_count
    then apply_scheduler_reset w to_peers t
    else if reset_active_time
    then update_status_display w
        (clear_pre_break_notice (record t { scheduler = Operations.reset_active_time t.scheduler }))
    else t

-- `enable`.
unfoldable pub enable : World → SyncPropagation → DaemonRuntime → DaemonRuntime
unfolding Operations.enable update_status_display broadcast_if_needed
enable w propagation r = broadcast_if_needed propagation Protocol.enable (
    update_status_display w
      (record r { scheduler = Operations.enable r.scheduler; disable_mode = enabled }))

-- `let DisableMode::Timed { ends_at_ms } = self.disable_mode && now >= ends_at_ms`.
abbrev pub has_ended : DisableMode → ℕ → Bool
has_ended enabled now = false
has_ended (timed ends_at_ms) now = leb ends_at_ms now
has_ended until_restart now = false

-- `advance_wall_clock`.
unfoldable pub advance_wall_clock : World → ℕ → DaemonRuntime → DaemonRuntime
unfolding Idle.advance_wall_clock enable update_status_display
advance_wall_clock w elapsed r =
    let t = record r { combined_activity = Idle.advance_wall_clock elapsed r.combined_activity } in
    update_status_display w (if has_ended t.disable_mode w.now then enable w suppress t else t)

-- `disable_scheduler`.
unfoldable pub disable_scheduler : World → DaemonRuntime → DaemonRuntime × Bool
unfolding clear_pre_break_notice Operations.disable update_status_display handle_command
disable_scheduler w r =
    let t = clear_pre_break_notice (record r { current_break = none }) in
    let (s, was_pending) = Operations.disable t.scheduler in
    let u = update_status_display w (record t { scheduler = s }) in
    if was_pending then handle_command w clear_break u else (u, true)

-- A disabling, and a broadcast if the backend could be told.
unfoldable pub disable_and_broadcast :
    World → DisableMode → SyncPropagation → SyncEvent → DaemonRuntime → DaemonRuntime × Bool
unfolding disable_scheduler broadcast_if_needed
disable_and_broadcast w mode propagation event r =
    let (t, going) = disable_scheduler w (record r { disable_mode = mode }) in
    if going then (broadcast_if_needed propagation event t, true) else (t, false)

-- `duration_millis_u64`.
unfoldable pub duration_millis : ℕ → ℕ
duration_millis duration = min (duration / 1000000) word_max

-- `disable_for`.
unfoldable pub disable_for : World → ℕ → SyncPropagation → DaemonRuntime → DaemonRuntime × Bool
unfolding disable_and_broadcast duration_millis
disable_for w duration propagation r =
    disable_and_broadcast w (timed (saturating_add_word w.now (duration_millis duration)))
      propagation (Protocol.disable_for duration) r

-- `disable_until_restart`.
unfoldable pub disable_until_restart :
    World → SyncPropagation → DaemonRuntime → DaemonRuntime × Bool
unfolding disable_and_broadcast
disable_until_restart w propagation r =
    disable_and_broadcast w until_restart propagation Protocol.disable_until_restart r

-- `handle_event`.
unfoldable pub handle_event : World → RuntimeEvent → DaemonRuntime → DaemonRuntime × Bool
unfolding observe_active advance_idle advance_wall_clock break_start_failed finish request_lock
    start_manual disable_for disable_until_restart enable clear_pre_break_notice
handle_event w (Activity.active_time_elapsed elapsed) r =
    observe_active w elapsed to_peers to_peers r
handle_event w (Activity.idle_time_elapsed elapsed) r = (advance_idle w elapsed r, true)
handle_event w (Activity.wall_clock_elapsed elapsed) r = (advance_wall_clock w elapsed r, true)
handle_event w Activity.break_start_failed r = (break_start_failed w r, true)
handle_event w Activity.break_finished r = finish w r
handle_event w Activity.lock_after_current_break r = request_lock w to_peers r
handle_event w (Activity.start_manual_break name) r = start_manual w name to_peers r
handle_event w (Activity.disable (Activity.for duration)) r = disable_for w duration to_peers r
handle_event w (Activity.disable Activity.until_restart) r = disable_until_restart w to_peers r
handle_event w Activity.enable r = (enable w to_peers r, true)
handle_event w Activity.shutdown r = (clear_pre_break_notice r, false)

-- `handle_sync_event`.
unfoldable pub handle_sync_event : World → PeerId → SyncEvent → DaemonRuntime → DaemonRuntime × Bool
unfolding observe_active apply_synced_break_start apply_synced_scheduler_state apply_scheduler_reset
    disable_for disable_until_restart enable request_lock
handle_sync_event w peer (Protocol.active_time_elapsed elapsed) r =
    observe_active w elapsed suppress to_peers r
handle_sync_event w peer (Protocol.break_started name message started_at_ms origin position) r =
    apply_synced_break_start w peer
      (record {
        name = name;
        message = message;
        started_at_ms = started_at_ms;
        origin = origin;
        position = position;
        lock_after = none;
      })
      r
handle_sync_event w peer (Protocol.scheduler_state slot active_elapsed last_satisfied_slots active)
      r =
    apply_synced_scheduler_state w peer
      (record {
        slot = slot;
        active_elapsed = active_elapsed;
        last_satisfied_slots = last_satisfied_slots;
      })
      active r
handle_sync_event w peer Protocol.scheduler_reset r = (apply_scheduler_reset w suppress r, true)
handle_sync_event w peer (Protocol.disable_for duration) r = disable_for w duration suppress r
handle_sync_event w peer Protocol.disable_until_restart r = disable_until_restart w suppress r
handle_sync_event w peer Protocol.enable r = (enable w suppress r, true)
handle_sync_event w peer Protocol.lock_after_current_break r = request_lock w suppress r

-- `handle_sync_transport_event`.
unfoldable pub handle_sync_transport_event :
    World → SyncTransportEvent → DaemonRuntime → DaemonRuntime × Bool
unfolding send_scheduler_state_to_peer handle_sync_event notify_peer_rejected
handle_sync_transport_event w (peer_authenticated peer) r =
    (send_scheduler_state_to_peer peer r, true)
handle_sync_transport_event w (domain peer event) r = handle_sync_event w peer event r
handle_sync_transport_event w (peer_rejected peer reason) r =
    (notify_peer_rejected peer reason r, true)
handle_sync_transport_event w (peer_disconnected peer) r = (r, true)

-- `handle_input`.
unfoldable pub handle_input : World → RuntimeInput → DaemonRuntime → DaemonRuntime × Bool
unfolding handle_event handle_sync_transport_event
handle_input w (backend event) r = handle_event w event r
handle_input w (ui event) r = handle_event w event r
handle_input w (sync_transport event) r = handle_sync_transport_event w event r

unfoldable pub run_on : List (World × RuntimeInput) → DaemonRuntime → DaemonRuntime
unfolding handle_input
run_on [] r = r
run_on ((w, input) ∷ inputs) r =
    let (t, going) = handle_input w input r in
    let rest = run_on inputs t in if going then rest else t

-- `run`: the inputs that `next_input` gives, each with what it meets.
unfoldable pub run : World → List (World × RuntimeInput) → DaemonRuntime → DaemonRuntime
unfolding update_status_display run_on
run w inputs r = run_on inputs (update_status_display w r)
