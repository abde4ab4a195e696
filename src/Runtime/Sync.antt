-- ===== src/Runtime/Sync.antt =====
-- src/runtime.rs: break starts and scheduler states that come from a peer.
use rusteyes.Common.{ℕ, Bool, true, false, not, Option, none, some, ◌∷◌, if◌then◌else◌, ltb, ◌==◌}
use rusteyes.Common.Text.{text_lt}
use rusteyes.Protocol.{
  PeerId, SyncActiveBreak, SyncBreakOrigin, SyncEvent, SyncSchedulerPosition, scheduler_state,
}
use rusteyes.Protocol
use rusteyes.Scheduler.{BreakOrigin, scheduled, manual, ScheduledBreak, SchedulerPosition}
use rusteyes.Scheduler.Operations.{has_break, position}
use rusteyes.Scheduler.Synced.{
  merge_synced_position, replacement_synced_break, start_active_synced_break,
}
use rusteyes.Runtime.{
  World, DaemonRuntime, CurrentBreakState, SyncedBreakStart, suppress, replace_active_break,
  clear_break, directed,
}
use rusteyes.Runtime.Display.{update_status_display}
use rusteyes.Runtime.Breaks.{
  finish_scheduler, for_break, handle_command, remaining_break_duration, start_break_at,
  to_sync_active_break, update_if,
}

-- `break_origin_from_sync`.
unfoldable pub break_origin_from_sync : SyncBreakOrigin → Option BreakOrigin
break_origin_from_sync Protocol.manual = some manual
break_origin_from_sync (Protocol.scheduled slot) =
    if ltb 0 slot then some (scheduled slot) else none

-- `scheduler_position_from_sync`.
unfoldable pub scheduler_position_from_sync : SyncSchedulerPosition → SchedulerPosition
scheduler_position_from_sync p = record {
  slot = p.slot;
  active_elapsed = p.active_elapsed;
  last_satisfied_slots = p.last_satisfied_slots;
}

-- The order of two peers whose breaks have one start; without a peer id of its own, a runtime keeps
-- its break.
abbrev pub precedes : PeerId → Option PeerId → Bool
precedes peer none = false
precedes peer (some local) = text_lt peer local

-- The comparison of start times in `synced_break_replaces_current`.
unfoldable pub starts_earlier : Option PeerId → PeerId → (peer_started_ms started_at_ms : ℕ) → Bool
unfolding text_lt
starts_earlier local peer peer_started_ms started_at_ms =
    if ltb peer_started_ms started_at_ms
    then true
    else if ltb started_at_ms peer_started_ms
    then false
    else precedes peer local

-- `synced_break_replaces_current`, on the two breaks' origins and starts.
unfoldable pub synced_break_replaces_current :
    Option PeerId
    → PeerId
    → (peer_origin origin : BreakOrigin) → (peer_started_ms started_at_ms : ℕ) → Bool
unfolding starts_earlier
synced_break_replaces_current local peer (scheduled peer_slot) (scheduled current_slot) theirs
      ours =
    if not (peer_slot == current_slot)
    then ltb current_slot peer_slot
    else starts_earlier local peer theirs ours
synced_break_replaces_current local peer (scheduled peer_slot) manual theirs ours =
    starts_earlier local peer theirs ours
synced_break_replaces_current local peer manual (scheduled current_slot) theirs ours =
    starts_earlier local peer theirs ours
synced_break_replaces_current local peer manual manual theirs ours =
    starts_earlier local peer theirs ours

-- `if let Some(lock_after) = lock_after { scheduled_break.autolock = lock_after; }`, and what holds
-- otherwise.
abbrev pub or_else : Option Bool → Bool → Bool
or_else none otherwise = otherwise
or_else (some lock_after) otherwise = lock_after

unfoldable pub merge_if_started :
    World → SyncedBreakStart → Option ScheduledBreak → DaemonRuntime → DaemonRuntime × Bool
unfolding merge_synced_position scheduler_position_from_sync update_status_display start_break_at
merge_if_started w start none r = (r, true)
merge_if_started w start (some b) r =
    let s = (merge_synced_position (scheduler_position_from_sync start.position) r.scheduler).0 in
    start_break_at w
      (record b { message = start.message; autolock = or_else start.lock_after b.autolock })
      start.started_at_ms suppress (update_status_display w (record r { scheduler = s }))

-- `start_synced_break`.
unfoldable pub start_synced_break :
    World → BreakOrigin → SyncedBreakStart → DaemonRuntime → DaemonRuntime × Bool
unfolding start_active_synced_break merge_if_started
start_synced_break w origin start r =
    let (s, begun) = start_active_synced_break w.draw start.name origin r.scheduler in
    merge_if_started w start begun (record r { scheduler = s })

-- `replace_current_break`.
unfoldable pub replace_current_break :
    World → ScheduledBreak → ℕ → DaemonRuntime → DaemonRuntime × Bool
unfolding remaining_break_duration finish_scheduler for_break handle_command
replace_current_break w b started_at_ms r =
    let remaining = remaining_break_duration w started_at_ms b.duration in
    if remaining == 0
    then handle_command w clear_break (finish_scheduler w (record r { current_break = none }))
    else handle_command w (replace_active_break b.message remaining b.autolock)
        (record r { current_break = some (for_break b started_at_ms) })

unfoldable pub merge_if_replaced :
    World
    → SyncedBreakStart
    → CurrentBreakState
    → Option ScheduledBreak
    → DaemonRuntime
    → DaemonRuntime × Bool
unfolding merge_synced_position scheduler_position_from_sync replace_current_break
merge_if_replaced w start current none r = (r, true)
merge_if_replaced w start current (some b) r =
    let autolock = or_else start.lock_after (if current.lock_after then true else b.autolock) in
    let s = (merge_synced_position (scheduler_position_from_sync start.position) r.scheduler).0 in
    replace_current_break w (record b { message = start.message; autolock = autolock })
      start.started_at_ms (record r { scheduler = s })

-- `merge_synced_position`, and `update_status_display` if it changed something.
unfoldable pub merge_position : World → SyncSchedulerPosition → DaemonRuntime → DaemonRuntime
unfolding merge_synced_position scheduler_position_from_sync update_if
merge_position w p r =
    let (s, changed) = merge_synced_position (scheduler_position_from_sync p) r.scheduler in
    update_if changed w (record r { scheduler = s })

-- `apply_synced_break_start` where the peer's break replaces the current one.
unfoldable pub replace_with_synced :
    World
    → BreakOrigin
    → SyncedBreakStart
    → CurrentBreakState
    → DaemonRuntime
    → DaemonRuntime × Bool
unfolding replacement_synced_break merge_if_replaced
replace_with_synced w origin start current r =
    let (s, replacement) = replacement_synced_break w.draw start.name origin r.scheduler in
    merge_if_replaced w start current replacement (record r { scheduler = s })

unfoldable pub apply_against :
    World
    → PeerId
    → BreakOrigin
    → SyncedBreakStart
    → Option CurrentBreakState
    → DaemonRuntime
    → DaemonRuntime × Bool
unfolding start_synced_break synced_break_replaces_current replace_with_synced merge_position
apply_against w peer origin start none r = start_synced_break w origin start r
apply_against w peer origin start (some current) r =
    if synced_break_replaces_current r.local_peer_id peer origin current.origin start.started_at_ms
      current.started_at_ms
    then replace_with_synced w origin start current r
    else (merge_position w start.position r, true)

unfoldable pub apply_with_origin :
    World → PeerId → Option BreakOrigin → SyncedBreakStart → DaemonRuntime → DaemonRuntime × Bool
unfolding has_break apply_against
apply_with_origin w peer none start r = (r, true)
apply_with_origin w peer (some origin) start r =
    if not (has_break r.scheduler start.name)
    then (r, true)
    else apply_against w peer origin start r.current_break r

-- `apply_synced_break_start`.
unfoldable pub apply_synced_break_start :
    World → PeerId → SyncedBreakStart → DaemonRuntime → DaemonRuntime × Bool
unfolding break_origin_from_sync apply_with_origin
apply_synced_break_start w peer start r =
    apply_with_origin w peer (break_origin_from_sync start.origin) start r

-- The active break of a peer's state, as a break start.
unfoldable pub active_start : SyncSchedulerPosition → SyncActiveBreak → SyncedBreakStart
active_start position active = record {
  name = active.name;
  message = active.message;
  started_at_ms = active.started_at_ms;
  origin = active.origin;
  position = position;
  lock_after = some active.lock_after;
}

unfoldable pub apply_active :
    World
    → PeerId
    → SyncSchedulerPosition
    → Option SyncActiveBreak
    → DaemonRuntime
    → DaemonRuntime × Bool
unfolding apply_synced_break_start active_start
apply_active w peer position none r = (r, true)
apply_active w peer position (some active) r =
    apply_synced_break_start w peer (active_start position active) r

-- `apply_synced_scheduler_state`.
unfoldable pub apply_synced_scheduler_state :
    World
    → PeerId
    → SyncSchedulerPosition
    → Option SyncActiveBreak
    → DaemonRuntime
    → DaemonRuntime × Bool
unfolding apply_active merge_position
apply_synced_scheduler_state w peer position active r =
    let (t, going) = apply_active w peer position active r in
    if going then (merge_position w position t, true) else (t, false)

active_of : Option CurrentBreakState → Option SyncActiveBreak
unfolding to_sync_active_break
active_of none = none
active_of (some current) = some (to_sync_active_break current)

-- `scheduler_state_event`.
unfoldable pub scheduler_state_event : DaemonRuntime → SyncEvent
unfolding position active_of
scheduler_state_event r =
    let p = position r.scheduler in
    scheduler_state p.slot p.active_elapsed p.last_satisfied_slots (active_of r.current_break)

-- `send_scheduler_state_to_peer`.
unfoldable pub send_scheduler_state_to_peer : PeerId → DaemonRuntime → DaemonRuntime
unfolding scheduler_state_event
send_scheduler_state_to_peer peer r = record r {
  sync_sends = directed peer (scheduler_state_event r) ∷ r.sync_sends;
}
