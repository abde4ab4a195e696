-- ===== src/Runtime/Breaks.antt =====
-- src/runtime.rs: commands to the backend, broadcasts, and the operations on the current break.
use rusteyes.Common.{ℕ, ◌-◌, Bool, true, false, Option, none, some, List, ◌∷◌, if◌then◌else◌, ◌==◌}
use rusteyes.Common.Text.{Text}
use rusteyes.Common.Words.{millis}
use rusteyes.Protocol.{
  SyncEvent, SyncBreakOrigin, SyncActiveBreak, SyncSchedulerPosition, break_started,
  lock_after_current_break,
}
use rusteyes.Protocol
use rusteyes.Scheduler.{BreakOrigin, scheduled, manual, ScheduledBreak, SchedulerPosition}
use rusteyes.Scheduler.Operations
use rusteyes.Scheduler.Operations.{position, start_manual_break}
use rusteyes.Runtime.{
  World, DaemonRuntime, CurrentBreakState, SyncPropagation, to_peers, suppress, SyncSend, broadcast,
  BackendCommand, start_break, finish_break, request_lock_after_current_break,
}
use rusteyes.Runtime.Display.{clear_pre_break_notice, update_status_display, notify_upcoming_break}

abbrev pub sent : Bool → BackendCommand → List BackendCommand → List BackendCommand
sent true command commands = command ∷ commands
sent false command commands = commands

-- `handle_command`: `send_command` fails once the backend has gone.
unfoldable pub handle_command : World → BackendCommand → DaemonRuntime → DaemonRuntime × Bool
handle_command w command r = (
  record r { backend_commands = sent w.backend_alive command r.backend_commands },
  w.backend_alive,
)

abbrev pub published : SyncPropagation → SyncEvent → List SyncSend → List SyncSend
published to_peers event sends = broadcast event ∷ sends
published suppress event sends = sends

-- `broadcast_if_needed`.
unfoldable pub broadcast_if_needed : SyncPropagation → SyncEvent → DaemonRuntime → DaemonRuntime
broadcast_if_needed propagation event r = record r {
  sync_sends = published propagation event r.sync_sends;
}

-- A command, and a broadcast if the command could be sent.
unfoldable pub command_and_broadcast :
    World → BackendCommand → SyncPropagation → SyncEvent → DaemonRuntime → DaemonRuntime × Bool
unfolding handle_command broadcast_if_needed
command_and_broadcast w command propagation event r =
    let (t, delivered) = handle_command w command r in
    if delivered then (broadcast_if_needed propagation event t, true) else (t, false)

-- `sync_origin_from_break`.
unfoldable pub sync_origin_from_break : BreakOrigin → SyncBreakOrigin
sync_origin_from_break (scheduled slot) = Protocol.scheduled slot
sync_origin_from_break manual = Protocol.manual

-- `sync_position_from_scheduler`.
unfoldable pub sync_position_from_scheduler : SchedulerPosition → SyncSchedulerPosition
sync_position_from_scheduler p = record {
  slot = p.slot;
  active_elapsed = p.active_elapsed;
  last_satisfied_slots = p.last_satisfied_slots;
}

-- `CurrentBreakState::for_break`.
unfoldable pub for_break : ScheduledBreak → ℕ → CurrentBreakState
for_break b started_at_ms = record {
  name = b.name;
  message = b.message;
  origin = b.origin;
  lock_after = b.autolock;
  started_at_ms = started_at_ms;
}

-- `CurrentBreakState::to_sync_active_break`.
unfoldable pub to_sync_active_break : CurrentBreakState → SyncActiveBreak
unfolding sync_origin_from_break
to_sync_active_break c = record {
  name = c.name;
  message = c.message;
  started_at_ms = c.started_at_ms;
  origin = sync_origin_from_break c.origin;
  lock_after = c.lock_after;
}

-- `remaining_break_duration`.
unfoldable pub remaining_break_duration : World → (started_at_ms duration : ℕ) → ℕ
remaining_break_duration w started_at_ms duration = duration - millis (w.now - started_at_ms)

-- `update_status_display` where the code calls it under a test.
unfoldable pub update_if : Bool → World → DaemonRuntime → DaemonRuntime
unfolding update_status_display
update_if changed w r = if changed then update_status_display w r else r

-- `if self.scheduler.finish_break() { self.update_status_display(); }`.
unfoldable pub finish_scheduler : World → DaemonRuntime → DaemonRuntime
unfolding Operations.finish_break update_if
finish_scheduler w r =
    let (s, changed) = Operations.finish_break r.scheduler in
    update_if changed w (record r { scheduler = s })

-- The part of `start_break_at` behind its early return.
unfoldable pub show_break :
    World → ScheduledBreak → ℕ → ℕ → SyncPropagation → DaemonRuntime → DaemonRuntime × Bool
unfolding sync_origin_from_break sync_position_from_scheduler position clear_pre_break_notice
    for_break command_and_broadcast
show_break w b started_at_ms remaining propagation r =
    command_and_broadcast w (start_break (record b { duration = remaining })) propagation
      (break_started b.name b.message started_at_ms (sync_origin_from_break b.origin)
        (sync_position_from_scheduler (position r.scheduler)))
      (record (clear_pre_break_notice r) { current_break = some (for_break b started_at_ms) })

-- `start_break_at`.
unfoldable pub start_break_at :
    World → ScheduledBreak → ℕ → SyncPropagation → DaemonRuntime → DaemonRuntime × Bool
unfolding remaining_break_duration finish_scheduler show_break
start_break_at w b started_at_ms propagation r =
    let remaining = remaining_break_duration w started_at_ms b.duration in
    if remaining == 0
    then (finish_scheduler w r, true)
    else show_break w b started_at_ms remaining propagation r

-- The parts of `advance_active` behind the scheduler's answer.
unfoldable pub advance_handed :
    World → SyncPropagation → Option ScheduledBreak → DaemonRuntime → DaemonRuntime × Bool
unfolding clear_pre_break_notice update_status_display notify_upcoming_break start_break_at
advance_handed w propagation none r = (notify_upcoming_break w (update_status_display w r), true)
advance_handed w propagation (some b) r =
    start_break_at w b w.now propagation (update_status_display w (clear_pre_break_notice r))

-- `advance_active`.
unfoldable pub advance_active : World → ℕ → SyncPropagation → DaemonRuntime → DaemonRuntime × Bool
unfolding Operations.advance_active advance_handed
advance_active w elapsed propagation r =
    let (s, handed) = Operations.advance_active w.draw elapsed r.scheduler in
    advance_handed w propagation handed (record r { scheduler = s })

-- The parts of `start_named_break` behind the scheduler's answer.
unfoldable pub start_named :
    World → SyncPropagation → Option ScheduledBreak → DaemonRuntime → DaemonRuntime × Bool
unfolding update_status_display start_break_at
start_named w propagation none r = (r, true)
start_named w propagation (some b) r =
    start_break_at w b w.now propagation (update_status_display w r)

-- `start_manual_break`, with `start_named_break` at the arguments that it passes. If the scheduler
-- starts no break, it has not changed.
unfoldable pub start_manual : World → Text → SyncPropagation → DaemonRuntime → DaemonRuntime × Bool
unfolding start_manual_break start_named
start_manual w name propagation r =
    let (s, handed) = start_manual_break w.draw name r.scheduler in
    start_named w propagation handed (record r { scheduler = s })

-- `break_start_failed`.
unfoldable pub break_start_failed : World → DaemonRuntime → DaemonRuntime
unfolding clear_pre_break_notice finish_scheduler
break_start_failed w r =
    finish_scheduler w (record (clear_pre_break_notice r) { current_break = none })

unfoldable pub finish_current :
    World → Option CurrentBreakState → DaemonRuntime → DaemonRuntime × Bool
unfolding finish_scheduler handle_command
finish_current w none r = (r, true)
finish_current w (some current) r =
    handle_command w (finish_break current.lock_after)
      (finish_scheduler w (record r { current_break = none }))

-- `finish_break`.
unfoldable pub finish : World → DaemonRuntime → DaemonRuntime × Bool
unfolding clear_pre_break_notice finish_current
finish w r = finish_current w r.current_break (clear_pre_break_notice r)

unfoldable pub lock_after_current :
    World → SyncPropagation → Option CurrentBreakState → DaemonRuntime → DaemonRuntime × Bool
unfolding command_and_broadcast
lock_after_current w propagation none r = (r, true)
lock_after_current w propagation (some current) r =
    if current.lock_after
    then (r, true)
    else command_and_broadcast w request_lock_after_current_break propagation
        lock_after_current_break
        (record r { current_break = some (record current { lock_after = true }) })

-- `request_lock_after_current_break`, with `CurrentBreakState::request_lock_after`.
unfoldable pub request_lock : World → SyncPropagation → DaemonRuntime → DaemonRuntime × Bool
unfolding lock_after_current
request_lock w propagation r = lock_after_current w propagation r.current_break r
