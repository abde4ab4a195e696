-- ===== src/Runtime/SyncInStep.antt =====
-- src/runtime.rs: the current break, the scheduler and the backend's overlay under what comes from a
-- peer.
use rusteyes.Common.{
  ℕ, ◌≡◌, refl, sym, ap, ◌∙◌, Bool, true, Option, none, some, Bool-cases, inl, inr, ◌==◌,
}
use rusteyes.Protocol.{PeerId, SyncActiveBreak, SyncSchedulerPosition}
use rusteyes.Scheduler.{BreakOrigin, BreakScheduler, ScheduledBreak}
use rusteyes.Scheduler.Operations.{is_pending, has_break}
use rusteyes.Scheduler.Synced.{merge_synced_position, replacement_synced_break}
use rusteyes.Runtime.{
  clear_break, CurrentBreakState, DaemonRuntime, SyncedBreakStart, World, suppress,
}
use rusteyes.Runtime.Display.{update_availability, update_status_display}
use rusteyes.Runtime.Breaks.{remaining_break_duration, for_break}
use rusteyes.Runtime.Sync.{
  apply_active, active_start, apply_against, apply_synced_break_start, apply_synced_scheduler_state,
  apply_with_origin, break_origin_from_sync, merge_if_replaced, merge_if_started, merge_position,
  replace_current_break, replace_with_synced, scheduler_position_from_sync, start_synced_break,
  synced_break_replaces_current,
}
use rusteyes.Runtime.Pending.{
  Hands, nothing, hands, merge_synced_position-state, replacement_synced_break-state,
  start_active_synced_break-Hands,
}
use rusteyes.Runtime.InStep.{
  IsInStep, finish_with-InStep, handle_command-InStep, is_showing, not_showing, overlay,
  start_break_at-InStep, update_if-InStep,
}

module _ (d : Bool) (w : World) (alive : d ≡ true → w.backend_alive ≡ true) where
  merge_if_started-InStep :
      (start : SyncedBreakStart) (r : DaemonRuntime) {o : BreakScheduler × Option ScheduledBreak}
      → IsInStep d r
      → Hands r.scheduler.state o
      → IsInStep d (merge_if_started w start o.1 (record r { scheduler = o.0 })).0
  unfolding merge_if_started update_status_display update_availability
  merge_if_started-InStep start r (same, shows) (nothing t kept) = (kept ∙ same, shows)
  merge_if_started-InStep start r (same, shows) (hands t b free was) =
      let gone : r.current_break ≡ none = not_showing r.current_break (sym same ∙ free) in
      let p = scheduler_position_from_sync start.position in
      start_break_at-InStep d w alive _ start.started_at_ms suppress
        (update_status_display w (record r { scheduler = (merge_synced_position p t).0 }))
        (ap is_pending (merge_synced_position-state p t) ∙ was) gone
        (λ on. shows on ∙ ap is_showing gone)

  start_synced_break-InStep :
      (origin : BreakOrigin) (start : SyncedBreakStart) (r : DaemonRuntime)
      → IsInStep d r
      → IsInStep d (start_synced_break w origin start r).0
  unfolding start_synced_break
  start_synced_break-InStep origin start r h =
      merge_if_started-InStep start r h
        (start_active_synced_break-Hands w.draw start.name origin r.scheduler)

  -- The break on display is replaced, or is over.
  replace_current_break-InStep :
      (b : ScheduledBreak) (started_at_ms : ℕ) (r : DaemonRuntime)
      → is_pending r.scheduler.state ≡ true
      → (d ≡ true → overlay r.backend_commands ≡ true)
      → IsInStep d (replace_current_break w b started_at_ms r).0
  unfolding replace_current_break
  replace_current_break-InStep b started_at_ms r was up =
      elim (Bool-cases (remaining_break_duration w started_at_ms b.duration == 0)) [
        | inl over ↦
            rw over (
              finish_with-InStep d w alive clear_break (record r { current_break = none }) refl
                refl)
        | inr left ↦ rw left (
            handle_command-InStep d w alive _
              (record r { current_break = some (for_break b started_at_ms) }) was up)
      ]

  merge_if_replaced-InStep :
      (start : SyncedBreakStart) (current : CurrentBreakState) (replacement : Option ScheduledBreak)
      (r : DaemonRuntime)
      → r.current_break ≡ some current
      → IsInStep d r
      → IsInStep d (merge_if_replaced w start current replacement r).0
  unfolding merge_if_replaced
  merge_if_replaced-InStep start current none r e h = h
  merge_if_replaced-InStep start current (some b) r e (same, shows) =
      let p = scheduler_position_from_sync start.position in
      replace_current_break-InStep _ start.started_at_ms
        (record r { scheduler = (merge_synced_position p r.scheduler).0 })
        (ap is_pending (merge_synced_position-state p r.scheduler) ∙ same ∙ ap is_showing e)
        (λ on. shows on ∙ ap is_showing e)

  replace_with_synced-InStep :
      (origin : BreakOrigin) (start : SyncedBreakStart) (current : CurrentBreakState)
      (r : DaemonRuntime)
      → r.current_break ≡ some current
      → IsInStep d r
      → IsInStep d (replace_with_synced w origin start current r).0
  unfolding replace_with_synced
  replace_with_synced-InStep origin start current r e (same, shows) =
      merge_if_replaced-InStep start current
        (replacement_synced_break w.draw start.name origin r.scheduler).1
        (record r { scheduler = (replacement_synced_break w.draw start.name origin r.scheduler).0 })
        e
        (
          ap is_pending (replacement_synced_break-state w.draw start.name origin r.scheduler)
              ∙ same,
          shows,
        )

  merge_position-InStep :
      (p : SyncSchedulerPosition) (r : DaemonRuntime)
      → IsInStep d r
      → IsInStep d (merge_position w p r)
  unfolding merge_position
  merge_position-InStep p r (same, shows) =
      let merged = merge_synced_position (scheduler_position_from_sync p) r.scheduler in
      update_if-InStep d w alive merged.1 (record r { scheduler = merged.0 })
        (
          ap is_pending (merge_synced_position-state (scheduler_position_from_sync p) r.scheduler)
              ∙ same,
          shows,
        )

  apply_against-InStep :
      (peer : PeerId) (origin : BreakOrigin) (start : SyncedBreakStart)
      (current : Option CurrentBreakState) (r : DaemonRuntime)
      → r.current_break ≡ current
      → IsInStep d r
      → IsInStep d (apply_against w peer origin start current r).0
  unfolding apply_against
  apply_against-InStep peer origin start none r e h = start_synced_break-InStep origin start r h
  apply_against-InStep peer origin start (some current) r e h =
      elim (Bool-cases (
        synced_break_replaces_current r.local_peer_id peer origin current.origin start.started_at_ms
          current.started_at_ms)) [
            | inl wins ↦ rw wins (replace_with_synced-InStep origin start current r e h)
            | inr loses ↦ rw loses (merge_position-InStep start.position r h)
          ]

  apply_with_origin-InStep :
      (peer : PeerId) (origin : Option BreakOrigin) (start : SyncedBreakStart) (r : DaemonRuntime)
      → IsInStep d r
      → IsInStep d (apply_with_origin w peer origin start r).0
  unfolding apply_with_origin
  apply_with_origin-InStep peer none start r h = h
  apply_with_origin-InStep peer (some origin) start r h =
      elim (Bool-cases (has_break r.scheduler start.name)) [
        | inl known ↦ rw known (apply_against-InStep peer origin start r.current_break r refl h)
        | inr unknown ↦ rw unknown h
      ]

  pub apply_synced_break_start-InStep :
      (peer : PeerId) (start : SyncedBreakStart) (r : DaemonRuntime)
      → IsInStep d r
      → IsInStep d (apply_synced_break_start w peer start r).0
  unfolding apply_synced_break_start
  apply_synced_break_start-InStep peer start r h =
      apply_with_origin-InStep peer (break_origin_from_sync start.origin) start r h

  apply_active-InStep :
      (peer : PeerId) (position : SyncSchedulerPosition) (active : Option SyncActiveBreak)
      (r : DaemonRuntime)
      → IsInStep d r
      → IsInStep d (apply_active w peer position active r).0
  unfolding apply_active
  apply_active-InStep peer position none r h = h
  apply_active-InStep peer position (some active) r h =
      apply_synced_break_start-InStep peer (active_start position active) r h

  pub apply_synced_scheduler_state-InStep :
      (peer : PeerId) (position : SyncSchedulerPosition) (active : Option SyncActiveBreak)
      (r : DaemonRuntime)
      → IsInStep d r
      → IsInStep d (apply_synced_scheduler_state w peer position active r).0
  unfolding apply_synced_scheduler_state
  apply_synced_scheduler_state-InStep peer position active r h =
      let applied = apply_active-InStep peer position active r h in
      elim (Bool-cases (apply_active w peer position active r).1) [
        | inl going ↦
            rw going
              (merge_position-InStep position (apply_active w peer position active r).0 applied)
        | inr stopped ↦ rw stopped applied
      ]
