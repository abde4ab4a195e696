-- ===== src/Runtime/InStep.antt =====
-- src/runtime.rs: the current break, the scheduler and the backend's overlay under the operations on
-- breaks.
use rusteyes.Common.{
  ℕ, ◌≡◌, refl, sym, ap, ◌∙◌, Bool, true, false, Option, none, some, List, [], ◌∷◌, Bool-cases, inl,
  inr, ◌==◌,
}
use rusteyes.Common.Text.{Text}
use rusteyes.Protocol.{SyncEvent}
use rusteyes.Scheduler.{BreakScheduler, ScheduledBreak, SchedulerState, ready, pending}
use rusteyes.Scheduler
use rusteyes.Scheduler.Operations
use rusteyes.Scheduler.Operations.{is_pending, start_manual_break}
use rusteyes.Runtime.{
  BackendCommand, start_break, replace_active_break, finish_break, request_lock_after_current_break,
  clear_break, CurrentBreakState, DaemonRuntime, SyncPropagation, World,
}
use rusteyes.Runtime.Display.{
  clear_pre_break_notice, update_availability, update_status_display, notify_upcoming_break,
}
use rusteyes.Runtime.Breaks.{
  advance_active, advance_handed, broadcast_if_needed, command_and_broadcast, finish,
  finish_current, finish_scheduler, handle_command, lock_after_current, remaining_break_duration,
  request_lock, show_break, start_break_at, start_manual, start_named, update_if,
}
use rusteyes.Runtime.Pending.{Hands, nothing, hands, advance_active-Hands, start_manual_break-Hands}

abbrev pub is_showing : Option CurrentBreakState → Bool
is_showing none = false
is_showing (some current) = true

-- Whether the overlay is up behind the commands, the newest first.
abbrev pub overlay : List BackendCommand → Bool
overlay [] = false
overlay (start_break b ∷ commands) = true
overlay (replace_active_break message remaining lock_after ∷ commands) = overlay commands
overlay (finish_break lock_after ∷ commands) = false
overlay (request_lock_after_current_break ∷ commands) = overlay commands
overlay (clear_break ∷ commands) = false

-- A break is pending in the scheduler just when the runtime has a current one, and, if commands are
-- delivered, just then the overlay is up.
abbrev pub InStep : Bool → SchedulerState → Option CurrentBreakState → List BackendCommand → Type 0
InStep delivered state current commands =
    (is_pending state ≡ is_showing current)
    × (delivered ≡ true → overlay commands ≡ is_showing current)

abbrev pub IsInStep : Bool → DaemonRuntime → Type 0
IsInStep delivered r = InStep delivered r.scheduler.state r.current_break r.backend_commands

finished-is_pending : (state : SchedulerState) → is_pending (Operations.finished state).0 ≡ false
finished-is_pending (ready Scheduler.disabled) = refl
finished-is_pending (ready Scheduler.active) = refl
finished-is_pending (pending resume) = refl

pub not_showing : (current : Option CurrentBreakState) → is_showing current ≡ false → current ≡ none
not_showing none h = refl
not_showing (some current) h = cc

-- What `finish_scheduler` leaves.
pub record IsFinished (r t : DaemonRuntime) : Type 0 where
  pub is_idle : is_pending t.scheduler.state ≡ false
  pub same_break : t.current_break ≡ r.current_break
  pub same_commands : t.backend_commands ≡ r.backend_commands

update_if-IsFinished :
    (changed : Bool) (w : World) (r : DaemonRuntime)
    → is_pending r.scheduler.state ≡ false
    → IsFinished r (update_if changed w r)
unfolding update_if update_status_display update_availability
update_if-IsFinished true w r h = record { is_idle = h; same_break = refl; same_commands = refl }
update_if-IsFinished false w r h = record { is_idle = h; same_break = refl; same_commands = refl }

pub finish_scheduler-IsFinished :
    (w : World) (r : DaemonRuntime) → IsFinished r (finish_scheduler w r)
unfolding finish_scheduler Operations.finish_break
finish_scheduler-IsFinished w r =
    let f =
      update_if-IsFinished (Operations.finished r.scheduler.state).1 w
        (record r { scheduler = (Operations.finish_break r.scheduler).0 })
        (finished-is_pending r.scheduler.state) in
    record { is_idle = f.is_idle; same_break = f.same_break; same_commands = f.same_commands }

module _ (d : Bool) (w : World) (alive : d ≡ true → w.backend_alive ≡ true) where
  pub update_if-InStep :
      (changed : Bool) (r : DaemonRuntime) → IsInStep d r → IsInStep d (update_if changed w r)
  unfolding update_if update_status_display update_availability
  update_if-InStep true r h = h
  update_if-InStep false r h = h

  -- With no current break, a scheduler that finishes is in step if the overlay is down.
  pub finish_scheduler-InStep :
      (r : DaemonRuntime)
      → r.current_break ≡ none
      → (d ≡ true → overlay r.backend_commands ≡ false)
      → IsInStep d (finish_scheduler w r)
  finish_scheduler-InStep r gone down =
      let f = finish_scheduler-IsFinished w r in
      let none_showing = ap is_showing (f.same_break ∙ gone) in
      (f.is_idle ∙ sym none_showing, λ on. ap overlay f.same_commands ∙ down on ∙ sym none_showing)

  -- A command that puts the overlay where it should be.
  pub handle_command-InStep :
      (command : BackendCommand) (r : DaemonRuntime)
      → is_pending r.scheduler.state ≡ is_showing r.current_break
      → (d ≡ true → overlay (command ∷ r.backend_commands) ≡ is_showing r.current_break)
      → IsInStep d (handle_command w command r).0
  unfolding handle_command
  handle_command-InStep command r same shows = (same, λ on. rw (alive on) (shows on))

  pub command_and_broadcast-InStep :
      (command : BackendCommand) (propagation : SyncPropagation) (event : SyncEvent)
      (r : DaemonRuntime)
      → is_pending r.scheduler.state ≡ is_showing r.current_break
      → (d ≡ true → overlay (command ∷ r.backend_commands) ≡ is_showing r.current_break)
      → IsInStep d (command_and_broadcast w command propagation event r).0
  unfolding command_and_broadcast handle_command broadcast_if_needed
  command_and_broadcast-InStep command propagation event r same shows =
      elim (Bool-cases w.backend_alive) [
        | inl live ↦ rw live (same, shows)
        | inr dead ↦ rw dead (same, λ on. let clash : true ≡ false = sym (alive on) ∙ dead in cc)
      ]

  -- With no current break, a command that takes the overlay down.
  pub finish_with-InStep :
      (command : BackendCommand) (r : DaemonRuntime)
      → r.current_break ≡ none
      → overlay (command ∷ r.backend_commands) ≡ false
      → IsInStep d (handle_command w command (finish_scheduler w r)).0
  finish_with-InStep command r gone down =
      let f = finish_scheduler-IsFinished w r in
      let none_showing = ap is_showing (f.same_break ∙ gone) in
      handle_command-InStep command (finish_scheduler w r) (f.is_idle ∙ sym none_showing) (λ on.
        ap (λ commands. overlay (command ∷ commands)) f.same_commands ∙ down ∙ sym none_showing)

  -- A break that the scheduler has just handed out is shown, or finished at once.
  pub start_break_at-InStep :
      (b : ScheduledBreak) (started_at_ms : ℕ) (propagation : SyncPropagation) (r : DaemonRuntime)
      → is_pending r.scheduler.state ≡ true
      → r.current_break ≡ none
      → (d ≡ true → overlay r.backend_commands ≡ false)
      → IsInStep d (start_break_at w b started_at_ms propagation r).0
  unfolding start_break_at show_break clear_pre_break_notice
  start_break_at-InStep b started_at_ms propagation r was gone down =
      elim (Bool-cases (remaining_break_duration w started_at_ms b.duration == 0)) [
        | inl over ↦ rw over (finish_scheduler-InStep r gone down)
        | inr left ↦ rw left (command_and_broadcast-InStep _ propagation _ _ was (λ on. refl))
      ]

  -- The rest of an operation whose scheduler may have handed out a break.
  pub advance_handed-InStep :
      (propagation : SyncPropagation) (r : DaemonRuntime)
      {o : BreakScheduler × Option ScheduledBreak}
      → IsInStep d r
      → Hands r.scheduler.state o
      → IsInStep d (advance_handed w propagation o.1 (record r { scheduler = o.0 })).0
  unfolding advance_handed clear_pre_break_notice update_status_display update_availability
      notify_upcoming_break
  advance_handed-InStep propagation r (same, shows) (nothing t kept) = (kept ∙ same, shows)
  advance_handed-InStep propagation r (same, shows) (hands t b free was) =
      let gone : r.current_break ≡ none = not_showing r.current_break (sym same ∙ free) in
      start_break_at-InStep b w.now propagation _ was gone (λ on. shows on ∙ ap is_showing gone)

  pub start_named-InStep :
      (propagation : SyncPropagation) (r : DaemonRuntime)
      {o : BreakScheduler × Option ScheduledBreak}
      → IsInStep d r
      → Hands r.scheduler.state o
      → IsInStep d (start_named w propagation o.1 (record r { scheduler = o.0 })).0
  unfolding start_named update_status_display update_availability
  start_named-InStep propagation r (same, shows) (nothing t kept) = (kept ∙ same, shows)
  start_named-InStep propagation r (same, shows) (hands t b free was) =
      let gone : r.current_break ≡ none = not_showing r.current_break (sym same ∙ free) in
      start_break_at-InStep b w.now propagation _ was gone (λ on. shows on ∙ ap is_showing gone)

  pub advance_active-InStep :
      (elapsed : ℕ) (propagation : SyncPropagation) (r : DaemonRuntime)
      → IsInStep d r
      → IsInStep d (advance_active w elapsed propagation r).0
  unfolding advance_active
  advance_active-InStep elapsed propagation r h =
      advance_handed-InStep propagation r h (advance_active-Hands w.draw elapsed r.scheduler)

  pub start_manual-InStep :
      (name : Text) (propagation : SyncPropagation) (r : DaemonRuntime)
      → IsInStep d r
      → IsInStep d (start_manual w name propagation r).0
  unfolding start_manual
  start_manual-InStep name propagation r h =
      start_named-InStep propagation r h (start_manual_break-Hands w.draw name r.scheduler)

  finish_current-InStep :
      (current : Option CurrentBreakState) (r : DaemonRuntime)
      → r.current_break ≡ current
      → IsInStep d r
      → IsInStep d (finish_current w current r).0
  unfolding finish_current
  finish_current-InStep none r e h = h
  finish_current-InStep (some current) r e h =
      finish_with-InStep (finish_break current.lock_after) (record r { current_break = none }) refl
        refl

  pub finish-InStep : (r : DaemonRuntime) → IsInStep d r → IsInStep d (finish w r).0
  unfolding finish clear_pre_break_notice
  finish-InStep r h = finish_current-InStep r.current_break (clear_pre_break_notice r) refl h

  lock_after_current-InStep :
      (current : Option CurrentBreakState) (propagation : SyncPropagation) (r : DaemonRuntime)
      → r.current_break ≡ current
      → IsInStep d r
      → IsInStep d (lock_after_current w propagation current r).0
  unfolding lock_after_current
  lock_after_current-InStep none propagation r e h = h
  lock_after_current-InStep (some current) propagation r e (same, shows) =
      elim (Bool-cases current.lock_after) [
        | inl locked ↦ rw locked (same, shows)
        | inr unlocked ↦ rw unlocked (
            command_and_broadcast-InStep _ propagation _ _ (same ∙ ap is_showing e)
              (λ on. shows on ∙ ap is_showing e))
      ]

  pub request_lock-InStep :
      (propagation : SyncPropagation) (r : DaemonRuntime)
      → IsInStep d r
      → IsInStep d (request_lock w propagation r).0
  unfolding request_lock
  request_lock-InStep propagation r h =
      lock_after_current-InStep r.current_break propagation r refl h
