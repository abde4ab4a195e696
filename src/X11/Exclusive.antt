-- ===== src/X11/Exclusive.antt =====
-- src/x11_activity.rs: a break is either active or waits for its start.
use rusteyes.Common.{ℕ, ◌≡◌, refl, Bool, true, false, Option, none, some, ◌∷◌, Bool-cases, inl, inr}
use rusteyes.Common.Text.{Text}
use rusteyes.Common.Result.{Result, ok, err}
use rusteyes.Scheduler.{ScheduledBreak}
use rusteyes.Runtime.{
  BackendCommand, start_break, replace_active_break, finish_break, request_lock_after_current_break,
  clear_break,
}
use rusteyes.X11.{
  bell, Shown, X11OverlayError, X11ActivityError, Display, ObservedTime, PendingBreakStart,
  ActiveBreak, X11ActivityBackend,
}
use rusteyes.X11.Break
use rusteyes.X11.Break.{retry_timed_out, advance, advance_wait}
use rusteyes.X11.Backend.{
  stored, queue_backend_error, destroyed, clear, queue_result, after_show, start_cleared, start,
}
use rusteyes.X11.Commands.{
  lock_handoff, first_error, finish_cleared, finish_with, finish, request_lock_with, request_lock,
  replace_with, replace, handle_command,
}

-- No break is both active and pending.
abbrev pub Excludes : Option ActiveBreak → Option PendingBreakStart → Type 0
Excludes (some active) (some pending) = ⊥
Excludes (some active) none = Unit
Excludes none pending = Unit

abbrev pub IsExclusive : X11ActivityBackend → Type 0
IsExclusive x = Excludes x.active_break x.pending_break

-- Neither active nor pending.
abbrev pub IsCleared : X11ActivityBackend → Type 0
IsCleared x = (x.active_break ≡ none) × (x.pending_break ≡ none)

Excludes-pending_none : (active : Option ActiveBreak) → Excludes active none
Excludes-pending_none none = tt
Excludes-pending_none (some active) = tt

-- With an active break, none is pending.
pub not_pending :
    (active : Option ActiveBreak) (pending : Option PendingBreakStart) (b : ActiveBreak)
    → active ≡ some b
    → Excludes active pending
    → pending ≡ none
not_pending none pending b e h = cc
not_pending (some active) none b e h = refl
not_pending (some active) (some pending) b e h = absurd h

module _ (display : Display) (time_max : ℕ) where
  -- What an operation on the active break leaves, its error queued.
  stored-IsExclusive :
      (end : Shown × Result X11OverlayError (Unit {0})) (x : X11ActivityBackend)
      → x.pending_break ≡ none
      → IsExclusive (queue_result display time_max end.1 (stored end x))
  unfolding queue_result queue_backend_error
  stored-IsExclusive (s, ok _) x e = rw e tt
  stored-IsExclusive (s, err error) x e = rw e tt

  destroyed-IsCleared :
      (active : Option ActiveBreak) (x : X11ActivityBackend)
      → IsCleared x
      → IsCleared (destroyed display time_max active x).0
  unfolding destroyed
  destroyed-IsCleared none x h = h
  destroyed-IsCleared (some active) x h = h

  clear-IsCleared : (x : X11ActivityBackend) → IsCleared (clear display time_max x).0
  unfolding clear
  clear-IsCleared x =
      destroyed-IsCleared x.active_break (record x { pending_break = none; active_break = none })
        (refl, refl)

  queue_result-IsCleared :
      (r : Result X11OverlayError (Unit {0})) (x : X11ActivityBackend)
      → IsCleared x
      → IsCleared (queue_result display time_max r x)
  unfolding queue_result queue_backend_error
  queue_result-IsCleared (ok _) x h = h
  queue_result-IsCleared (err error) x h = h

  finish_cleared-IsCleared :
      (end : X11ActivityBackend × Option X11ActivityError)
      → IsCleared (finish_cleared display time_max end)
  unfolding finish_cleared first_error queue_backend_error
  finish_cleared-IsCleared (x, some error) = clear-IsCleared x
  finish_cleared-IsCleared (x, none) =
      queue_result-IsCleared (clear display time_max x).1 (clear display time_max x).0
        (clear-IsCleared x)

  finish_with-IsCleared :
      (active : Option ActiveBreak) (lock_after : Bool) (x : X11ActivityBackend)
      → IsCleared (finish_with display time_max active lock_after x)
  unfolding finish_with
  finish_with-IsCleared none lock_after x = finish_cleared-IsCleared (x, none)
  finish_with-IsCleared (some active) false x =
      finish_cleared-IsCleared (record x { calls = bell ∷ x.calls }, none)
  finish_with-IsCleared (some active) true x =
      finish_cleared-IsCleared
        (lock_handoff display time_max active (record x { calls = bell ∷ x.calls }))

  -- The commands that end a break.
  abbrev pub Ends : BackendCommand → Type 0
  Ends (start_break b) = ⊥
  Ends (replace_active_break message remaining lock_after) = ⊥
  Ends (finish_break lock_after) = Unit
  Ends request_lock_after_current_break = ⊥
  Ends clear_break = Unit

  -- `FinishBreak` and `ClearBreak` leave no break, active or pending, whatever the display and the
  -- lock command answer.
  pub handle_command-IsCleared :
      (c : BackendCommand) (now : ObservedTime) (x : X11ActivityBackend)
      → Ends c
      → IsCleared (handle_command display time_max c now x)
  unfolding handle_command finish
  handle_command-IsCleared (start_break b) now x h = absurd h
  handle_command-IsCleared (replace_active_break message remaining lock_after) now x h = absurd h
  handle_command-IsCleared (finish_break lock_after) now x h =
      finish_with-IsCleared x.active_break lock_after x
  handle_command-IsCleared request_lock_after_current_break now x h = absurd h
  handle_command-IsCleared clear_break now x h =
      queue_result-IsCleared (clear display time_max x).1 (clear display time_max x).0
        (clear-IsCleared x)

  pub cleared-IsExclusive : (x : X11ActivityBackend) → IsCleared x → IsExclusive x
  cleared-IsExclusive x h = rw (h.0) tt

  after_show-IsExclusive :
      (r : Result X11OverlayError (Unit {0})) (b : ScheduledBreak) (now : ObservedTime)
      (x : X11ActivityBackend)
      → IsCleared x
      → IsExclusive (after_show display time_max r b now x)
  unfolding after_show queue_backend_error
  after_show-IsExclusive (ok _) b now x h = rw (h.1) tt
  after_show-IsExclusive (err error) b now x h = elim (Bool-cases error.is_retryable_grab_failure) [
    | inl again ↦ rw again (rw (h.0) tt)
    | inr fatal ↦ rw fatal (cleared-IsExclusive x h)
  ]

  start_cleared-IsExclusive :
      (r : Result X11OverlayError (Unit {0})) (b : ScheduledBreak) (now : ObservedTime)
      (x : X11ActivityBackend)
      → IsCleared x
      → IsExclusive (start_cleared display time_max r b now x)
  unfolding start_cleared queue_backend_error
  start_cleared-IsExclusive (err error) b now x h = rw (h.0) tt
  start_cleared-IsExclusive (ok _) b now x h = after_show-IsExclusive _ b now _ h

  replace_with-IsExclusive :
      (active : Option ActiveBreak) (message : Text) (remaining : ℕ) (lock_after : Bool)
      (now : ObservedTime) (x : X11ActivityBackend)
      → x.active_break ≡ active
      → IsExclusive x
      → IsExclusive (replace_with display time_max active message remaining lock_after now x)
  unfolding replace_with
  replace_with-IsExclusive none message remaining lock_after now x e h = rw e tt
  replace_with-IsExclusive (some active) message remaining lock_after now x e h =
      stored-IsExclusive
        (Break.replace display time_max now message remaining lock_after
          (record { current = active; calls = x.calls }))
        x (not_pending x.active_break x.pending_break active e h)

  request_lock_with-IsExclusive :
      (active : Option ActiveBreak) (x : X11ActivityBackend)
      → x.active_break ≡ active
      → IsExclusive x
      → IsExclusive (request_lock_with display time_max active x)
  unfolding request_lock_with
  request_lock_with-IsExclusive none x e h = rw e tt
  request_lock_with-IsExclusive (some active) x e h =
      stored-IsExclusive
        (Break.request_lock_after_current_break display
          (record { current = active; calls = x.calls }))
        x (not_pending x.active_break x.pending_break active e h)

  -- Every command keeps it so, whatever the display answers.
  pub handle_command-IsExclusive :
      (c : BackendCommand) (now : ObservedTime) (x : X11ActivityBackend)
      → IsExclusive x
      → IsExclusive (handle_command display time_max c now x)
  unfolding handle_command start replace request_lock
  handle_command-IsExclusive (start_break b) now x h =
      start_cleared-IsExclusive (clear display time_max x).1 b now (clear display time_max x).0
        (clear-IsCleared x)
  handle_command-IsExclusive (replace_active_break message remaining lock_after) now x h =
      replace_with-IsExclusive x.active_break message remaining lock_after now x refl h
  handle_command-IsExclusive (finish_break lock_after) now x h =
      cleared-IsExclusive (handle_command display time_max (finish_break lock_after) now x)
        (handle_command-IsCleared (finish_break lock_after) now x tt)
  handle_command-IsExclusive request_lock_after_current_break now x h =
      request_lock_with-IsExclusive x.active_break x refl h
  handle_command-IsExclusive clear_break now x h =
      cleared-IsExclusive (handle_command display time_max clear_break now x)
        (handle_command-IsCleared clear_break now x tt)
