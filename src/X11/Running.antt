-- ===== src/X11/Running.antt =====
-- src/x11_activity.rs: a break is either active or waits for its start, over samples and a whole run.
use rusteyes.Common.{
  ℕ, ◌≡◌, refl, sym, subst₂, ◌∙◌, ◌++◌, [], Option, none, some, List, ◌∷◌, Bool-cases, inl, inr,
  arith,
}
use rusteyes.Common.Text.{Text}
use rusteyes.Common.Result.{Result, ok, err}
use rusteyes.X11.{
  show, query_idle, overlay_tick_interval, X11OverlayError, X11ActivityError, Display, ObservedTime,
  PendingBreakStart, ActiveBreak, BreakAdvance, X11ActivityBackend,
}
use rusteyes.X11.Break.{retry_timed_out, advance, advance_wait}
use rusteyes.Activity.{RuntimeEvent, wall_clock_elapsed}
use rusteyes.X11.Backend.{
  stored, queue, sampled, sample_activity_once, queue_advance, sample_overlay_once, after_retry,
  sample_pending_break_once, sample_by, sample_once,
}
use rusteyes.X11.Commands.{
  BackendWait, command, timeout, disconnected, run_round, after_sample, while_running, run_actor,
}
use rusteyes.X11.Exclusive.{
  Excludes, IsExclusive, IsCleared, not_pending, cleared-IsExclusive, handle_command-IsExclusive,
}

module _ (display : Display) (time_max : ℕ) where
  after_retry-IsExclusive :
      (r : Result X11OverlayError (Unit {0})) (p : PendingBreakStart) (now : ObservedTime)
      (x : X11ActivityBackend)
      → IsCleared x
      → IsExclusive (after_retry display time_max r p now x).0
  unfolding after_retry queue
  after_retry-IsExclusive (ok _) p now x h = rw (h.1) tt
  after_retry-IsExclusive (err error) p now x h =
      elim (Bool-cases error.is_retryable_grab_failure) [
        | inr fatal ↦ rw fatal (cleared-IsExclusive display time_max x h)
        | inl again ↦ elim (Bool-cases (retry_timed_out p)) [
          | inl over ↦ rw (again, over) (rw (h.0) tt)
          | inr waits ↦ rw (again, waits) (rw (h.0) tt)
        ]
      ]

  queue_advance-breaks :
      (r : Result X11OverlayError BreakAdvance) (x : X11ActivityBackend)
      → ((queue_advance display time_max r x).0.active_break ≡ x.active_break)
        × ((queue_advance display time_max r x).0.pending_break ≡ x.pending_break)
  unfolding queue_advance
  queue_advance-breaks (err error) x = (refl, refl)
  queue_advance-breaks (ok a) x = ground (arith, queue)

  sampled-breaks :
      (r : Result Text ℕ) (now : ObservedTime) (x : X11ActivityBackend)
      → ((sampled display time_max r now x).0.active_break ≡ x.active_break)
        × ((sampled display time_max r now x).0.pending_break ≡ x.pending_break)
  unfolding sampled
  sampled-breaks (err message) now x = (refl, refl)
  sampled-breaks (ok idle_ms) now x = (refl, refl)

  sample_by-IsExclusive :
      (active : Option ActiveBreak) (pending : Option PendingBreakStart) (now : ObservedTime)
      (x : X11ActivityBackend)
      → x.active_break ≡ active
      → x.pending_break ≡ pending
      → IsExclusive x
      → IsExclusive (sample_by display time_max active pending now x).0
  unfolding sample_by sample_overlay_once sample_pending_break_once
  sample_by-IsExclusive (some active) pending now x ea ep h =
      let free = not_pending x.active_break x.pending_break active ea h in
      let end = advance display now (record { current = active; calls = x.calls }) in
      let (a, p) = queue_advance-breaks end.1 (stored end x) in rw (a, p, free) tt
  sample_by-IsExclusive none (some pending) now x ea ep h =
      let waited = advance_wait overlay_tick_interval pending in
      after_retry-IsExclusive (display.overlay x.calls (show waited.scheduled_break)) waited now
        (queue (wall_clock_elapsed overlay_tick_interval)
          (record x { pending_break = none; calls = show waited.scheduled_break ∷ x.calls }))
        (unfold queue in (ea, refl))
  sample_by-IsExclusive none none now x ea ep h =
      let (a, p) =
        sampled-breaks (display.idle x.calls) now (record x { calls = query_idle ∷ x.calls }) in
      let whole : Excludes none none = tt in
      unfold sample_activity_once in subst₂ Excludes (sym (a ∙ ea)) (sym (p ∙ ep)) whole

  -- Whatever the display answers, a sample and a command never leave a break both active and waiting
  -- for its start.
  pub sample_once-IsExclusive :
      (now : ObservedTime) (x : X11ActivityBackend)
      → IsExclusive x
      → IsExclusive (sample_once display time_max now x).0
  unfolding sample_once
  sample_once-IsExclusive now x h =
      sample_by-IsExclusive x.active_break x.pending_break now x refl refl h

  -- What holds of the backend, if the loop still runs.
  abbrev pub StillExclusive : Option X11ActivityBackend → Type 0
  StillExclusive none = Unit
  StillExclusive (some x) = IsExclusive x

  after_sample-StillExclusive :
      (end : X11ActivityBackend × Result X11ActivityError (Unit {0})) (sent : List RuntimeEvent)
      → IsExclusive end.0
      → StillExclusive (after_sample display time_max end sent).1
  unfolding after_sample
  after_sample-StillExclusive (x, ok _) sent h = h
  after_sample-StillExclusive (x, err error) sent h = tt

  run_round-StillExclusive :
      (wait : BackendWait) (sent : List RuntimeEvent) (x : X11ActivityBackend)
      → IsExclusive x
      → StillExclusive (run_round display time_max wait sent x).1
  unfolding run_round
  run_round-StillExclusive (command c now) sent x h =
      handle_command-IsExclusive display time_max c now
        (record x { poller = record x.poller { events = [] } }) h
  run_round-StillExclusive (timeout now) sent x h =
      let drained : X11ActivityBackend = record x { poller = record x.poller { events = [] } } in
      after_sample-StillExclusive (sample_once display time_max now drained)
        (sent ++ x.poller.events) (sample_once-IsExclusive now drained h)
  run_round-StillExclusive disconnected sent x h = tt

  while_running-StillExclusive :
      (end : List RuntimeEvent × Option X11ActivityBackend)
      (next : List RuntimeEvent
        → X11ActivityBackend
        → List RuntimeEvent × Option X11ActivityBackend)
      → StillExclusive end.1
      → ((sent : List RuntimeEvent) (x : X11ActivityBackend)
          → IsExclusive x
          → StillExclusive (next sent x).1)
      → StillExclusive (while_running end next).1
  while_running-StillExclusive (sent, none) next h keeps = tt
  while_running-StillExclusive (sent, some x) next h keeps = keeps sent x h

  -- While the backend's loop runs, from a backend where no break is both active and waiting for its
  -- start, and through whatever commands and samples, whatever the display and the lock command answer,
  -- no break is both.
  pub run_actor-StillExclusive :
      (waits : List BackendWait) (sent : List RuntimeEvent) (x : X11ActivityBackend)
      → IsExclusive x
      → StillExclusive (run_actor display time_max waits sent x).1
  unfolding run_actor
  run_actor-StillExclusive [] sent x h = h
  run_actor-StillExclusive (wait ∷ waits) sent x h =
      while_running-StillExclusive (run_round display time_max wait sent x)
        (run_actor display time_max waits) (run_round-StillExclusive wait sent x h)
        (λ all next. run_actor-StillExclusive waits all next)
