-- ===== src/X11/Finish.antt =====
-- src/x11_activity.rs: how often the end of a break is reported.
use rusteyes.Common.{
  ℕ, ◌+◌, ◌-◌, min, ◌≤◌, ◌≡◌, refl, ap, ◌∙◌, Bool, true, false, not, ◌||◌, Option, none, some, List,
  [], ◌∷◌, Bool-cases, inl, inr, arith,
}
use rusteyes.Common.Text.{Text}
use rusteyes.Common.Words.{millis}
use rusteyes.Common.Result.{Result, ok, err, Result-cases}
use rusteyes.Activity.{
  queue_event, RuntimeEvent, wall_clock_elapsed, break_finished, break_start_failed, is_finished_at,
}
use rusteyes.Activity.Finishes.{
  finish_weight, count_finished, count_finished-append, queue_sample_at-count,
}
use rusteyes.X11.{
  X11OverlayError, Call, raise, update_remaining, handle_pending_events, Display, ObservedTime,
  PendingBreakStart, ActiveBreak, BreakAdvance, X11ActivityBackend, Shown, overlay_tick_interval,
  show, query_idle,
}
use rusteyes.X11.Break.{
  advance, advance_wait, retry_timed_out, poll_overlay, elapsed_since_last_observation,
  remaining_now, mark_finished_if_due,
}
use rusteyes.X11.Backend.{
  queue, queue_if, stored, queue_advance, sample_overlay_once, after_retry,
  sample_pending_break_once, sampled, sample_activity_once, sample_by, sample_once,
}
use rusteyes.X11.Retry.{run_samples}

abbrev one_if : Bool → ℕ
one_if true = 1
one_if false = 0

-- 1 if there is an active break whose end has been reported.
abbrev pub reported : Option ActiveBreak → ℕ
reported none = 0
reported (some b) = one_if b.finish_reported

abbrev weight_of : Result X11OverlayError BreakAdvance → ℕ
weight_of (ok a) = one_if a.finished
weight_of (err error) = 0

abbrev counted : Bool → RuntimeEvent → ℕ
counted true event = finish_weight event
counted false event = 0

weights :
    (asked finished : Bool)
    → (counted asked RuntimeEvent.lock_after_current_break ≡ 0)
      × (counted finished break_finished ≡ one_if finished)
weights true true = (refl, refl)
weights true false = (refl, refl)
weights false true = (refl, refl)
weights false false = (refl, refl)

queue_if-balance :
    (b : Bool) (event : RuntimeEvent) (x : X11ActivityBackend)
    → (count_finished (queue_if b event x).poller.events
        ≡ count_finished x.poller.events + counted b event)
      × ((queue_if b event x).active_break ≡ x.active_break)
unfolding queue queue_event
queue_if-balance true event x = (count_finished-append x.poller.events event, refl)
queue_if-balance false event x = (omega arith, refl)

module _ (display : Display) where
  -- An advance finishes a break only if that was not reported, and reports it then.
  advance-balance :
      (now : ObservedTime) (s : Shown)
      → (let end = advance display now s in
          weight_of end.1 + one_if s.current.finish_reported ≤ one_if end.0.current.finish_reported)
  unfolding advance poll_overlay elapsed_since_last_observation remaining_now mark_finished_if_due
  advance-balance now s = elim (Result-cases (display.lock_requested s.calls)) [
    | inr (error, e) ↦ rw e (omega arith)
    | inl (asked, e) ↦
        elim (Result-cases (display.overlay (handle_pending_events ∷ s.calls) raise)) [
          | inr (error, e2) ↦ rw (e, e2) (omega arith)
          | inl (_, e2) ↦
              elim (Bool-cases
                (s.current.finish_reported || not (is_finished_at s.current.deadline now.wall))) [
                  | inl skip ↦ rw (e, e2, skip) (ground arith)
                  | inr due ↦ rw (e, e2, due) (ground arith)
                ]
        ]
  ]

  module _ (time_max : ℕ) where
    queue_advance-balance :
        (r : Result X11OverlayError BreakAdvance) (x : X11ActivityBackend)
        → (count_finished (queue_advance display time_max r x).0.poller.events
            ≡ count_finished x.poller.events + weight_of r)
          × ((queue_advance display time_max r x).0.active_break ≡ x.active_break)
    unfolding queue_advance queue queue_event
    queue_advance-balance (err error) x = (omega arith, refl)
    queue_advance-balance (ok a) x =
        let (q, kept) =
          queue_if-balance a.lock_after_break_requested RuntimeEvent.lock_after_current_break
            (queue (wall_clock_elapsed a.elapsed) x) in
        let (f, kept2) = queue_if-balance a.finished break_finished (
          queue_if a.lock_after_break_requested RuntimeEvent.lock_after_current_break
            (queue (wall_clock_elapsed a.elapsed) x)) in
        (
          omega (
            arith,
            f,
            q,
            count_finished-append x.poller.events (wall_clock_elapsed a.elapsed),
            weights a.lock_after_break_requested a.finished,
          ),
          kept2 ∙ kept,
        )

    after_retry-count :
        (r : Result X11OverlayError (Unit {0})) (p : PendingBreakStart) (now : ObservedTime)
        (x : X11ActivityBackend)
        → count_finished (after_retry display time_max r p now x).0.poller.events
          ≡ count_finished x.poller.events
    unfolding after_retry queue queue_event
    after_retry-count (ok _) p now x = refl
    after_retry-count (err error) p now x = elim (Bool-cases error.is_retryable_grab_failure) [
      | inr fatal ↦ rw fatal refl
      | inl again ↦ elim (Bool-cases (retry_timed_out p)) [
        | inl over ↦
            rw (again, over)
              (omega (arith, count_finished-append x.poller.events break_start_failed))
        | inr waits ↦ rw (again, waits) refl
      ]
    ]

    sampled-count :
        (r : Result Text ℕ) (now : ObservedTime) (x : X11ActivityBackend)
        → count_finished (sampled display time_max r now x).0.poller.events
          ≡ count_finished x.poller.events
    unfolding sampled
    sampled-count (err message) now x = refl
    sampled-count (ok idle_ms) now x = queue_sample_at-count (millis idle_ms) now.wall x.poller

    sample_by-balance :
        (shown : Option ActiveBreak) (pending : Option PendingBreakStart) (now : ObservedTime)
        (x : X11ActivityBackend)
        → (let y = (sample_by display time_max shown pending now x).0 in
            count_finished y.poller.events + reported shown
            ≤ count_finished x.poller.events + reported y.active_break)
    unfolding sample_by sample_overlay_once sample_pending_break_once sample_activity_once
    sample_by-balance (some b) pending now x =
        let end = advance display now (record { current = b; calls = x.calls }) in
        let (c, kept) = queue_advance-balance end.1 (stored end x) in
        omega (
          arith,
          c,
          ap reported kept,
          advance-balance now (record { current = b; calls = x.calls }),
        )
    sample_by-balance none (some pending) now x =
        let waited = advance_wait overlay_tick_interval pending in
        let taken =
          queue (wall_clock_elapsed overlay_tick_interval)
            (record x { pending_break = none; calls = show waited.scheduled_break ∷ x.calls }) in
        let c =
          after_retry-count (display.overlay x.calls (show waited.scheduled_break)) waited now
            taken in
        let t : count_finished taken.poller.events ≡ count_finished x.poller.events =
          unfold queue queue_event in
          omega (
            arith,
            count_finished-append x.poller.events (wall_clock_elapsed overlay_tick_interval),
          ) in
        omega (arith, c, t)
    sample_by-balance none none now x = omega (
      arith,
      sampled-count (display.idle x.calls) now (record x { calls = query_idle ∷ x.calls }),
    )

    run_samples-balance :
        (times : List ObservedTime) (x : X11ActivityBackend)
        → (let y = run_samples display time_max times x in
            count_finished y.poller.events + reported x.active_break
            ≤ count_finished x.poller.events + reported y.active_break)
    unfolding run_samples sample_once
    run_samples-balance [] x = omega arith
    run_samples-balance (now ∷ times) x = omega (
      arith,
      run_samples-balance times (sample_by display time_max x.active_break x.pending_break now x).0,
      sample_by-balance x.active_break x.pending_break now x,
    )

    reported-le : (shown : Option ActiveBreak) → reported shown ≤ 1
    reported-le none = omega arith
    reported-le (some b) = ground arith

    -- However many samples are taken between two commands, and whatever the display answers, at most one
    -- `BreakFinished` is queued, and none if the end of the active break had been reported before.
    pub run_samples-finished_once :
        (times : List ObservedTime) (x : X11ActivityBackend)
        → count_finished (run_samples display time_max times x).poller.events
            + reported x.active_break
          ≤ count_finished x.poller.events + 1
    run_samples-finished_once times x =
        let y = run_samples display time_max times x in
        omega (arith, run_samples-balance times x, reported-le y.active_break)

-- No call of the overlay fails.
abbrev pub Works : Display → Type 0
Works display =
    ((calls : List Call) → (asked : Bool) × (display.lock_requested calls ≡ ok asked))
    × ((calls : List Call) (call : Call) → display.overlay calls call ≡ ok tt)

module _ (display : Display) (time_max : ℕ) where
  advance-finishes :
      (now : ObservedTime) (s : Shown)
      → Works display
      → s.current.finish_reported ≡ false
      → is_finished_at s.current.deadline now.wall ≡ true
      → (weight_of (advance display now s).1 ≡ 1)
        × (one_if (advance display now s).0.current.finish_reported ≡ 1)
  unfolding advance poll_overlay elapsed_since_last_observation remaining_now mark_finished_if_due
  advance-finishes now s (asks, works) fresh due =
      let (asked, e) = asks s.calls in
      let e2 = works (handle_pending_events ∷ s.calls) raise in
      let test : (s.current.finish_reported || not (is_finished_at s.current.deadline now.wall))
          ≡ false =
        ground arith in
      rw (e, e2, test)
        (ground (
          arith,
          works (raise ∷ handle_pending_events ∷ s.calls) (
              update_remaining
                (min (s.current.deadline.ends_at - now.wall) s.current.deadline.duration)),
        ))

  -- The first sample of an active break at or after its deadline queues one `BreakFinished`, and marks
  -- the end as reported. No call of the overlay fails.
  pub sample_once-finishes :
      (now : ObservedTime) (x : X11ActivityBackend) (b : ActiveBreak)
      → Works display
      → x.active_break ≡ some b
      → b.finish_reported ≡ false
      → is_finished_at b.deadline now.wall ≡ true
      → (let y = (sample_once display time_max now x).0 in
          (count_finished y.poller.events ≡ count_finished x.poller.events + 1)
          × (reported y.active_break ≡ 1))
  unfolding sample_once sample_by sample_overlay_once
  sample_once-finishes now x b works shown fresh due =
      let s : Shown = record { current = b; calls = x.calls } in
      let end = advance display now s in
      let (weight, marked) = advance-finishes now s works fresh due in
      let (c, kept) = queue_advance-balance display time_max end.1 (stored end x) in
      rw shown (omega (arith, c, weight), ap reported kept ∙ marked)
