-- ===== src/X11/Retry.antt =====
-- src/x11_activity.rs: how long the start of a break is tried again.
use rusteyes.Common.{
  ℕ, zero, suc, ◌+◌, ◌*◌, ◌<◌, ◌≡◌, refl, ◌∙◌, ap, subst, true, false, none, some, List, [], ◌∷◌,
  ◌++◌, arith, length,
}
use mathlib.Core.List.{append_assoc}
use rusteyes.X11.Exclusive.{IsCleared}
use rusteyes.Common.Result.{err}
use rusteyes.Activity.{queue_event, RuntimeEvent, wall_clock_elapsed, break_start_failed}
use rusteyes.X11.{
  overlay_tick_interval, X11OverlayError, Call, show, Display, ObservedTime, PendingBreakStart,
  X11ActivityBackend,
}
use rusteyes.X11.Break.{advance_wait, retry_timed_out}
use rusteyes.X11.Backend.{queue, after_retry, sample_pending_break_once, sample_by, sample_once}

-- Each grab of the input fails, and could be tried again.
abbrev pub Refuses : Display → Type 0
Refuses display =
    (calls : List Call) (call : Call)
    → (error : X11OverlayError) × (display.overlay calls call ≡ err error)
      × (error.is_retryable_grab_failure ≡ true)

-- The wall clock's ticks of so many samples.
abbrev pub ticks : ℕ → List RuntimeEvent
ticks zero = []
ticks (suc n) = wall_clock_elapsed overlay_tick_interval ∷ ticks n

-- A pending start that has been tried for so many ticks after the first.
abbrev pub IsWaiting : ℕ → X11ActivityBackend → Type 0
IsWaiting n x =
    (p : PendingBreakStart) × (x.active_break ≡ none)
    × (x.pending_break ≡ some p)
    × (p.waited ≡ n * overlay_tick_interval)

module _ (display : Display) (time_max : ℕ) where
  -- Samples one after the other, while there is no error.
  unfoldable pub run_samples : List ObservedTime → X11ActivityBackend → X11ActivityBackend
  run_samples [] x = x
  run_samples (now ∷ times) x = run_samples times (sample_once display time_max now x).0

  -- One more try of a refused start.
  retry-waits :
      (n : ℕ) (now : ObservedTime) (x : X11ActivityBackend)
      → Refuses display
      → IsWaiting n x
      → suc n < 20
      → (let y = (sample_once display time_max now x).0 in
          IsWaiting (suc n) y
          × (y.poller.events ≡ x.poller.events ++ wall_clock_elapsed overlay_tick_interval ∷ []))
  unfolding sample_once sample_by sample_pending_break_once after_retry queue queue_event
      advance_wait retry_timed_out
  retry-waits n now x refuses (p, ea, ep, ew) more =
      let waited : PendingBreakStart = advance_wait overlay_tick_interval p in
      let (error, refused, again) = refuses x.calls (show waited.scheduled_break) in
      let early : retry_timed_out waited ≡ false = ground arith in
      rw (ea, ep, refused, again, early) ((waited, refl, refl, ground arith), refl)

  -- The last try of a refused start.
  retry-gives_up :
      (now : ObservedTime) (x : X11ActivityBackend)
      → Refuses display
      → IsWaiting 19 x
      → (let y = (sample_once display time_max now x).0 in
          IsCleared y
          × (y.poller.events
              ≡ x.poller.events
                ++ (wall_clock_elapsed overlay_tick_interval ∷ break_start_failed ∷ [])))
  unfolding sample_once sample_by sample_pending_break_once after_retry queue queue_event
      advance_wait retry_timed_out
  retry-gives_up now x refuses (p, ea, ep, ew) =
      let waited : PendingBreakStart = advance_wait overlay_tick_interval p in
      let (error, refused, again) = refuses x.calls (show waited.scheduled_break) in
      let late : retry_timed_out waited ≡ true = ground arith in
      rw (ea, ep, refused, again, late)
        (
          (refl, refl),
          append_assoc x.poller.events (wall_clock_elapsed overlay_tick_interval ∷ [])
              (break_start_failed ∷ []),
        )

  retry_from :
      (n : ℕ) (times : List ObservedTime) (x : X11ActivityBackend)
      → Refuses display
      → IsWaiting n x
      → n + length times ≡ 20
      → 0 < length times
      → (let y = run_samples times x in
          IsCleared y
          × (y.poller.events
              ≡ x.poller.events ++ (ticks (length times) ++ break_start_failed ∷ [])))
  unfolding run_samples
  retry_from n [] x refuses waiting total some_left = absurd (omega arith)
  retry_from n (now ∷ []) x refuses waiting total some_left =
      retry-gives_up now x refuses
        (subst (λ k. IsWaiting k x) (let e : n ≡ 19 = omega arith in e) waiting)
  retry_from n (now ∷ later ∷ times) x refuses waiting total some_left =
      let (next, first) = retry-waits n now x refuses waiting (omega arith) in
      let (cleared, rest) =
        retry_from (suc n) (later ∷ times) (sample_once display time_max now x).0 refuses next
          (omega arith) (omega arith) in
      (
        cleared,
        rest
            ∙ ap (λ l. l ++ (ticks (suc (length times)) ++ break_start_failed ∷ [])) first
            ∙ append_assoc x.poller.events (wall_clock_elapsed overlay_tick_interval ∷ [])
                (ticks (suc (length times)) ++ break_start_failed ∷ []),
      )

  -- A start of a break that the display keeps refusing, with failures that may be tried again, is given
  -- up at the twentieth sample, ten seconds after the first: after twenty samples the break is neither
  -- active nor pending, and the events queued are the twenty ticks of the wall clock and then one
  -- `BreakStartFailed`.
  pub run_samples-gives_up :
      (times : List ObservedTime) (x : X11ActivityBackend)
      → Refuses display
      → IsWaiting 0 x
      → length times ≡ 20
      → (let y = run_samples times x in
          IsCleared y
          × (y.poller.events ≡ x.poller.events ++ (ticks 20 ++ break_start_failed ∷ [])))
  run_samples-gives_up times x refuses waiting total =
      let (cleared, events) = retry_from 0 times x refuses waiting (omega arith) (omega arith) in
      (cleared, rw total at events)
