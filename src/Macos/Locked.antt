-- ===== src/Macos/Locked.antt =====
-- src/macos_helper.rs: a break that ends while the session is locked.
use rusteyes.Common.{
  ◌+◌, ◌-◌, ◌≡◌, refl, ap, ◌∙◌, Bool, true, false, Option, none, some, List, [], ◌∷◌, ◌++◌, All,
  arith, Bool-cases, inl, inr,
}
use rusteyes.Common.Text.{Text}
use rusteyes.Common.Result.{Result, ok, err}
use rusteyes.Activity.{
  is_finished_at, queue_event, RuntimeEvent, wall_clock_elapsed, break_finished,
}
use rusteyes.Activity.Finishes.{count_finished, count_finished-append}
use rusteyes.Runtime.{finish_break}
use rusteyes.Macos.{
  HelperActivitySample, send_command, Helper, MacosLock, platform_default, lock_command,
  ObservedTime, ActiveBreak, MacosHelperCore,
}
use rusteyes.Macos.Break.{
  helper_lock_after, request_lock_after_break, observe_elapsed_at, apply_sample, defer_finish,
  has_deferred_finish,
}
use rusteyes.Macos.Handoff.{apply_overlay_sample-locked}
use rusteyes.Macos.Core.{
  queue, queue_overlay_runtime_events, Outcome, and_then, call, lock_if, finish_taken,
  finish_active_break, finish_deferred_active_break, apply_deferred, apply_update, apply_running,
  apply_to, apply_overlay_sample,
}

-- The break's end was put off, since the session was locked.
abbrev IsDeferred : MacosHelperCore → Type 0
IsDeferred x = (b : ActiveBreak) × (x.active_break ≡ some b) × (has_deferred_finish b ≡ true)

helper_lock_after-false : (lock : MacosLock) → helper_lock_after lock false ≡ false
unfolding helper_lock_after
helper_lock_after-false platform_default = refl
helper_lock_after-false lock_command = refl

module _ (helper : Helper) where
  -- The samples of a session one after the other, while there is no error.
  pub apply_samples : List (HelperActivitySample × ObservedTime) → MacosHelperCore → MacosHelperCore
  apply_samples [] x = x
  apply_samples ((sample, now) ∷ samples) x =
      apply_samples samples (apply_overlay_sample helper sample now x).0

  -- While the session stays locked the break stays, and nothing but the time is queued.
  locked-waits :
      (sample : HelperActivitySample) (now : ObservedTime) (x : MacosHelperCore)
      → sample.session_locked ≡ true
      → IsDeferred x
      → (let y = (apply_overlay_sample helper sample now x).0 in
          IsDeferred y
          × (y.calls ≡ x.calls)
          × (count_finished y.poller.events ≡ count_finished x.poller.events))
  unfolding apply_overlay_sample apply_to apply_deferred observe_elapsed_at queue queue_event
      has_deferred_finish
  locked-waits sample now x locked (b, shown, deferred) =
      let observed : ActiveBreak = record b { last_observed_at = now.monotonic } in
      rw (shown, deferred, locked)
        (
          (observed, refl, deferred),
          refl,
          count_finished-append x.poller.events
                (wall_clock_elapsed (now.monotonic - b.last_observed_at))
              ∙ (omega arith),
        )

  and_then-ok :
      (x : MacosHelperCore) (r : Result Text (Unit {0})) (next : MacosHelperCore → Outcome)
      → r ≡ ok tt
      → and_then (x, r) next ≡ next x
  and_then-ok x (ok tt) next e = refl
  and_then-ok x (err error) next e = cc

  -- A break that ends without a lock.
  sent-false :
      (flag : Bool) (x : MacosHelperCore)
      → flag ≡ false
      → helper.answer x.calls (send_command (finish_break false)) ≡ ok tt
      → and_then (call helper (send_command (finish_break flag)) x) (lock_if helper false)
        ≡ (record x { calls = send_command (finish_break false) ∷ x.calls }, ok tt)
  unfolding lock_if
  sent-false true x e sends = cc
  sent-false false x e sends =
      and_then-ok (record x { calls = send_command (finish_break false) ∷ x.calls })
        (helper.answer x.calls (send_command (finish_break false))) (lock_if helper false) sends

  -- When the session is unlocked, the break ends.
  unlocked-finishes :
      (sample : HelperActivitySample) (now : ObservedTime) (x : MacosHelperCore)
      → sample.session_locked ≡ false
      → IsDeferred x
      → helper.answer x.calls (send_command (finish_break false)) ≡ ok tt
      → (let y = (apply_overlay_sample helper sample now x).0 in
          (y.active_break ≡ none)
          × (y.calls ≡ send_command (finish_break false) ∷ x.calls)
          × (count_finished y.poller.events ≡ count_finished x.poller.events + 1))
  unfolding apply_overlay_sample apply_to apply_deferred observe_elapsed_at queue queue_event
      has_deferred_finish finish_deferred_active_break finish_active_break finish_taken
  unlocked-finishes sample now x unlocked (b, shown, deferred) sends =
      let tick : RuntimeEvent = wall_clock_elapsed (now.monotonic - b.last_observed_at) in
      let z : MacosHelperCore = record x {
        active_break = none;
        calls = send_command (finish_break false) ∷ x.calls;
      } in
      let report : MacosHelperCore → Outcome = λ y. (queue break_finished (queue tick y), ok tt) in
      let ended =
        sent-false (helper_lock_after x.lock false) (record x { active_break = none })
          (helper_lock_after-false x.lock) sends in
      let opened : apply_to helper (some b) sample now x ≡ report z =
        rw (deferred, unlocked) (ap (λ (o : Outcome). and_then o report) ended) in
      let whole : apply_overlay_sample helper sample now x ≡ report z =
        ap (λ a. apply_to helper a sample now x) shown ∙ opened in
      rw whole (
        refl,
        refl,
        count_finished-append (x.poller.events ++ tick ∷ []) break_finished
            ∙ (omega (arith, count_finished-append x.poller.events tick)),
      )

  apply_to-none :
      (active : Option ActiveBreak) (sample : HelperActivitySample) (now : ObservedTime)
      (x : MacosHelperCore)
      → active ≡ none
      → apply_to helper active sample now x ≡ (x, ok tt)
  unfolding apply_to
  apply_to-none none sample now x e = refl
  apply_to-none (some b) sample now x e = cc

  no_break-kept :
      (samples : List (HelperActivitySample × ObservedTime)) (x : MacosHelperCore)
      → x.active_break ≡ none
      → apply_samples samples x ≡ x
  unfolding apply_samples apply_overlay_sample
  no_break-kept [] x none_shown = refl
  no_break-kept ((sample, now) ∷ samples) x none_shown =
      ap (λ (end : Outcome). apply_samples samples end.0)
        (apply_to-none x.active_break sample now x none_shown)
      ∙ no_break-kept samples x none_shown

  abbrev pub IsLocked : HelperActivitySample × ObservedTime → Type 0
  IsLocked (sample, now) = sample.session_locked ≡ true

  -- A break whose end was put off ends exactly once: after any number of samples of the locked session
  -- and one of the unlocked session, and any samples after it.
  apply_samples-deferred :
      (before after : List (HelperActivitySample × ObservedTime)) (sample : HelperActivitySample)
      (now : ObservedTime) (x : MacosHelperCore)
      → IsDeferred x
      → All IsLocked before
      → sample.session_locked ≡ false
      → helper.answer x.calls (send_command (finish_break false)) ≡ ok tt
      → (let y = apply_samples (before ++ (sample, now) ∷ after) x in
          (y.active_break ≡ none)
          × (y.calls ≡ send_command (finish_break false) ∷ x.calls)
          × (count_finished y.poller.events ≡ count_finished x.poller.events + 1))
  unfolding apply_samples
  apply_samples-deferred [] after sample now x deferred locked unlocked sends =
      let y : MacosHelperCore = (apply_overlay_sample helper sample now x).0 in
      let (gone, calls, count) = unlocked-finishes sample now x unlocked deferred sends in
      rw (no_break-kept after y gone) (gone, calls, count)
  apply_samples-deferred ((first, time) ∷ before) after sample now x deferred locked unlocked
        sends =
      let y : MacosHelperCore = (apply_overlay_sample helper first time x).0 in
      let (still, same_calls, same_count) = locked-waits first time x locked.0 deferred in
      let sends' : helper.answer y.calls (send_command (finish_break false)) ≡ ok tt =
        rw same_calls sends in
      let (gone, calls, count) =
        apply_samples-deferred before after sample now y still locked.1 unlocked sends' in
      (gone, calls ∙ ap (λ l. send_command (finish_break false) ∷ l) same_calls, omega arith)

  locked-defers :
      (sample : HelperActivitySample) (now : ObservedTime) (x : MacosHelperCore) (b : ActiveBreak)
      → sample.session_locked ≡ true
      → x.active_break ≡ some b
      → has_deferred_finish b ≡ false
      → is_finished_at b.deadline now.wall ≡ true
      → (let y = (apply_overlay_sample helper sample now x).0 in IsDeferred y × (y.calls ≡ x.calls))
  unfolding apply_overlay_sample apply_to apply_running apply_sample apply_update defer_finish
      has_deferred_finish queue_overlay_runtime_events queue queue_event request_lock_after_break
      observe_elapsed_at
  locked-defers sample now x b locked shown running over =
      elim (Bool-cases sample.lock_after_break_requested) [
        | inl asks ↦ rw (shown, running, locked, asks, over) ((_, refl, refl), refl)
        | inr silent ↦ rw (shown, running, locked, silent, over) ((_, refl, refl), refl)
      ]

  -- A break whose deadline has passed at a sample of the locked session ends exactly once, when the
  -- session is unlocked: after that sample, any number of samples of the locked session, one of the
  -- unlocked session, and any samples after it, there is no active break, exactly one `BreakFinished`
  -- more is queued, and the helper has been told once to finish the break, without a lock, and no lock
  -- command was started. The helper takes that command.
  pub apply_samples-passed :
      (first : HelperActivitySample) (passed : ObservedTime)
      (before after : List (HelperActivitySample × ObservedTime)) (sample : HelperActivitySample)
      (now : ObservedTime) (x : MacosHelperCore) (b : ActiveBreak)
      → x.active_break ≡ some b
      → has_deferred_finish b ≡ false
      → is_finished_at b.deadline passed.wall ≡ true
      → first.session_locked ≡ true
      → All IsLocked before
      → sample.session_locked ≡ false
      → helper.answer x.calls (send_command (finish_break false)) ≡ ok tt
      → (let y = apply_samples ((first, passed) ∷ before ++ (sample, now) ∷ after) x in
          (y.active_break ≡ none)
          × (y.calls ≡ send_command (finish_break false) ∷ x.calls)
          × (count_finished y.poller.events ≡ count_finished x.poller.events + 1))
  unfolding apply_samples
  apply_samples-passed first passed before after sample now x b shown running over locked waits
        unlocked sends =
      let y : MacosHelperCore = (apply_overlay_sample helper first passed x).0 in
      let (deferred, same_calls) = locked-defers first passed x b locked shown running over in
      let same_count = apply_overlay_sample-locked helper first passed x locked in
      let sends' : helper.answer y.calls (send_command (finish_break false)) ≡ ok tt =
        rw same_calls sends in
      let (gone, calls, count) =
        apply_samples-deferred before after sample now y deferred waits unlocked sends' in
      (gone, calls ∙ ap (λ l. send_command (finish_break false) ∷ l) same_calls, omega arith)
