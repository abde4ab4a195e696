-- ===== src/Macos/Handoff.antt =====
-- src/macos_helper.rs: who locks the session when a break ends, and when its end is reported.
use rusteyes.Common.{
  ℕ, ◌+◌, ◌≡◌, ◌⊎◌, refl, ap, ◌∙◌, Bool, true, false, ◌&&◌, Option, none, some, List, [], ◌∷◌,
  Bool-cases, inl, inr, arith,
}
use rusteyes.Common.Text.{Text}
use rusteyes.Common.Result.{Result, ok, err, Result-cases}
use rusteyes.Activity.{queue_event, RuntimeEvent, wall_clock_elapsed, break_finished}
use rusteyes.Activity.Finishes.{count_finished, count_finished-append, finish_weight}
use rusteyes.Runtime.{
  BackendCommand, start_break, replace_active_break, finish_break, request_lock_after_current_break,
  clear_break,
}
use rusteyes.Macos.{
  HelperActivitySample, HelperCall, poll_activity, send_command, update_break, replace_break,
  start_lock_command, Helper, MacosLock, platform_default, lock_command, ObservedTime, ActiveBreak,
  ActiveBreakUpdate, MacosHelperCore,
}
use rusteyes.Macos.Break.{helper_lock_after, apply_sample, has_deferred_finish, observe_elapsed_at}
use rusteyes.Macos.Core.{
  queue, queue_if, queue_overlay_runtime_events, Outcome, and_then, lock_if,
  start_configured_lock_command, finish_taken, finish_active_break, apply_deferred, apply_update,
  apply_running, apply_to, apply_overlay_sample,
}

abbrev one_if : Bool → ℕ
one_if true = 1
one_if false = 0

abbrev command_handoffs : BackendCommand → ℕ
command_handoffs (finish_break lock_after) = one_if lock_after
command_handoffs (start_break b) = 0
command_handoffs (replace_active_break message remaining lock_after) = 0
command_handoffs request_lock_after_current_break = 0
command_handoffs clear_break = 0

abbrev call_handoffs : HelperCall → ℕ
call_handoffs poll_activity = 0
call_handoffs (send_command command) = command_handoffs command
call_handoffs (update_break remaining lock_after) = 0
call_handoffs (replace_break message remaining lock_after) = 0
call_handoffs start_lock_command = 1

-- The number of calls that lock the session: a break finished by the helper with a lock, or a start of
-- the configured lock command.
abbrev pub handoffs : List HelperCall → ℕ
handoffs [] = 0
handoffs (c ∷ calls) = call_handoffs c + handoffs calls

-- No call fails.
abbrev pub Works : Helper → Type 0
Works helper = (calls : List HelperCall) (c : HelperCall) → helper.answer calls c ≡ ok tt

and_false : (b : Bool) → (b && false) ≡ false
and_false true = refl
and_false false = refl

module _ (helper : Helper) where
  and_then-ok :
      (x : MacosHelperCore) (r : Result Text (Unit {0})) (next : MacosHelperCore → Outcome)
      → r ≡ ok tt
      → and_then (x, r) next ≡ next x
  and_then-ok x (ok tt) next e = refl
  and_then-ok x (err error) next e = cc

  sent-handoffs :
      (lock : MacosLock) (lock_after : Bool) (x : MacosHelperCore)
      → x.lock ≡ lock
      → handoffs
          (lock_if helper lock_after (record x {
            calls = send_command (finish_break (helper_lock_after lock lock_after)) ∷ x.calls;
          })).0.calls
        ≡ handoffs x.calls + one_if lock_after
  unfolding lock_if start_configured_lock_command helper_lock_after
  sent-handoffs platform_default true x e = rw e (omega arith)
  sent-handoffs platform_default false x e = omega arith
  sent-handoffs lock_command true x e = rw e (omega arith)
  sent-handoffs lock_command false x e = omega arith

  finish_taken-handoffs :
      (active : Option ActiveBreak) (b : ActiveBreak) (lock_after : Bool) (x : MacosHelperCore)
      → active ≡ some b
      → Works helper
      → handoffs (finish_taken helper active lock_after x).0.calls
        ≡ handoffs x.calls + one_if lock_after
  unfolding finish_taken
  finish_taken-handoffs none b lock_after x e works = cc
  finish_taken-handoffs (some d) b lock_after x e works =
      let command = send_command (finish_break (helper_lock_after x.lock lock_after)) in
      ap (λ (end : Outcome). handoffs end.0.calls)
        (and_then-ok (record x { calls = command ∷ x.calls }) (helper.answer x.calls command)
          (lock_if helper lock_after) (works x.calls command))
      ∙ sent-handoffs x.lock lock_after x refl

  lock_if-active :
      (lock : MacosLock) (lock_after : Bool) (x : MacosHelperCore)
      → x.lock ≡ lock
      → (lock_if helper lock_after x).0.active_break ≡ x.active_break
  unfolding lock_if start_configured_lock_command
  lock_if-active platform_default true x e = rw e refl
  lock_if-active lock_command true x e = rw e refl
  lock_if-active lock false x e = refl

  finish_taken-active :
      (active : Option ActiveBreak) (lock_after : Bool) (x : MacosHelperCore)
      → (finish_taken helper active lock_after x).0.active_break ≡ x.active_break
  unfolding finish_taken
  finish_taken-active none lock_after x = refl
  finish_taken-active (some b) lock_after x =
      let command = send_command (finish_break (helper_lock_after x.lock lock_after)) in
      elim (Result-cases (helper.answer x.calls command)) [
        | inl (tt, e) ↦
            rw e (lock_if-active x.lock lock_after (record x { calls = command ∷ x.calls }) refl)
        | inr (error, e) ↦ rw e refl
      ]

  -- A break that ends is locked after exactly as asked for: if a lock is wanted, either the helper locks
  -- the session or the configured command is started, and never both; if not, neither. There is no
  -- active break then. A break is active, and no call fails.
  pub finish_active_break-handoffs :
      (b : ActiveBreak) (lock_after : Bool) (x : MacosHelperCore)
      → x.active_break ≡ some b
      → Works helper
      → (let y = (finish_active_break helper lock_after x).0 in
          (handoffs y.calls ≡ handoffs x.calls + one_if lock_after) × (y.active_break ≡ none))
  unfolding finish_active_break
  finish_active_break-handoffs b lock_after x shown works = (
    finish_taken-handoffs x.active_break b lock_after (record x { active_break = none }) shown
        works,
    finish_taken-active x.active_break lock_after (record x { active_break = none }),
  )

  queue_if-count :
      (b : Bool) (event : RuntimeEvent) (x : MacosHelperCore)
      → b ≡ false ⊎ finish_weight event ≡ 0
      → count_finished (queue_if b event x).poller.events ≡ count_finished x.poller.events
  unfolding queue queue_event
  queue_if-count true event x (inl e) = cc
  queue_if-count true event x (inr e) = count_finished-append x.poller.events event ∙ (omega arith)
  queue_if-count false event x e = refl

  queued-count :
      (update : ActiveBreakUpdate) (flag : Bool) (x : MacosHelperCore)
      → flag ≡ false
      → count_finished (queue_overlay_runtime_events update flag x).poller.events
        ≡ count_finished x.poller.events
  unfolding queue_overlay_runtime_events queue queue_event
  queued-count update flag x off =
      let tick = wall_clock_elapsed update.elapsed in
      let timed = queue tick x in
      let asked =
        queue_if update.lock_after_break_requested RuntimeEvent.lock_after_current_break timed in
      queue_if-count (update.finished && flag) break_finished asked
        (inl (ap (λ f. update.finished && f) off ∙ and_false update.finished))
      ∙ queue_if-count update.lock_after_break_requested RuntimeEvent.lock_after_current_break timed
          (inr refl)
      ∙ count_finished-append x.poller.events tick
      ∙ (omega arith)

  after_update-count :
      (update : ActiveBreakUpdate) (flag : Bool) (end : Outcome) (x : MacosHelperCore)
      → flag ≡ false
      → count_finished end.0.poller.events ≡ count_finished x.poller.events
      → count_finished
          (and_then end (λ y. (queue_overlay_runtime_events update flag y, ok tt))).0.poller.events
        ≡ count_finished x.poller.events
  after_update-count update flag (y, ok _) x off same = queued-count update flag y off ∙ same
  after_update-count update flag (y, err error) x off same = same

  locked_update-count :
      (b : ActiveBreak) (update : ActiveBreakUpdate) (x : MacosHelperCore)
      → count_finished (apply_update helper true b update x).0.poller.events
        ≡ count_finished x.poller.events
  unfolding apply_update
  locked_update-count b update x = elim (Bool-cases update.finished) [
    | inl over ↦ rw over refl
    | inr runs ↦ rw runs refl
  ]

  apply_to-locked :
      (active : Option ActiveBreak) (sample : HelperActivitySample) (now : ObservedTime)
      (x : MacosHelperCore)
      → sample.session_locked ≡ true
      → count_finished (apply_to helper active sample now x).0.poller.events
        ≡ count_finished x.poller.events
  unfolding apply_to apply_deferred apply_running queue queue_event
  apply_to-locked none sample now x locked = refl
  apply_to-locked (some b) sample now x locked = elim (Bool-cases (has_deferred_finish b)) [
    | inl deferred ↦
        rw (deferred, locked)
          (count_finished-append x.poller.events
              (wall_clock_elapsed (observe_elapsed_at now.monotonic b).1)
            ∙ (omega arith))
    | inr running ↦
        let (observed, update) = apply_sample sample now b in
        let y : MacosHelperCore = record x { active_break = some observed } in
        rw (running, locked)
          (after_update-count update (update.finished && false)
            (apply_update helper true observed update y) x (and_false update.finished)
            (locked_update-count observed update y))
  ]

  -- While the session is locked, no sample reports the end of a break, whether its deadline has passed
  -- or not and whatever the helper answers.
  pub apply_overlay_sample-locked :
      (sample : HelperActivitySample) (now : ObservedTime) (x : MacosHelperCore)
      → sample.session_locked ≡ true
      → count_finished (apply_overlay_sample helper sample now x).0.poller.events
        ≡ count_finished x.poller.events
  unfolding apply_overlay_sample
  apply_overlay_sample-locked sample now x locked =
      apply_to-locked x.active_break sample now x locked
