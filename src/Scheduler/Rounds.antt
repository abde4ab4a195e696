-- ===== src/Scheduler/Rounds.antt =====
-- src/scheduler.rs: how many rounds the loop of `advance_active` takes, and where it stops.
use native.Mathlib.Nat.{lt-div-mul-add}
use rusteyes.Common.{
  ℕ, zero, suc, ◌+◌, ◌-◌, ◌*◌, ◌/◌, ◌%◌, ◌≤◌, ◌<◌, ◌≡◌, Option, none, some, leb, leb→le, leb-false,
  leb_gt, ltb, ltb→lt, subst, Bool-cases, Option-cases, inl, inr, arith,
}
use rusteyes.Common.Words.{word_mod}
use rusteyes.Scheduler.{BreakScheduler, Draw, ScheduledBreak, pending, active}
use rusteyes.Scheduler.Due.{due_break_at}
use rusteyes.Scheduler.Operations.{next_slot, take_due, satisfy_scheduled_breaks, run_advance_loop}
use rusteyes.Scheduler.Loop.{due_now, run_advance_loop-eq-while}

-- No break is due at the slots after `s.slot` up to, without, `end`.
abbrev pub IsQuiet : Draw → BreakScheduler → ℕ → Type 0
IsQuiet draw s end =
    (k : ℕ)
    → s.slot < k
    → k < end
    → due_break_at draw s.schedule.rules s.last_satisfied_slots k ≡ none

-- The loop took `rounds` rounds and left `rest` of the active time: no break was due and no round is
-- left, or the break of the last slot is handed out and its rules are satisfied.
pub data Rounds (draw : Draw) (s : BreakScheduler)
    : BreakScheduler × Option ScheduledBreak → Type 0 where
  used_up :
      (rounds rest slot : ℕ)
      → slot ≡ s.slot + rounds
      → rounds * s.schedule.after_active + rest ≡ s.active_elapsed
      → rest < s.schedule.after_active
      → IsQuiet draw s (slot + 1)
      → Rounds draw s (record s { slot = slot; active_elapsed = rest }, none)
  reached :
      (rounds rest slot : ℕ) (b : ScheduledBreak)
      → slot ≡ s.slot + suc rounds
      → suc rounds * s.schedule.after_active + rest ≡ s.active_elapsed
      → IsQuiet draw s slot
      → due_break_at draw s.schedule.rules s.last_satisfied_slots slot ≡ some b
      → Rounds draw s (
        record s {
          slot = slot;
          active_elapsed = 0;
          last_satisfied_slots =
              satisfy_scheduled_breaks s.schedule.rules slot b.name s.last_satisfied_slots;
          state = pending active;
        },
        some b,
      )

module _ (draw : Draw) where
  IsQuiet-next_slot :
      (s : BreakScheduler) (end : ℕ)
      → s.slot + 1 < word_mod
      → due_now draw (next_slot s) ≡ none
      → IsQuiet draw (next_slot s) end
      → IsQuiet draw s end
  unfolding next_slot
  IsQuiet-next_slot s end small none_due quiet k above below =
      elim (Bool-cases (ltb (s.slot + 1) k)) [
        | inl later ↦ quiet k (omega (arith, ltb→lt (s.slot + 1) k later)) below
        | inr now ↦
            subst (λ n. due_break_at draw s.schedule.rules s.last_satisfied_slots n ≡ none)
              (ground arith) none_due
      ]

  Rounds-next_slot :
      (s : BreakScheduler) (o : BreakScheduler × Option ScheduledBreak)
      → s.slot + 1 < word_mod
      → s.schedule.after_active ≤ s.active_elapsed
      → due_now draw (next_slot s) ≡ none
      → Rounds draw (next_slot s) o
      → Rounds draw s o
  unfolding next_slot
  Rounds-next_slot s o small enough none_due (used_up rounds rest slot at total short quiet) =
      used_up (suc rounds) rest slot (omega arith) (omega arith) short
        (IsQuiet-next_slot s (slot + 1) small none_due quiet)
  Rounds-next_slot s o small enough none_due (reached rounds rest slot b at total quiet due) =
      reached (suc rounds) rest slot b (omega arith) (omega arith)
        (IsQuiet-next_slot s slot small none_due quiet) due

  take_due-Rounds :
      (s : BreakScheduler) (b : ScheduledBreak)
      → s.slot + 1 < word_mod
      → s.schedule.after_active ≤ s.active_elapsed
      → due_now draw (next_slot s) ≡ some b
      → Rounds draw s (take_due (next_slot s) b, some b)
  unfolding take_due next_slot
  take_due-Rounds s b small enough due =
      reached 0 (s.active_elapsed - s.schedule.after_active) ((s.slot + 1) % word_mod) b
        (omega arith) (omega arith) (λ k above below. absurd (omega arith)) due

  run_advance_loop-within :
      (fuel : ℕ) (s : BreakScheduler)
      → 0 < s.schedule.after_active
      → s.active_elapsed < suc fuel * s.schedule.after_active
      → s.slot + fuel < word_mod
      → Rounds draw s (run_advance_loop draw s)
  run_advance_loop-within zero s p short small =
      rw
        (
          run_advance_loop-eq-while draw s p,
          leb_gt s.schedule.after_active s.active_elapsed (omega arith),
        )
        (used_up 0 s.active_elapsed s.slot (omega arith) (omega arith) (omega arith)
          (λ k above below. absurd (omega arith)))
  run_advance_loop-within (suc fuel) s p short small =
      elim (Bool-cases (leb s.schedule.after_active s.active_elapsed)) [
        | inr done ↦
            rw (run_advance_loop-eq-while draw s p, done)
              (used_up 0 s.active_elapsed s.slot (omega arith) (omega arith)
                (leb-false s.schedule.after_active s.active_elapsed done)
                (λ k above below. absurd (omega arith)))
        | inl more ↦
            let enough = leb→le s.schedule.after_active s.active_elapsed more in
            elim (Option-cases (due_now draw (next_slot s))) [
              | inl none_due ↦
                  rw (run_advance_loop-eq-while draw s p, more, none_due)
                    (Rounds-next_slot s _ (omega arith) enough none_due (
                      run_advance_loop-within fuel (next_slot s) (unfold next_slot in p)
                        (unfold next_slot in omega arith) (unfold next_slot in omega arith)))
              | inr (b, due) ↦
                  rw (run_advance_loop-eq-while draw s p, more, due)
                    (take_due-Rounds s b (omega arith) enough due)
            ]
      ]

  -- The loop goes from slot to slot until a break is due or the active time does not fill a round. At
  -- the first slot with a due break it hands that break out, records it as satisfied there and waits;
  -- if there is none, the slots and what is left account for all the time. The round is positive, and
  -- no slot wraps around.
  pub run_advance_loop-Rounds :
      (s : BreakScheduler)
      → 0 < s.schedule.after_active
      → s.slot + s.active_elapsed / s.schedule.after_active < word_mod
      → Rounds draw s (run_advance_loop draw s)
  run_advance_loop-Rounds s p small =
      run_advance_loop-within (s.active_elapsed / s.schedule.after_active) s p
        (omega (arith, lt-div-mul-add {a = s.active_elapsed} p)) small
