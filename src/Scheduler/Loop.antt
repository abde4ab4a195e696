-- ===== src/Scheduler/Loop.antt =====
-- src/scheduler.rs: the loop of `advance_active` and its fuel.
use native.Mathlib.Nat.{div-eq_of_lt, div-eq-sub-div}
use rusteyes.Common.{
  ℕ, suc, ◌-◌, ◌/◌, ◌≤◌, ◌<◌, ◌≡◌, refl, Option, none, some, if◌then◌else◌, leb, Bool-cases, inl,
  inr, arith, leb→le, leb-false,
}
use rusteyes.Scheduler.{BreakScheduler, Draw, ScheduledBreak}
use rusteyes.Scheduler.Due.{due_break_at}
use rusteyes.Scheduler.Operations.{next_slot, take_due, run_advance_loop}

div_step : (e d : ℕ) → 0 < d → d ≤ e → e / d ≡ suc ((e - d) / d)
div_step e d p h = omega (arith, div-eq-sub-div p h)

-- The due break at the slot that the scheduler has reached.
abbrev pub due_now : Draw → BreakScheduler → Option ScheduledBreak
due_now draw s = due_break_at draw s.schedule.rules s.last_satisfied_slots s.slot

-- The source's loop, one round of it written out, with no fuel.
abbrev pub while_body :
    (BreakScheduler → BreakScheduler × Option ScheduledBreak)
    → Draw
    → BreakScheduler
    → BreakScheduler × Option ScheduledBreak
while_body again draw s =
    if leb s.schedule.after_active s.active_elapsed
    then elim (due_now draw (next_slot s)) [
      | none ↦ again (next_slot s)
      | some b ↦ (take_due (next_slot s) b, some b)
    ]
    else (s, none)

-- For a positive round, the loop with its fuel is a solution of the source's `while` loop: the test
-- stops it, never the fuel.
pub run_advance_loop-eq-while :
    (draw : Draw) (s : BreakScheduler)
    → 0 < s.schedule.after_active
    → run_advance_loop draw s ≡ while_body (run_advance_loop draw) draw s
unfolding run_advance_loop
run_advance_loop-eq-while draw s p =
    elim (Bool-cases (leb s.schedule.after_active s.active_elapsed)) [
      | inl more ↦
          rw (div_step s.active_elapsed s.schedule.after_active p (leb→le _ _ more), more)
            (unfold next_slot in refl)
      | inr done ↦ rw (div-eq_of_lt (leb-false _ _ done), done)
    ]
