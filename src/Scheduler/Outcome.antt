-- ===== src/Scheduler/Outcome.antt =====
-- src/scheduler.rs: how the loop of `advance_active` can end.
use rusteyes.Common.{
  ℕ, zero, suc, ◌+◌, ◌≤◌, ◌<◌, ◌≡◌, refl, Option, none, some, arith, Bool-cases, Option-cases, inl,
  inr, leb,
}
use rusteyes.Common.Words.{word_mod}
use rusteyes.Scheduler.{BreakScheduler, ScheduledBreak, Draw}
use rusteyes.Scheduler.Loop.{due_now}
use rusteyes.Scheduler.Operations.{next_slot, take_due, advance_loop}

-- `t` is `s` some rounds later, `rounds` at most, with nothing handed out on the way.
pub record IsLater (rounds : ℕ) (s t : BreakScheduler) : Type 0 where
  pub same_schedule : t.schedule ≡ s.schedule
  pub same_satisfied : t.last_satisfied_slots ≡ s.last_satisfied_slots
  pub same_state : t.state ≡ s.state
  pub moved : s.slot + rounds < word_mod → (s.slot ≤ t.slot) × (t.slot ≤ s.slot + rounds)

pub data Outcome (rounds : ℕ) (draw : Draw) (s : BreakScheduler)
    : BreakScheduler × Option ScheduledBreak → Type 0 where
  quiet : (t : BreakScheduler) → IsLater rounds s t → Outcome rounds draw s (t, none)
  handed :
      (t : BreakScheduler) (b : ScheduledBreak)
      → IsLater rounds s t
      → due_now draw t ≡ some b
      → Outcome rounds draw s (take_due t b, some b)

IsLater-refl : (rounds : ℕ) (s : BreakScheduler) → IsLater rounds s s
IsLater-refl rounds s = record {
  same_schedule = refl;
  same_satisfied = refl;
  same_state = refl;
  moved = λ h. (omega arith, omega arith);
}

IsLater-next_slot :
    (rounds : ℕ) (s t : BreakScheduler) → IsLater rounds (next_slot s) t → IsLater (suc rounds) s t
unfolding next_slot
IsLater-next_slot rounds s t l = record {
  same_schedule = l.same_schedule;
  same_satisfied = l.same_satisfied;
  same_state = l.same_state;
  moved = λ h. let m = l.moved (omega arith) in (omega arith, omega arith);
}

Outcome-next_slot :
    (rounds : ℕ) (draw : Draw) (s : BreakScheduler) (o : BreakScheduler × Option ScheduledBreak)
    → Outcome rounds draw (next_slot s) o
    → Outcome (suc rounds) draw s o
Outcome-next_slot rounds draw s o (quiet t l) = quiet t (IsLater-next_slot rounds s t l)
Outcome-next_slot rounds draw s o (handed t b l e) = handed t b (IsLater-next_slot rounds s t l) e

pub advance_loop-Outcome :
    (rounds : ℕ) (draw : Draw) (s : BreakScheduler)
    → Outcome rounds draw s (advance_loop rounds draw s)
unfolding advance_loop
advance_loop-Outcome zero draw s = quiet s (IsLater-refl 0 s)
advance_loop-Outcome (suc rounds) draw s =
    elim (Bool-cases (leb s.schedule.after_active s.active_elapsed)) [
      | inr done ↦ rw done (quiet s (IsLater-refl (suc rounds) s))
      | inl more ↦ elim (Option-cases (due_now draw (next_slot s))) [
        | inl none_due ↦
            rw (more, none_due)
              (Outcome-next_slot rounds draw s _ (advance_loop-Outcome rounds draw (next_slot s)))
        | inr (b, due) ↦
            rw (more, due)
              (handed (next_slot s) b
                (IsLater-next_slot rounds s (next_slot s) (IsLater-refl rounds (next_slot s))) due)
      ]
    ]
