-- ===== src/Scheduler/Handout.antt =====
-- src/scheduler.rs: the break that `advance_active` hands out.
use rusteyes.Common.{◌≤◌, ◌<◌, ◌≡◌, true, false, All}
use rusteyes.Scheduler.{
  BreakRule, BreakSchedule, BreakScheduler, ScheduledBreak, Draw, scheduled, pending, active,
}
use rusteyes.Scheduler.Due.{rule_due_at}
use rusteyes.Scheduler.Rules.{to_break}
use rusteyes.Scheduler.Next.{IsPositive}
use rusteyes.Scheduler.Order.{IsFalling, IsNamed}
use rusteyes.Scheduler.Outcome.{Outcome}

-- What `BreakSchedule::try_from` makes sure of.
pub record IsWellFormed (schedule : BreakSchedule) : Type 0 where
  pub round : 0 < schedule.after_active
  pub falling : IsFalling schedule.rules
  pub named : IsNamed schedule.rules
  pub positive : IsPositive schedule.rules

-- The scheduler went from `s` to `t` and handed out `b`, which is of the rule `chosen`.
pub record IsHandedOut (draw : Draw) (s t : BreakScheduler) (b : ScheduledBreak) : Type 0 where
  pub chosen : BreakRule
  pub is_chosen : b ≡ to_break draw chosen (scheduled t.slot)
  pub was_due : rule_due_at s.last_satisfied_slots t.slot chosen ≡ true
  pub longest :
      All
        (λ r. rule_due_at s.last_satisfied_slots t.slot r ≡ true → r.interval ≤ chosen.interval)
        s.schedule.rules
  pub cleared : All (λ r. rule_due_at t.last_satisfied_slots t.slot r ≡ false) s.schedule.rules
  pub waits : t.state ≡ pending active
  pub restarted : t.active_elapsed ≡ 0
  pub same_schedule : t.schedule ≡ s.schedule
