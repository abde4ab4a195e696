-- ===== src/Tests/Scheduling.antt =====
-- The scheduler's theorems on the default schedule.
use rusteyes.Common.{◌≡◌, ◌≢◌, refl, false, some, arith, find, Bool-cases, inl, inr}
use rusteyes.Common.Text.{text, text_key, text_eq}
use rusteyes.Common.Map.{get}
use rusteyes.Common.Words.{secs}
use rusteyes.Common.Result.{ok}
use rusteyes.Config.Validate.{validate_breaks}
use rusteyes.Config.{default_breaks}
use rusteyes.Scheduler.{BreakScheduler, ScheduledBreak, UpcomingScheduledBreak, scheduled}
use rusteyes.Scheduler.Rules.{to_break, try_from, rule}
use rusteyes.Scheduler.Due.{
  upcoming_scheduled_break, manual_break_availability, manual_break_is_available,
  next_due_break_after, next_due_slot, due_break_at, rule_due_at, last_satisfied_slot, add_rounds,
}
use rusteyes.Scheduler.Operations.{advance_active, run_advance_loop, position}
use rusteyes.Scheduler.Synced.{merge_synced_position}
use rusteyes.Scheduler.Order.{IsNamed}
use rusteyes.Scheduler.Prediction.{
  advance_active-upcoming, IsCounting, apart_from_message, without_message,
}
use rusteyes.Scheduler.Handout.{IsWellFormed}
use rusteyes.Scheduler.Converge.{
  IsTracked, Agree, merge_synced_position-Agree, merge_synced_position_twice,
}
use rusteyes.Scheduler.Merge.{IsMerged, merge_synced_position-IsMerged}
use rusteyes.Scheduler.Requests.{step, advances}
use rusteyes.Scheduler.Tracked.{step-IsTracked}
use rusteyes.Scheduler.Rounds.{Rounds, run_advance_loop-Rounds}
use rusteyes.Scheduler.Build.{try_from-IsWellFormed}
use rusteyes.Scheduler.Available.{manual_break_availability-agrees}
use rusteyes.Tests.Samples.{long_rule, sample_schedule, sample_scheduler, other_scheduler}

unfoldable long_break : ScheduledBreak
unfolding to_break
long_break = to_break (some 0) long_rule (scheduled 2)

unfoldable upcoming : UpcomingScheduledBreak
unfolding long_break
upcoming = record { scheduled_break = long_break; starts_after = secs 100 }

sample_upcoming : upcoming_scheduled_break (some 0) sample_scheduler ≡ some upcoming
unfolding upcoming_scheduled_break upcoming next_due_break_after next_due_slot due_break_at find
    rule_due_at last_satisfied_slot to_break add_rounds
sample_upcoming = refl

sample-IsCounting : IsCounting sample_scheduler
sample-IsCounting = record {
  round = omega arith;
  intervals = (omega arith, (omega arith, tt));
  below_max = omega arith;
  within = omega arith;
}

named : text "long" ≢ text "short"
named = λ h. cc

sample-IsNamed : IsNamed sample_schedule.rules
sample-IsNamed = ((named, tt), (tt, tt))

sample-IsTracked : IsTracked sample_scheduler
unfolding get
sample-IsTracked name there = elim (Bool-cases (text_eq name (text "long"))) [
  | inl hit ↦ (0, rw hit refl, omega arith)
  | inr miss ↦ elim (Bool-cases (text_eq name (text "short"))) [
    | inl hit ↦ (1, rw (miss, hit) refl, omega arith)
    | inr other ↦ ground arith
  ]
]

other-IsTracked : IsTracked other_scheduler
unfolding get
other-IsTracked name there = elim (Bool-cases (text_eq name (text "long"))) [
  | inl hit ↦ (0, rw hit refl, omega arith)
  | inr miss ↦ elim (Bool-cases (text_eq name (text "short"))) [
    | inl hit ↦ (0, rw (miss, hit) refl, omega arith)
    | inr other ↦ ground arith
  ]
]

-- The break is announced with one draw and handed out with another.
advance_active-upcoming_example :
    apart_from_message (advance_active (some 1) (secs 100) sample_scheduler).1
    ≡ some (without_message long_break)
unfolding upcoming
advance_active-upcoming_example =
    advance_active-upcoming (some 0) (some 1) sample_scheduler upcoming (secs 100) sample-IsCounting
      sample_upcoming (omega arith)

merge_synced_position-Agree_example :
    Agree
      (merge_synced_position (position other_scheduler) sample_scheduler).0
      (merge_synced_position (position sample_scheduler) other_scheduler).0
merge_synced_position-Agree_example =
    merge_synced_position-Agree sample_scheduler other_scheduler refl sample-IsTracked
      other-IsTracked

step-IsTracked_example : IsTracked (step (advances (some 0) (secs 100)) sample_scheduler)
step-IsTracked_example =
    step-IsTracked (advances (some 0) (secs 100)) sample_scheduler (omega arith) sample-IsTracked

-- Time for one round, at the end of which a break is due.
abbrev credited_scheduler : BreakScheduler
credited_scheduler = record sample_scheduler { active_elapsed = secs 630 }

run_advance_loop-Rounds_example :
    Rounds (some 0) credited_scheduler (run_advance_loop (some 0) credited_scheduler)
run_advance_loop-Rounds_example =
    run_advance_loop-Rounds (some 0) credited_scheduler (omega arith) (omega arith)

merge_synced_position-IsMerged_example :
    IsMerged
      (position sample_scheduler)
      other_scheduler
      (merge_synced_position (position sample_scheduler) other_scheduler).0
merge_synced_position-IsMerged_example =
    merge_synced_position-IsMerged (position sample_scheduler) other_scheduler

merge_synced_position_twice_example :
    merge_synced_position
      (position sample_scheduler)
      (merge_synced_position (position sample_scheduler) other_scheduler).0
    ≡ ((merge_synced_position (position sample_scheduler) other_scheduler).0, false)
merge_synced_position_twice_example =
    merge_synced_position_twice (position sample_scheduler) other_scheduler

default_schedule : try_from default_breaks ≡ ok sample_schedule
unfolding try_from default_breaks validate_breaks
default_schedule = refl

try_from-IsWellFormed_example : IsWellFormed sample_schedule
unfolding default_breaks
try_from-IsWellFormed_example =
    try_from-IsWellFormed default_breaks sample_schedule ((λ h. cc, tt), (tt, tt)) default_schedule

manual_break_availability-agrees_example :
    get (text "short") (manual_break_availability (some 0) sample_scheduler)
    ≡ some (manual_break_is_available (some 0) sample_scheduler (text "short"))
unfolding rule find
manual_break_availability-agrees_example =
    manual_break_availability-agrees (some 0) sample_scheduler (text "short") sample-IsNamed
