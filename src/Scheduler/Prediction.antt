-- ===== src/Scheduler/Prediction.antt =====
-- src/scheduler.rs: `upcoming_scheduled_break` against `advance_active`.
use rusteyes.Common.{
  ℕ, zero, suc, ◌+◌, ◌-◌, ◌*◌, ◌%◌, ◌≤◌, ◌<◌, ◌≡◌, ap, ◌∙◌, Option, none, some, List, [], find,
  Option-cases, if◌then◌else◌, leb, le→leb, leb_gt, Bool-cases, inl, inr, arith, leb→le, leb-false,
}
use rusteyes.Common.Words.{word_mod, word_max, duration_max, saturating_add}
use rusteyes.Common.Text.{Text}
use rusteyes.Common.Map.{BTreeMap}
use rusteyes.Scheduler.{
  BreakRule, scheduled, BreakScheduler, Draw, ScheduledBreak, UpcomingScheduledBreak,
}
use rusteyes.Scheduler.Due.{rule_due_at, due_break_at, add_rounds, upcoming_scheduled_break}
use rusteyes.Scheduler.Rules.{to_break}
use rusteyes.Scheduler.Operations.{next_slot, run_advance_loop, advance_active}
use rusteyes.Scheduler.Loop.{due_now, run_advance_loop-eq-while}
use rusteyes.Scheduler.Next.{
  IsPositive, IsNext, IsUpcoming, next_due_slot-le, IsUpcoming-IsNext,
  upcoming_scheduled_break-IsUpcoming,
}

-- Below the largest duration no addition has stopped short.
add_rounds-lt : (d k a : ℕ) → add_rounds d k a < duration_max → add_rounds d k a ≡ a + k * d
unfolding add_rounds
add_rounds-lt d zero a h = omega arith
add_rounds-lt d (suc k) a h = omega (arith, add_rounds-lt d k (saturating_add a d) h)

module _ (draw : Draw) (n : ℕ) (b : ScheduledBreak) (small : n < word_mod) where
  next_slot-IsNext :
      (s : BreakScheduler) → IsNext draw s n b → s.slot + 1 < n → IsNext draw (next_slot s) n b
  unfolding next_slot
  next_slot-IsNext s next h = record {
    later = omega arith;
    is_due = next.is_due;
    first = λ k above below. next.first k (omega arith) below;
  }

  -- One round that reaches slot `n` ends the loop with the break.
  due_now-last :
      (s : BreakScheduler)
      → IsNext draw s n b
      → s.slot + 1 ≡ n
      → due_now draw (next_slot s) ≡ some b
  unfolding next_slot
  due_now-last s next h = let e : (s.slot + 1) % word_mod ≡ n = omega arith in rw e next.is_due

  due_now-before :
      (s : BreakScheduler) → IsNext draw s n b → s.slot + 1 < n → due_now draw (next_slot s) ≡ none
  unfolding next_slot
  due_now-before s next h =
      let e : (s.slot + 1) % word_mod ≡ s.slot + 1 = omega arith in
      rw e (next.first (s.slot + 1) (omega arith) h)

  -- With enough active time for the rounds up to `n`, the loop stops there with the break.
  run_advance_loop-fires :
      (c : ℕ) (s : BreakScheduler)
      → 0 < s.schedule.after_active
      → IsNext draw s n b
      → s.slot + suc c ≡ n
      → suc c * s.schedule.after_active ≤ s.active_elapsed
      → (run_advance_loop draw s).1 ≡ some b
  run_advance_loop-fires zero s p next e enough = rw (
    run_advance_loop-eq-while draw s p,
    le→leb s.schedule.after_active s.active_elapsed (omega arith),
    due_now-last s next (omega arith),
  )
  run_advance_loop-fires (suc c) s p next e enough =
      rw
        (
          run_advance_loop-eq-while draw s p,
          le→leb s.schedule.after_active s.active_elapsed (omega arith),
          due_now-before s next (omega arith),
        )
        (run_advance_loop-fires c (next_slot s) (unfold next_slot in p)
          (next_slot-IsNext s next (omega arith)) (unfold next_slot in omega arith)
          (unfold next_slot in omega arith))

  -- With less, it uses up the rounds that there are and stops with none.
  run_advance_loop-silent :
      (c : ℕ) (s : BreakScheduler)
      → 0 < s.schedule.after_active
      → IsNext draw s n b
      → s.slot + suc c ≡ n
      → s.active_elapsed < suc c * s.schedule.after_active
      → (run_advance_loop draw s).1 ≡ none
  run_advance_loop-silent zero s p next e short = rw (
    run_advance_loop-eq-while draw s p,
    leb_gt s.schedule.after_active s.active_elapsed (omega arith),
  )
  run_advance_loop-silent (suc c) s p next e short =
      elim (Bool-cases (leb s.schedule.after_active s.active_elapsed)) [
        | inl more ↦
            let h = leb→le s.schedule.after_active s.active_elapsed more in
            rw (run_advance_loop-eq-while draw s p, more, due_now-before s next (omega arith))
              (run_advance_loop-silent c (next_slot s) (unfold next_slot in p)
                (next_slot-IsNext s next (omega arith)) (unfold next_slot in omega arith)
                (unfold next_slot in omega arith))
        | inr done ↦ rw (run_advance_loop-eq-while draw s p, done)
      ]

-- The scheduler counts active time, its rounds are positive, its rules' intervals too, and what has
-- elapsed of the round is no more than the round.
pub record IsCounting (s : BreakScheduler) : Type 0 where
  pub round : 0 < s.schedule.after_active
  pub intervals : IsPositive s.schedule.rules
  pub below_max : s.slot < word_max
  pub within : s.active_elapsed ≤ s.schedule.after_active

-- A break up to the message that is drawn for it.
abbrev pub without_message : ScheduledBreak → ScheduledBreak
without_message b = record b { message = [] }

abbrev pub apart_from_message : Option ScheduledBreak → Option ScheduledBreak
apart_from_message none = none
apart_from_message (some b) = some (without_message b)

module _ (draw drawn : Draw) where
  due_break_at-none :
      (rules : List BreakRule) (satisfied : BTreeMap Text ℕ) (k : ℕ)
      → due_break_at draw rules satisfied k ≡ none
      → due_break_at drawn rules satisfied k ≡ none
  unfolding due_break_at
  due_break_at-none rules satisfied k e =
      elim (Option-cases (find (rule_due_at satisfied k) rules)) [
        | inl missing ↦ rw (missing, due_break_at)
        | inr (r, found) ↦ ground arith
      ]

  due_break_at-some :
      (rules : List BreakRule) (satisfied : BTreeMap Text ℕ) (k : ℕ) {b : ScheduledBreak}
      → due_break_at draw rules satisfied k ≡ some b
      → (d : ScheduledBreak) × (due_break_at drawn rules satisfied k ≡ some d)
        × (without_message d ≡ without_message b)
  unfolding due_break_at to_break
  due_break_at-some rules satisfied k {b = b} e =
      elim (Option-cases (find (rule_due_at satisfied k) rules)) [
        | inl missing ↦ ground arith
        | inr (r, found) ↦
            let made : to_break draw r (scheduled k) ≡ b = ground arith in
            (to_break drawn r (scheduled k), rw (found, due_break_at), ap without_message made)
      ]

  -- Another draw changes no more than the message of what comes next.
  IsNext-redrawn :
      {s : BreakScheduler} {n : ℕ} {b : ScheduledBreak}
      → IsNext draw s n b
      → (d : ScheduledBreak) × IsNext drawn s n d × (without_message d ≡ without_message b)
  IsNext-redrawn {s = s} {n = n} next =
      let (d, due, same) =
        due_break_at-some s.schedule.rules s.last_satisfied_slots n next.is_due in
      (
        d,
        record {
          later = next.later;
          is_due = due;
          first = λ k above below.
              due_break_at-none s.schedule.rules s.last_satisfied_slots k
                (next.first k above below);
        },
        same,
      )

-- The answer of `upcoming_scheduled_break` comes true: after active time `t` in one piece,
-- `advance_active` hands out the predicted break, with a message of its own draw, if `t` is at least
-- the predicted time, and none if it is less. The scheduler counts within its round, and the
-- prediction does not reach the largest duration.
pub advance_active-upcoming :
    (draw drawn : Draw) (s : BreakScheduler) (u : UpcomingScheduledBreak) (t : ℕ)
    → IsCounting s
    → upcoming_scheduled_break draw s ≡ some u
    → s.active_elapsed + u.starts_after < duration_max
    → apart_from_message (advance_active drawn t s).1
      ≡ (if leb u.starts_after t then some (without_message u.scheduled_break) else none)
unfolding advance_active
advance_active-upcoming draw drawn s u t v e small =
    rw i.is_ready (elim (Bool-cases (leb u.starts_after t)) [
      | inl reached ↦ rw reached (
          ap apart_from_message (
            run_advance_loop-fires drawn i.slot d bounded c s' v.round next distance
              (omega (arith, leb→le u.starts_after t reached, total)))
          ∙ ap some redrawn.2)
      | inr early ↦ rw early (
          ap apart_from_message (
            run_advance_loop-silent drawn i.slot d bounded c s' v.round next distance
              (omega (arith, leb-false u.starts_after t early, total))))
    ])
  where
    i : IsUpcoming draw s u
    i = upcoming_scheduled_break-IsUpcoming draw s u e

    c : ℕ
    c = i.slot - (s.slot + 1)

    s' : BreakScheduler
    s' = record s { active_elapsed = saturating_add s.active_elapsed t }

    redrawn :
        (d : ScheduledBreak) × IsNext drawn s i.slot d
        × (without_message d ≡ without_message u.scheduled_break)
    redrawn = IsNext-redrawn draw drawn (IsUpcoming-IsNext draw s u v.intervals v.below_max i)

    d : ScheduledBreak
    d = redrawn.0

    next : IsNext drawn s' i.slot d
    next = record { later = here.later; is_due = here.is_due; first = here.first }
      where
        here : IsNext drawn s i.slot d
        here = redrawn.1

    bounded : i.slot < word_mod
    bounded = omega (
      arith,
      next_due_slot-le s.last_satisfied_slots s.slot i.slot s.schedule.rules v.below_max i.next_is,
    )

    distance : s.slot + suc c ≡ i.slot
    distance = omega (arith, next.later)

    total : s.active_elapsed + u.starts_after ≡ suc c * s.schedule.after_active
    total =
        let h =
          add_rounds-lt s.schedule.after_active c (s.schedule.after_active - s.active_elapsed) in
        omega (arith, i.starts, h (omega (arith, i.starts)), v.within)
