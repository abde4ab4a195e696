-- ===== src/Scheduler/Next.antt =====
-- src/scheduler.rs: the next slot at which a break is due, as `upcoming_scheduled_break` finds it.
use rusteyes.Common.{
  ℕ, ◌+◌, ◌-◌, ◌≤◌, ◌<◌, ◌≡◌, refl, true, false, none, some, List, [], ◌∷◌, le→leb, leb_gt,
  Bool-cases, Option-cases, inl, inr, arith, find, All, min, max,
}
use rusteyes.Common.Words.{word_max}
use rusteyes.Common.Text.{Text}
use rusteyes.Common.Map.{BTreeMap}
use rusteyes.Scheduler.{
  BreakScheduler, BreakRule, Draw, ScheduledBreak, UpcomingScheduledBreak, scheduled,
}
use rusteyes.Scheduler.Due.{
  last_satisfied_slot, rule_due_at, due_break_at, next_due_slot, next_due_slot_for_rule,
  next_due_break_after, add_rounds, upcoming_scheduled_break, is_ready_active,
}
use rusteyes.Scheduler.Rules.{to_break}

abbrev Satisfied : Type 0
Satisfied = BTreeMap Text ℕ

-- The slot that `next_due_slot_for_rule` gives where slot + 1 is a `usize`.
abbrev earliest : Satisfied → ℕ → BreakRule → ℕ
earliest satisfied slot r =
    max (slot + 1) (min (last_satisfied_slot satisfied r + r.interval) word_max)

next_due_slot_for_rule-earliest :
    (satisfied : Satisfied) (slot : ℕ) (r : BreakRule)
    → slot < word_max
    → next_due_slot_for_rule satisfied slot r ≡ some (earliest satisfied slot r)
unfolding next_due_slot_for_rule
next_due_slot_for_rule-earliest satisfied slot r h =
    rw (le→leb (slot + 1) word_max (omega arith), next_due_slot_for_rule)

-- No rule is due before that slot.
rule_due_at_early :
    (satisfied : Satisfied) (slot k : ℕ) (r : BreakRule)
    → 0 < r.interval
    → slot < k
    → k < earliest satisfied slot r
    → rule_due_at satisfied k r ≡ false
unfolding rule_due_at
rule_due_at_early satisfied slot k r positive above below = leb_gt _ _ (omega arith)

abbrev pub IsPositive : List BreakRule → Type 0
IsPositive rules = All (λ r. 0 < r.interval) rules

-- Nor before the least of them.
find-early :
    (satisfied : Satisfied) (slot k n : ℕ) (rules : List BreakRule)
    → slot < word_max
    → IsPositive rules
    → ((m : ℕ) → next_due_slot satisfied slot rules ≡ some m → n ≤ m)
    → slot < k
    → k < n
    → find (rule_due_at satisfied k) rules ≡ none
unfolding next_due_slot find
find-early satisfied slot k n [] small positive least above below = refl
find-early satisfied slot k n (r ∷ rules) small positive least above below =
    elim (Option-cases (next_due_slot satisfied slot rules)) [
      | inl e ↦
          let h = least (earliest satisfied slot r) (rw (first, e)) in
          rw (rule_due_at_early satisfied slot k r positive.0 above (omega arith))
            (find-early satisfied slot k n rules small positive.1 (λ m e'. cc) above below)
      | inr (m, e) ↦
          let h = least (min (earliest satisfied slot r) m) (rw (first, e)) in
          rw (rule_due_at_early satisfied slot k r positive.0 above (omega arith)) (
            find-early satisfied slot k n rules small positive.1 (λ m' e'. ground arith) above
              below)
    ]
  where
    first : next_due_slot_for_rule satisfied slot r ≡ some (earliest satisfied slot r)
    first = next_due_slot_for_rule-earliest satisfied slot r small

due_break_at-find :
    (draw : Draw) (rules : List BreakRule) (satisfied : Satisfied) (k : ℕ)
    → find (rule_due_at satisfied k) rules ≡ none
    → due_break_at draw rules satisfied k ≡ none
unfolding due_break_at
due_break_at-find draw rules satisfied k e = rw (e, due_break_at)

-- `n` is the first slot after the scheduler's at which a break is due, and `b` is that break.
pub record IsNext (draw : Draw) (s : BreakScheduler) (n : ℕ) (b : ScheduledBreak) : Type 0 where
  pub later : s.slot < n
  pub is_due : due_break_at draw s.schedule.rules s.last_satisfied_slots n ≡ some b
  pub first :
      (k : ℕ)
      → s.slot < k
      → k < n
      → due_break_at draw s.schedule.rules s.last_satisfied_slots k ≡ none

pub next_due_slot-later :
    (satisfied : Satisfied) (slot n : ℕ) (rules : List BreakRule)
    → slot < word_max
    → next_due_slot satisfied slot rules ≡ some n
    → slot < n
unfolding next_due_slot
next_due_slot-later satisfied slot n [] small e = cc
next_due_slot-later satisfied slot n (r ∷ rules) small e =
    elim (Option-cases (next_due_slot satisfied slot rules)) [
      | inl e' ↦ ground (arith, next_due_slot_for_rule-earliest satisfied slot r small)
      | inr (m, e') ↦ ground (
        arith,
        next_due_slot_for_rule-earliest satisfied slot r small,
        next_due_slot-later satisfied slot m rules small e',
      )
    ]

due_break_at-origin :
    (draw : Draw) (rules : List BreakRule) (satisfied : Satisfied) (k : ℕ) {b : ScheduledBreak}
    → due_break_at draw rules satisfied k ≡ some b
    → b.origin ≡ scheduled k
unfolding due_break_at to_break
due_break_at-origin draw rules satisfied k e = ground arith

-- The parts of an answer of `upcoming_scheduled_break`.
pub record IsUpcoming (draw : Draw) (s : BreakScheduler) (u : UpcomingScheduledBreak) : Type 0 where
  pub slot : ℕ
  pub is_ready : is_ready_active s.state ≡ true
  pub next_is : next_due_slot s.last_satisfied_slots s.slot s.schedule.rules ≡ some slot
  pub is_due :
      due_break_at draw s.schedule.rules s.last_satisfied_slots slot ≡ some u.scheduled_break
  pub starts :
      u.starts_after
      ≡ add_rounds s.schedule.after_active
          (slot - (s.slot + 1))
          (s.schedule.after_active - s.active_elapsed)

pub upcoming_scheduled_break-IsUpcoming :
    (draw : Draw) (s : BreakScheduler) (u : UpcomingScheduledBreak)
    → upcoming_scheduled_break draw s ≡ some u
    → IsUpcoming draw s u
unfolding upcoming_scheduled_break next_due_break_after
upcoming_scheduled_break-IsUpcoming draw s u e = elim (Bool-cases (is_ready_active s.state)) [
  | inr idle ↦ cc
  | inl is_ready ↦
      elim (Option-cases (next_due_slot s.last_satisfied_slots s.slot s.schedule.rules)) [
        | inl missing ↦ ground arith
        | inr (n, found) ↦
            elim (Option-cases (due_break_at draw s.schedule.rules s.last_satisfied_slots n)) [
              | inl missing ↦ ground arith
              | inr (b, is_due) ↦ record {
                slot = n;
                is_ready = is_ready;
                next_is = found;
                is_due = ground (
                  arith,
                  due_break_at-origin draw s.schedule.rules s.last_satisfied_slots n is_due,
                );
                starts = ground (
                  arith,
                  due_break_at-origin draw s.schedule.rules s.last_satisfied_slots n is_due,
                );
              }
            ]
      ]
]

pub next_due_slot-le :
    (satisfied : Satisfied) (slot n : ℕ) (rules : List BreakRule)
    → slot < word_max
    → next_due_slot satisfied slot rules ≡ some n
    → n ≤ word_max
unfolding next_due_slot
next_due_slot-le satisfied slot n [] small e = cc
next_due_slot-le satisfied slot n (r ∷ rules) small e =
    elim (Option-cases (next_due_slot satisfied slot rules)) [
      | inl e' ↦ ground (arith, next_due_slot_for_rule-earliest satisfied slot r small)
      | inr (m, e') ↦ ground (
        arith,
        next_due_slot_for_rule-earliest satisfied slot r small,
        next_due_slot-le satisfied slot m rules small e',
      )
    ]

pub IsUpcoming-IsNext :
    (draw : Draw) (s : BreakScheduler) (u : UpcomingScheduledBreak)
    → IsPositive s.schedule.rules
    → s.slot < word_max
    → (i : IsUpcoming draw s u) → IsNext draw s i.slot u.scheduled_break
IsUpcoming-IsNext draw s u positive small i = record {
  later = next_due_slot-later s.last_satisfied_slots s.slot i.slot s.schedule.rules small i.next_is;
  is_due = i.is_due;
  first = λ k above below. due_break_at-find draw s.schedule.rules s.last_satisfied_slots k (
      find-early s.last_satisfied_slots s.slot k i.slot s.schedule.rules small positive
        (λ m e. ground (arith, i.next_is)) above below);
}
