-- ===== src/Scheduler/Due.antt =====
-- src/scheduler.rs: which break is due at a slot, and which comes next.
use rusteyes.Common.{
  ℕ, zero, suc, ◌+◌, ◌-◌, Bool, true, false, Option, none, some, List, [], ◌∷◌, min, max,
  if◌then◌else◌, leb, find,
}
use rusteyes.Common.Text.{Text, text_key, text_eq, text_lt}
use rusteyes.Common.Map.{BTreeMap, get, insert}
use rusteyes.Common.Words.{checked_add_word, saturating_add_word, saturating_add}
use rusteyes.Scheduler.{
  BreakRule, BreakScheduler, SchedulerState, ready, pending, active, disabled, BreakOrigin,
  scheduled, manual, ScheduledBreak, UpcomingScheduledBreak, Draw,
}
use rusteyes.Scheduler.Rules.{rule, to_break}

abbrev or_zero : Option ℕ → ℕ
or_zero none = 0
or_zero (some n) = n

-- `last_satisfied_slot`.
unfoldable pub last_satisfied_slot : BTreeMap Text ℕ → BreakRule → ℕ
unfolding get text_eq
last_satisfied_slot satisfied r = or_zero (get r.name satisfied)

-- `rule_due_at`.
unfoldable pub rule_due_at : BTreeMap Text ℕ → ℕ → BreakRule → Bool
rule_due_at satisfied slot r = leb r.interval (slot - last_satisfied_slot satisfied r)

-- `due_break_at`.
unfoldable pub due_break_at : Draw → List BreakRule → BTreeMap Text ℕ → ℕ → Option ScheduledBreak
due_break_at draw rules satisfied slot = elim (find (rule_due_at satisfied slot) rules) [
  | none ↦ none
  | some r ↦ some (to_break draw r (scheduled slot))
]

-- `next_due_slot_for_rule`.
unfoldable pub next_due_slot_for_rule : BTreeMap Text ℕ → ℕ → BreakRule → Option ℕ
next_due_slot_for_rule satisfied slot r = elim (checked_add_word slot 1) [
  | none ↦ none
  | some next ↦ some (max next (saturating_add_word (last_satisfied_slot satisfied r) r.interval))
]

-- `a` and then the minimum `b` of what follows it.
abbrev min_option : Option ℕ → Option ℕ → Option ℕ
min_option none b = b
min_option (some a) none = some a
min_option (some a) (some b) = some (min a b)

-- `filter_map(next_due_slot_for_rule).min()`.
unfoldable pub next_due_slot : BTreeMap Text ℕ → ℕ → List BreakRule → Option ℕ
unfolding next_due_slot_for_rule
next_due_slot satisfied slot [] = none
next_due_slot satisfied slot (r ∷ rules) =
    min_option (next_due_slot_for_rule satisfied slot r) (next_due_slot satisfied slot rules)

-- `next_due_break_after`.
unfoldable pub next_due_break_after :
    Draw → List BreakRule → BTreeMap Text ℕ → ℕ → Option ScheduledBreak
next_due_break_after draw rules satisfied slot = elim (next_due_slot satisfied slot rules) [
  | none ↦ none
  | some next ↦ due_break_at draw rules satisfied next
]

-- `for _ in 0..rounds { starts_after = starts_after.saturating_add(after_active); }`.
unfoldable pub add_rounds : ℕ → ℕ → ℕ → ℕ
add_rounds after_active zero starts_after = starts_after
add_rounds after_active (suc rounds) starts_after =
    add_rounds after_active rounds (saturating_add starts_after after_active)

-- The second half of `upcoming_scheduled_break`. The loop runs over slot + 1 .. next.
unfoldable pub upcoming_of :
    BreakScheduler → ScheduledBreak → BreakOrigin → Option UpcomingScheduledBreak
upcoming_of s b manual = none
upcoming_of s b (scheduled next) = some (record {
  scheduled_break = b;
  starts_after =
      add_rounds s.schedule.after_active (next - (s.slot + 1))
        (s.schedule.after_active - s.active_elapsed);
})

abbrev pub is_ready_active : SchedulerState → Bool
is_ready_active (ready active) = true
is_ready_active (ready disabled) = false
is_ready_active (pending resume) = false

-- `upcoming_scheduled_break`.
unfoldable pub upcoming_scheduled_break : Draw → BreakScheduler → Option UpcomingScheduledBreak
unfolding upcoming_of
upcoming_scheduled_break draw s =
    if is_ready_active s.state
    then elim (next_due_break_after draw s.schedule.rules s.last_satisfied_slots s.slot) [
      | none ↦ none
      | some b ↦ upcoming_of s b b.origin
    ]
    else none

-- The interval of the rule that the upcoming break is of.
unfoldable pub upcoming_interval : Draw → BreakScheduler → Option ℕ
upcoming_interval draw s = elim (upcoming_scheduled_break draw s) [
  | none ↦ none
  | some u ↦ elim (rule s.schedule.rules u.scheduled_break.name) [
    | none ↦ none
    | some r ↦ some r.interval
  ]
]

abbrev pub is_none_or_le : Option ℕ → ℕ → Bool
is_none_or_le none interval = true
is_none_or_le (some next) interval = leb next interval

-- `collect()` of the rules' availability into a map that holds `m` so far.
unfoldable pub collect_available :
    Option ℕ → BTreeMap Text Bool → List BreakRule → BTreeMap Text Bool
unfolding insert text_eq text_lt
collect_available next m [] = m
collect_available next m (r ∷ rules) =
    collect_available next (insert r.name (is_none_or_le next r.interval) m) rules

-- `manual_break_availability`.
unfoldable pub manual_break_availability : Draw → BreakScheduler → BTreeMap Text Bool
unfolding collect_available
manual_break_availability draw s = collect_available (upcoming_interval draw s) [] s.schedule.rules

-- `manual_break_is_available`.
unfoldable pub manual_break_is_available : Draw → BreakScheduler → Text → Bool
manual_break_is_available draw s name = elim (rule s.schedule.rules name) [
  | none ↦ false
  | some r ↦ elim (upcoming_scheduled_break draw s) [
    | none ↦ true
    | some u ↦ elim (rule s.schedule.rules u.scheduled_break.name) [
      | none ↦ true
      | some q ↦ leb q.interval r.interval
    ]
  ]
]
