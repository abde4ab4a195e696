-- ===== src/Scheduler/Operations.antt =====
-- src/scheduler.rs: the operations of `BreakScheduler` on its own clock and on the user's requests.
-- A method that changes the scheduler gives the new one beside its result.
use rusteyes.Common.{
  ℕ, zero, suc, ◌+◌, ◌-◌, ◌/◌, ◌%◌, Bool, true, false, not, ◌&&◌, ◌||◌, Option, none, some, List,
  [], ◌∷◌, if◌then◌else◌, leb, ◌==◌, filter,
}
use rusteyes.Common.Text.{Text, text_key, text_eq, text_lt}
use rusteyes.Common.Map.{BTreeMap, insert}
use rusteyes.Common.Words.{saturating_add, word_mod}
use rusteyes.Scheduler.{
  BreakRule, BreakScheduler, SchedulerMode, SchedulerState, SchedulerPosition, ready, pending,
  active, disabled, manual, ScheduledBreak, Draw,
}
use rusteyes.Scheduler.Rules.{rule, to_break}
use rusteyes.Scheduler.Due.{rule_due_at, due_break_at, is_ready_active, manual_break_is_available}

-- `BreakScheduler::position`.
unfoldable pub position : BreakScheduler → SchedulerPosition
position s = record {
  slot = s.slot;
  active_elapsed = s.active_elapsed;
  last_satisfied_slots = s.last_satisfied_slots;
}

-- `for name in names { last_satisfied_slots.insert(name, slot); }` over the names of `rules`.
unfoldable pub insert_all : ℕ → List BreakRule → BTreeMap Text ℕ → BTreeMap Text ℕ
unfolding insert text_eq text_lt
insert_all slot [] m = m
insert_all slot (r ∷ rules) m = insert_all slot rules (insert r.name slot m)

-- `satisfy_scheduled_breaks`. The names are collected before the first is inserted.
unfoldable pub satisfy_scheduled_breaks :
    List BreakRule → ℕ → Text → BTreeMap Text ℕ → BTreeMap Text ℕ
unfolding rule filter rule_due_at insert_all
satisfy_scheduled_breaks rules slot selected satisfied = elim (rule rules selected) [
  | none ↦ satisfied
  | some q ↦
      insert_all slot
        (filter (λ r. leb r.interval q.interval && rule_due_at satisfied slot r) rules) satisfied
]

-- `satisfy_manual_breaks`.
unfoldable pub satisfy_manual_breaks : List BreakRule → ℕ → ℕ → BTreeMap Text ℕ → BTreeMap Text ℕ
unfolding filter insert_all
satisfy_manual_breaks rules slot selected_interval satisfied =
    insert_all slot (filter (λ r. leb r.interval selected_interval) rules) satisfied

-- What the loop of `advance_active` does with a break that is due at the slot just reached.
unfoldable pub take_due : BreakScheduler → ScheduledBreak → BreakScheduler
unfolding satisfy_scheduled_breaks
take_due s b = record s {
  last_satisfied_slots =
      satisfy_scheduled_breaks s.schedule.rules s.slot b.name s.last_satisfied_slots;
  active_elapsed = 0;
  state = pending active;
}

-- The head of the loop's body: one round of active time is used up, and the slot goes on (a `usize`
-- that wraps in a release build).
unfoldable pub next_slot : BreakScheduler → BreakScheduler
next_slot s = record s {
  active_elapsed = s.active_elapsed - s.schedule.after_active;
  slot = (s.slot + 1) % word_mod;
}

-- `while self.active_elapsed >= after_active { .. }`, with fuel.
unfoldable pub advance_loop : ℕ → Draw → BreakScheduler → BreakScheduler × Option ScheduledBreak
unfolding next_slot due_break_at take_due
advance_loop zero draw s = (s, none)
advance_loop (suc fuel) draw s =
    let t = next_slot s in
    let rest = advance_loop fuel draw t in
    if leb s.schedule.after_active s.active_elapsed
    then elim (due_break_at draw t.schedule.rules t.last_satisfied_slots t.slot) [
      | none ↦ rest
      | some b ↦ (take_due t b, some b)
    ]
    else (s, none)

-- The loop takes at most active_elapsed / after_active rounds.
unfoldable pub run_advance_loop : Draw → BreakScheduler → BreakScheduler × Option ScheduledBreak
unfolding advance_loop
run_advance_loop draw s = advance_loop (s.active_elapsed / s.schedule.after_active) draw s

-- `BreakScheduler::advance_active`.
unfoldable pub advance_active : Draw → ℕ → BreakScheduler → BreakScheduler × Option ScheduledBreak
unfolding run_advance_loop
advance_active draw elapsed s =
    if is_ready_active s.state
    then run_advance_loop draw
        (record s { active_elapsed = saturating_add s.active_elapsed elapsed })
    else (s, none)

-- `BreakScheduler::reset_active_time`.
unfoldable pub reset_active_time : BreakScheduler → BreakScheduler
reset_active_time s = record s { active_elapsed = 0 }

-- `for slot in last_satisfied_slots.values_mut() { *slot = 0; }`.
unfoldable pub zero_values : BTreeMap Text ℕ → BTreeMap Text ℕ
zero_values [] = []
zero_values ((name, slot) ∷ m) = (name, 0) ∷ zero_values m

-- `last_satisfied_slots.values().any(|slot| *slot != 0)`.
unfoldable pub any_nonzero : BTreeMap Text ℕ → Bool
any_nonzero [] = false
any_nonzero ((name, slot) ∷ m) = not (slot == 0) || any_nonzero m

-- `BreakScheduler::reset_position`.
unfoldable pub reset_position : BreakScheduler → BreakScheduler × Bool
unfolding zero_values any_nonzero
reset_position s = (
  record s {
    slot = 0;
    active_elapsed = 0;
    last_satisfied_slots = zero_values s.last_satisfied_slots;
  },
  not (s.slot == 0) || not (s.active_elapsed == 0) || any_nonzero s.last_satisfied_slots,
)

-- The last part of `start_manual_break`.
unfoldable pub begin_manual_break :
    Draw → BreakScheduler → SchedulerMode → BreakRule → BreakScheduler × ScheduledBreak
unfolding satisfy_manual_breaks to_break
begin_manual_break draw s resume r = (
  record s {
    active_elapsed = 0;
    last_satisfied_slots =
        satisfy_manual_breaks s.schedule.rules s.slot r.interval s.last_satisfied_slots;
    state = pending resume;
  },
  to_break draw r manual,
)

pub start_manual_in :
    SchedulerState → Draw → Text → BreakScheduler → BreakScheduler × Option ScheduledBreak
unfolding manual_break_is_available rule begin_manual_break
start_manual_in (pending resume) draw name s = (s, none)
start_manual_in (ready mode) draw name s =
    if manual_break_is_available draw s name
    then elim (rule s.schedule.rules name) [
      | none ↦ (s, none)
      | some r ↦ let (t, b) = begin_manual_break draw s mode r in (t, some b)
    ]
    else (s, none)

-- `BreakScheduler::start_manual_break`.
unfoldable pub start_manual_break :
    Draw → Text → BreakScheduler → BreakScheduler × Option ScheduledBreak
unfolding start_manual_in
start_manual_break draw name s = start_manual_in s.state draw name s

-- `BreakScheduler::has_break`.
unfoldable pub has_break : BreakScheduler → Text → Bool
unfolding rule
has_break s name = elim (rule s.schedule.rules name) [ none ↦ false | some r ↦ true ]

-- The state after `finish_break`, and whether a break was pending.
abbrev pub finished : SchedulerState → SchedulerState × Bool
finished (pending resume) = (ready resume, true)
finished (ready disabled) = (ready disabled, false)
finished (ready active) = (ready active, false)

-- `BreakScheduler::finish_break`.
unfoldable pub finish_break : BreakScheduler → BreakScheduler × Bool
finish_break s =
    (record s { active_elapsed = 0; state = (finished s.state).0 }, (finished s.state).1)

abbrev pub is_pending : SchedulerState → Bool
is_pending (pending resume) = true
is_pending (ready mode) = false

-- `BreakScheduler::disable`.
unfoldable pub disable : BreakScheduler → BreakScheduler × Bool
disable s = (record s { active_elapsed = 0; state = ready disabled }, is_pending s.state)

abbrev pub enabled : SchedulerState → SchedulerState
enabled (ready mode) = ready active
enabled (pending resume) = pending active

-- `BreakScheduler::enable`.
unfoldable pub enable : BreakScheduler → BreakScheduler
enable s = record s { state = enabled s.state }
