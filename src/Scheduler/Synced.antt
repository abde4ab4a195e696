-- ===== src/Scheduler/Synced.antt =====
-- src/scheduler.rs: the operations of `BreakScheduler` on what a peer reports. The policy
-- `FutureOnly`, with `start_synced_break`, is compiled for the tests only and is left out.
use rusteyes.Common.{
  ℕ, Bool, true, false, ◌&&◌, ◌||◌, Option, none, some, List, [], ◌∷◌, min, if◌then◌else◌, ltb,
  ◌==◌,
}
use rusteyes.Common.Text.{Text, text_key, text_eq, text_lt}
use rusteyes.Common.Map.{BTreeMap, get, insert}
use rusteyes.Scheduler.{
  BreakRule, BreakScheduler, SchedulerState, SchedulerPosition, ready, pending, BreakOrigin,
  scheduled, manual, ScheduledBreak, Draw,
}
use rusteyes.Scheduler.Rules.{rule, to_break}
use rusteyes.Scheduler.Operations.{satisfy_scheduled_breaks, satisfy_manual_breaks}

break_of : Draw → BreakRule → BreakOrigin → Option ScheduledBreak
unfolding to_break
break_of draw r manual = some (to_break draw r manual)
break_of draw r (scheduled slot) =
    if ltb 0 slot then some (to_break draw r (scheduled slot)) else none

-- `break_for_origin`.
unfoldable pub break_for_origin : Draw → BreakScheduler → Text → BreakOrigin → Option ScheduledBreak
unfolding rule break_of
break_for_origin draw s name origin = elim (rule s.schedule.rules name) [
  | none ↦ none
  | some r ↦ break_of draw r origin
]

-- `adopt_synced_origin`; `none` is its early return, before it has changed anything.
unfoldable pub adopt_synced_origin : Text → BreakOrigin → BreakScheduler → Option BreakScheduler
unfolding rule satisfy_manual_breaks satisfy_scheduled_breaks
adopt_synced_origin name manual s = elim (rule s.schedule.rules name) [
  | none ↦ none
  | some r ↦ some (record s {
    last_satisfied_slots =
        satisfy_manual_breaks s.schedule.rules s.slot r.interval s.last_satisfied_slots;
  })
]
adopt_synced_origin name (scheduled slot) s =
    if ltb slot s.slot
    then none
    else some (record s {
      slot = slot;
      active_elapsed = 0;
      last_satisfied_slots =
          satisfy_scheduled_breaks s.schedule.rules slot name s.last_satisfied_slots;
    })

-- `SyncedBreakSlotPolicy::CurrentOrFuture.rejects`, at the origin of the break.
abbrev pub rejects : BreakOrigin → ℕ → Bool
rejects manual current_slot = false
rejects (scheduled slot) current_slot = ltb slot current_slot

pub begin_in : SchedulerState → Text → BreakOrigin → BreakScheduler → Option BreakScheduler
unfolding adopt_synced_origin
begin_in (pending resume) name origin s = none
begin_in (ready mode) name origin s =
    if rejects origin s.slot then none else elim (adopt_synced_origin name origin s) [
      | none ↦ none
      | some t ↦ some (record t { active_elapsed = 0; state = pending mode })
    ]

-- `begin_synced_break`, under the policy `CurrentOrFuture`.
unfoldable pub begin_synced_break : Text → BreakOrigin → BreakScheduler → Option BreakScheduler
unfolding begin_in
begin_synced_break name origin s = begin_in s.state name origin s

-- A step that may fail leaves the scheduler alone if it does.
abbrev commit :
    BreakScheduler → ScheduledBreak → Option BreakScheduler → BreakScheduler × Option ScheduledBreak
commit s b none = (s, none)
commit s b (some t) = (t, some b)

-- `start_active_synced_break`.
unfoldable pub start_active_synced_break :
    Draw → Text → BreakOrigin → BreakScheduler → BreakScheduler × Option ScheduledBreak
unfolding break_for_origin begin_synced_break
start_active_synced_break draw name origin s = elim (break_for_origin draw s name origin) [
  | none ↦ (s, none)
  | some b ↦ commit s b (begin_synced_break name origin s)
]

-- `replacement_synced_break`.
unfoldable pub replacement_synced_break :
    Draw → Text → BreakOrigin → BreakScheduler → BreakScheduler × Option ScheduledBreak
unfolding break_for_origin adopt_synced_origin
replacement_synced_break draw name origin s = elim (break_for_origin draw s name origin) [
  | none ↦ (s, none)
  | some b ↦ commit s b (adopt_synced_origin name origin s)
]

-- `if slot > self.slot { .. }`.
unfoldable pub merge_slot : SchedulerPosition → BreakScheduler → BreakScheduler × Bool
merge_slot p s =
    if ltb s.slot p.slot
    then (record s { slot = p.slot; active_elapsed = p.active_elapsed }, true)
    else (s, false)

-- `if slot == self.slot && active_elapsed > self.active_elapsed { .. }`.
unfoldable pub merge_elapsed : SchedulerPosition → BreakScheduler → BreakScheduler × Bool
merge_elapsed p s =
    if (p.slot == s.slot) && ltb s.active_elapsed p.active_elapsed
    then (record s { active_elapsed = p.active_elapsed }, true)
    else (s, false)

-- The body of the loop over the rules, on the two entries of the rule's name.
unfoldable pub merge_entry :
    ℕ → Text → Option ℕ → Option ℕ → BTreeMap Text ℕ → BTreeMap Text ℕ × Bool
unfolding insert text_eq text_lt
merge_entry slot name none current m = (m, false)
merge_entry slot name (some theirs) none m = (m, false)
merge_entry slot name (some theirs) (some current) m =
    if ltb current (min theirs slot) then (insert name (min theirs slot) m, true) else (m, false)

-- The loop over the rules.
unfoldable pub merge_satisfied :
    ℕ → BTreeMap Text ℕ → List BreakRule → BTreeMap Text ℕ → BTreeMap Text ℕ × Bool
unfolding get merge_entry
merge_satisfied slot theirs [] m = (m, false)
merge_satisfied slot theirs (r ∷ rules) m =
    let (m', changed) = merge_entry slot r.name (get r.name theirs) (get r.name m) m in
    let (m'', changed_later) = merge_satisfied slot theirs rules m' in
    (m'', changed || changed_later)

-- `merge_synced_position`.
unfoldable pub merge_synced_position : SchedulerPosition → BreakScheduler → BreakScheduler × Bool
unfolding merge_slot merge_elapsed merge_satisfied
merge_synced_position p s =
    let (t, ahead) = merge_slot p s in
    let (u, further) = merge_elapsed p t in
    let (m, changed) =
      merge_satisfied u.slot p.last_satisfied_slots u.schedule.rules u.last_satisfied_slots in
    (record u { last_satisfied_slots = m }, ahead || further || changed)
