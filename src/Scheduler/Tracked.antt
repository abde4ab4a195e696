-- ===== src/Scheduler/Tracked.antt =====
-- src/scheduler.rs: the entries of the rules under every call.
use rusteyes.Common.{
  ℕ, ◌+◌, ◌/◌, ◌≤◌, ◌<◌, ◌≡◌, refl, sym, subst, subst₂, ◌∙◌, true, Option, none, some, [], arith,
  Bool-cases, inl, inr, min, max,
}
use rusteyes.Common.Text.{Text, text_key}
use rusteyes.Common.Map.{get}
use rusteyes.Common.Words.{word_mod, saturating_add}
use rusteyes.Scheduler.{
  BreakSchedule, BreakScheduler, SchedulerPosition, Draw, BreakOrigin, ScheduledBreak,
}
use rusteyes.Scheduler.Due.{is_ready_active}
use rusteyes.Scheduler.Rules.{new}
use rusteyes.Scheduler.Satisfy.{has_name}
use rusteyes.Scheduler.Converge.{IsTracked}
use rusteyes.Scheduler.Merge.{merged, IsMerged, merge_synced_position-IsMerged}
use rusteyes.Scheduler.Outcome.{Outcome, quiet, handed, IsLater, advance_loop-Outcome}
use rusteyes.Scheduler.Operations.{
  take_due, advance_active, reset_active_time, reset_position, begin_manual_break, finish_break,
  disable, enable,
}
use rusteyes.Scheduler.Starts.{
  ManualOutcome, denied, begun, Adopted, adopted_manual, adopted_slot, begun_from, SyncedOutcome,
  unchanged, started, ReplacedOutcome, kept, replaced, start_manual_break-ManualOutcome,
  start_active_synced_break-SyncedOutcome, replacement_synced_break-ReplacedOutcome,
}
use rusteyes.Scheduler.Requests.{
  Request, step, rounds, advances, resets_active_time, resets_position, finishes, disables, enables,
  starts_manual, starts_synced, replaces, merges,
}
use rusteyes.Scheduler.Entries.{
  Tracks, Tracks-later, Tracks-satisfy_scheduled, Tracks-satisfy_manual, get-zero_values,
  get-collect_zero,
}

-- A new scheduler has an entry for each rule.
pub new-IsTracked : (schedule : BreakSchedule) → IsTracked (new schedule)
unfolding new
new-IsTracked schedule name there =
    (0, rw (get-collect_zero name schedule.rules [], there), omega arith)

take_due-IsTracked :
    (s : BreakScheduler) (b : ScheduledBreak) → IsTracked s → IsTracked (take_due s b)
unfolding take_due
take_due-IsTracked s b t =
    Tracks-satisfy_scheduled s.schedule.rules s.slot b.name s.last_satisfied_slots t

IsLater-IsTracked :
    (rounds : ℕ) (s t : BreakScheduler)
    → s.slot + rounds < word_mod
    → IsTracked s
    → IsLater rounds s t
    → IsTracked t
IsLater-IsTracked rounds s t small tracked l =
    subst₂ (λ schedule m. Tracks schedule.rules t.slot m) (sym l.same_schedule)
      (sym l.same_satisfied)
      (Tracks-later s.schedule.rules s.slot t.slot s.last_satisfied_slots (l.moved small).0 tracked)

Outcome-IsTracked :
    (rounds : ℕ) (draw : Draw) (s : BreakScheduler) (o : BreakScheduler × Option ScheduledBreak)
    → s.slot + rounds < word_mod
    → IsTracked s
    → Outcome rounds draw s o
    → IsTracked o.0
Outcome-IsTracked rounds draw s o small tracked (quiet t l) =
    IsLater-IsTracked rounds s t small tracked l
Outcome-IsTracked rounds draw s o small tracked (handed t b l e) =
    take_due-IsTracked t b (IsLater-IsTracked rounds s t small tracked l)

advance_active-IsTracked :
    (draw : Draw) (elapsed : ℕ) (s : BreakScheduler)
    → s.slot + saturating_add s.active_elapsed elapsed / s.schedule.after_active < word_mod
    → IsTracked s
    → IsTracked (advance_active draw elapsed s).0
unfolding advance_active
advance_active-IsTracked draw elapsed s small tracked =
    elim (Bool-cases (is_ready_active s.state)) [
      | inr waiting ↦ rw waiting tracked
      | inl counting ↦
          rw counting (
            Outcome-IsTracked _ draw credited _ small tracked
              (advance_loop-Outcome _ draw credited))
    ]
  where
    credited : BreakScheduler
    credited = record s { active_elapsed = saturating_add s.active_elapsed elapsed }

reset_position-IsTracked : (s : BreakScheduler) → IsTracked s → IsTracked (reset_position s).0
unfolding reset_position
reset_position-IsTracked s tracked name there =
    let (n, e, le) = tracked name there in
    (0, get-zero_values name s.last_satisfied_slots e, omega arith)

ManualOutcome-IsTracked :
    (draw : Draw) (name : Text) (s : BreakScheduler) (o : BreakScheduler × Option ScheduledBreak)
    → ManualOutcome draw name s o
    → IsTracked s
    → IsTracked o.0
unfolding begin_manual_break
ManualOutcome-IsTracked draw name s o denied tracked = tracked
ManualOutcome-IsTracked draw name s o (begun mode r was free found) tracked =
    Tracks-satisfy_manual s.schedule.rules s.slot r.interval s.last_satisfied_slots tracked

Adopted-IsTracked :
    (name : Text) (s : BreakScheduler) (origin : BreakOrigin) (t : BreakScheduler)
    → Adopted name s origin t
    → IsTracked s
    → IsTracked t
Adopted-IsTracked name s origin t (adopted_manual r found) tracked =
    Tracks-satisfy_manual s.schedule.rules s.slot r.interval s.last_satisfied_slots tracked
Adopted-IsTracked name s origin t (adopted_slot slot later) tracked =
    Tracks-satisfy_scheduled s.schedule.rules slot name s.last_satisfied_slots
      (Tracks-later s.schedule.rules s.slot slot s.last_satisfied_slots later tracked)

SyncedOutcome-IsTracked :
    (name : Text) (origin : BreakOrigin) (s : BreakScheduler)
    (o : BreakScheduler × Option ScheduledBreak)
    → SyncedOutcome name origin s o
    → IsTracked s
    → IsTracked o.0
SyncedOutcome-IsTracked name origin s o unchanged tracked = tracked
SyncedOutcome-IsTracked name origin s o (started t b (begun_from mode u was adopted e)) tracked =
    subst IsTracked (sym e) (Adopted-IsTracked name s origin u adopted tracked)

ReplacedOutcome-IsTracked :
    (name : Text) (origin : BreakOrigin) (s : BreakScheduler)
    (o : BreakScheduler × Option ScheduledBreak)
    → ReplacedOutcome name origin s o
    → IsTracked s
    → IsTracked o.0
ReplacedOutcome-IsTracked name origin s o kept tracked = tracked
ReplacedOutcome-IsTracked name origin s o (replaced t b adopted) tracked =
    Adopted-IsTracked name s origin t adopted tracked

IsMerged-IsTracked :
    (p : SchedulerPosition) (s t : BreakScheduler) → IsMerged p s t → IsTracked s → IsTracked t
IsMerged-IsTracked p s t m tracked name there =
    let there' : has_name name s.schedule.rules ≡ true =
      subst (λ schedule. has_name name schedule.rules ≡ true) m.same_schedule there in
    let (n, e, le) = tracked name there' in
    let (k, ek, lek) = merged-some (get name p.last_satisfied_slots) n le in
    (k, m.satisfied name ∙ rw (there', e) ek, omega (arith, m.slots))
  where
    merged-some :
        (theirs : Option ℕ) (n : ℕ)
        → n ≤ s.slot
        → (k : ℕ) × (merged (max s.slot p.slot) theirs (some n) ≡ some k) × (k ≤ max s.slot p.slot)
    merged-some none n le = (n, refl, omega arith)
    merged-some (some x) n le = (max n (min x (max s.slot p.slot)), refl, omega arith)

-- Every call keeps an entry for each rule, no later than the slot, on the condition that the slot
-- does not reach the end of a `usize` in the rounds that the call can complete.
pub step-IsTracked :
    (request : Request) (s : BreakScheduler)
    → s.slot + rounds request s < word_mod
    → IsTracked s
    → IsTracked (step request s)
unfolding step
step-IsTracked (advances draw elapsed) s small t = advance_active-IsTracked draw elapsed s small t
step-IsTracked resets_active_time s small t = unfold reset_active_time in t
step-IsTracked resets_position s small t = reset_position-IsTracked s t
step-IsTracked finishes s small t = unfold finish_break in t
step-IsTracked disables s small t = unfold disable in t
step-IsTracked enables s small t = unfold enable in t
step-IsTracked (starts_manual draw name) s small t =
    ManualOutcome-IsTracked draw name s _ (start_manual_break-ManualOutcome draw name s) t
step-IsTracked (starts_synced draw name origin) s small t =
    SyncedOutcome-IsTracked name origin s _
      (start_active_synced_break-SyncedOutcome draw name origin s) t
step-IsTracked (replaces draw name origin) s small t =
    ReplacedOutcome-IsTracked name origin s _
      (replacement_synced_break-ReplacedOutcome draw name origin s) t
step-IsTracked (merges p) s small t =
    IsMerged-IsTracked p s _ (merge_synced_position-IsMerged p s) t
