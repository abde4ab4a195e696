-- ===== src/Runtime/Pending.antt =====
-- src/runtime.rs, src/scheduler.rs: what a scheduler operation does to the scheduler's state, and to
-- whether a break is pending.
use rusteyes.Common.{ℕ, ◌≡◌, refl, ap, true, false, Option, none, some, Bool-cases, inl, inr}
use rusteyes.Common.Text.{Text}
use rusteyes.Common.Words.{saturating_add}
use rusteyes.Scheduler.{
  BreakScheduler, BreakOrigin, ScheduledBreak, SchedulerPosition, SchedulerState, ready, pending,
  Draw,
}
use rusteyes.Scheduler.Due.{is_ready_active}
use rusteyes.Scheduler.Operations.{
  is_pending, advance_active, run_advance_loop, start_manual_break, take_due, begin_manual_break,
  reset_position, enable,
}
use rusteyes.Scheduler.Operations
use rusteyes.Scheduler.Synced.{
  start_active_synced_break, replacement_synced_break, merge_synced_position,
}
use rusteyes.Scheduler.Outcome.{Outcome, quiet, handed, advance_loop-Outcome}
use rusteyes.Scheduler.Merge.{merge_synced_position-IsMerged}
use rusteyes.Scheduler.Starts.{
  ManualOutcome, denied, begun, Adopted, adopted_manual, adopted_slot, begun_from, SyncedOutcome,
  unchanged, started, ReplacedOutcome, kept, replaced, start_manual_break-ManualOutcome,
  start_active_synced_break-SyncedOutcome, replacement_synced_break-ReplacedOutcome,
}

-- A break is handed out only by a scheduler with none pending, which then has it pending; with no
-- break handed out, nothing changes in that.
pub data Hands (state : SchedulerState) : BreakScheduler × Option ScheduledBreak → Type 0 where
  nothing : (t : BreakScheduler) → is_pending t.state ≡ is_pending state → Hands state (t, none)
  hands :
      (t : BreakScheduler) (b : ScheduledBreak)
      → is_pending state ≡ false
      → is_pending t.state ≡ true
      → Hands state (t, some b)

not_pending : (state : SchedulerState) → is_ready_active state ≡ true → is_pending state ≡ false
not_pending (ready mode) h = refl
not_pending (pending mode) h = cc

Outcome-Hands :
    (rounds : ℕ) (draw : Draw) (s : BreakScheduler) {o : BreakScheduler × Option ScheduledBreak}
    → is_ready_active s.state ≡ true
    → Outcome rounds draw s o
    → Hands s.state o
unfolding take_due
Outcome-Hands rounds draw s counting (quiet t l) = nothing t (ap is_pending l.same_state)
Outcome-Hands rounds draw s counting (handed t b l e) =
    hands _ b (not_pending s.state counting) refl

pub advance_active-Hands :
    (draw : Draw) (elapsed : ℕ) (s : BreakScheduler) → Hands s.state (advance_active draw elapsed s)
unfolding advance_active run_advance_loop
advance_active-Hands draw elapsed s = elim (Bool-cases (is_ready_active s.state)) [
  | inr waiting ↦ rw waiting (nothing s refl)
  | inl counting ↦
      rw counting (Outcome-Hands _ draw credited counting (advance_loop-Outcome _ draw credited))
]
  where
    credited : BreakScheduler
    credited = record s { active_elapsed = saturating_add s.active_elapsed elapsed }

ManualOutcome-Hands :
    (draw : Draw) (name : Text) (s : BreakScheduler) {o : BreakScheduler × Option ScheduledBreak}
    → ManualOutcome draw name s o
    → Hands s.state o
unfolding begin_manual_break
ManualOutcome-Hands draw name s denied = nothing s refl
ManualOutcome-Hands draw name s (begun mode r was free found) = hands _ _ (ap is_pending was) refl

pub start_manual_break-Hands :
    (draw : Draw) (name : Text) (s : BreakScheduler)
    → Hands s.state (start_manual_break draw name s)
start_manual_break-Hands draw name s =
    ManualOutcome-Hands draw name s (start_manual_break-ManualOutcome draw name s)

SyncedOutcome-Hands :
    (name : Text) (origin : BreakOrigin) (s : BreakScheduler)
    {o : BreakScheduler × Option ScheduledBreak}
    → SyncedOutcome name origin s o
    → Hands s.state o
SyncedOutcome-Hands name origin s unchanged = nothing s refl
SyncedOutcome-Hands name origin s (started t b (begun_from mode u was adopted e)) =
    hands t b (ap is_pending was) (ap (λ v. is_pending v.state) e)

pub start_active_synced_break-Hands :
    (draw : Draw) (name : Text) (origin : BreakOrigin) (s : BreakScheduler)
    → Hands s.state (start_active_synced_break draw name origin s)
start_active_synced_break-Hands draw name origin s =
    SyncedOutcome-Hands name origin s (start_active_synced_break-SyncedOutcome draw name origin s)

Adopted-state :
    (name : Text) (origin : BreakOrigin) (s t : BreakScheduler)
    → Adopted name s origin t
    → t.state ≡ s.state
Adopted-state name origin s t (adopted_manual r found) = refl
Adopted-state name origin s t (adopted_slot slot later) = refl

ReplacedOutcome-state :
    (name : Text) (origin : BreakOrigin) (s : BreakScheduler)
    {o : BreakScheduler × Option ScheduledBreak}
    → ReplacedOutcome name origin s o
    → o.0.state ≡ s.state
ReplacedOutcome-state name origin s kept = refl
ReplacedOutcome-state name origin s (replaced t b adopted) = Adopted-state name origin s t adopted

pub replacement_synced_break-state :
    (draw : Draw) (name : Text) (origin : BreakOrigin) (s : BreakScheduler)
    → (replacement_synced_break draw name origin s).0.state ≡ s.state
replacement_synced_break-state draw name origin s =
    ReplacedOutcome-state name origin s
      (replacement_synced_break-ReplacedOutcome draw name origin s)

pub merge_synced_position-state :
    (p : SchedulerPosition) (s : BreakScheduler) → (merge_synced_position p s).0.state ≡ s.state
merge_synced_position-state p s = (merge_synced_position-IsMerged p s).same_state

pub enable-is_pending : (s : BreakScheduler) → is_pending (enable s).state ≡ is_pending s.state
unfolding enable
enable-is_pending s =
    elim s.state as (λ state. is_pending (Operations.enabled state) ≡ is_pending state) [
      | ready mode ↦ refl
      | pending mode ↦ refl
    ]
