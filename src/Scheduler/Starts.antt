-- ===== src/Scheduler/Starts.antt =====
-- src/scheduler.rs: how `start_manual_break`, `start_active_synced_break` and
-- `replacement_synced_break` can end.
use rusteyes.Common.{
  ℕ, ◌≤◌, ◌≡◌, refl, subst, true, Option, none, some, arith, Bool-cases, Option-cases, inl, inr,
  ltb,
}
use rusteyes.Common.Text.{Text}
use rusteyes.Scheduler.{
  BreakRule, BreakScheduler, SchedulerMode, SchedulerState, ready, pending, Draw, BreakOrigin,
  scheduled, manual, ScheduledBreak,
}
use rusteyes.Scheduler.Due.{manual_break_is_available}
use rusteyes.Scheduler.Rules.{rule}
use rusteyes.Scheduler.Operations.{
  satisfy_scheduled_breaks, satisfy_manual_breaks, begin_manual_break, start_manual_in,
  start_manual_break,
}
use rusteyes.Scheduler.Synced.{
  start_active_synced_break, replacement_synced_break, adopt_synced_origin, begin_in,
  begin_synced_break, break_for_origin, rejects,
}

pub data ManualOutcome (draw : Draw) (name : Text) (s : BreakScheduler)
    : BreakScheduler × Option ScheduledBreak → Type 0 where
  denied : ManualOutcome draw name s (s, none)
  begun :
      (mode : SchedulerMode) (r : BreakRule)
      → s.state ≡ ready mode
      → manual_break_is_available draw s name ≡ true
      → rule s.schedule.rules name ≡ some r
      → ManualOutcome draw name s
          ((begin_manual_break draw s mode r).0, some (begin_manual_break draw s mode r).1)

start_manual_in-ManualOutcome :
    (draw : Draw) (name : Text) (s : BreakScheduler) (state : SchedulerState)
    → s.state ≡ state
    → ManualOutcome draw name s (start_manual_in state draw name s)
unfolding start_manual_break
start_manual_in-ManualOutcome draw name s (pending resume) e = denied
start_manual_in-ManualOutcome draw name s (ready mode) e =
    elim (Bool-cases (manual_break_is_available draw s name)) [
      | inr miss ↦ rw miss denied
      | inl available ↦ elim (Option-cases (rule s.schedule.rules name)) [
        | inl missing ↦ rw (available, missing) denied
        | inr (r, found) ↦ rw (available, found) (begun mode r e available found)
      ]
    ]

pub start_manual_break-ManualOutcome :
    (draw : Draw) (name : Text) (s : BreakScheduler)
    → ManualOutcome draw name s (start_manual_break draw name s)
unfolding start_manual_break
start_manual_break-ManualOutcome draw name s =
    start_manual_in-ManualOutcome draw name s s.state refl

-- `t` is `s` after a synced break's origin is adopted.
pub data Adopted (name : Text) (s : BreakScheduler) : BreakOrigin → BreakScheduler → Type 0 where
  adopted_manual :
      (r : BreakRule)
      → rule s.schedule.rules name ≡ some r
      → Adopted name s manual (record s {
        last_satisfied_slots =
            satisfy_manual_breaks s.schedule.rules s.slot r.interval s.last_satisfied_slots;
      })
  adopted_slot :
      (slot : ℕ)
      → s.slot ≤ slot
      → Adopted name s (scheduled slot) (record s {
        slot = slot;
        active_elapsed = 0;
        last_satisfied_slots =
            satisfy_scheduled_breaks s.schedule.rules slot name s.last_satisfied_slots;
      })

pub adopt_synced_origin-Adopted :
    (name : Text) (origin : BreakOrigin) (s t : BreakScheduler)
    → adopt_synced_origin name origin s ≡ some t
    → Adopted name s origin t
unfolding adopt_synced_origin
adopt_synced_origin-Adopted name manual s t e = elim (Option-cases (rule s.schedule.rules name)) [
  | inl missing ↦ ground arith
  | inr (r, found) ↦ subst (Adopted name s manual) (ground arith) (adopted_manual r found)
]
adopt_synced_origin-Adopted name (scheduled slot) s t e = elim (Bool-cases (ltb slot s.slot)) [
  | inl early ↦ ground arith
  | inr current ↦
      subst (Adopted name s (scheduled slot)) (ground arith) (adopted_slot slot (ground arith))
]

-- `t` is `s` after it has begun a synced break.
pub data Begun (name : Text) (origin : BreakOrigin) (s t : BreakScheduler) : Type 0 where
  begun_from :
      (mode : SchedulerMode) (u : BreakScheduler)
      → s.state ≡ ready mode
      → Adopted name s origin u
      → t ≡ record u { active_elapsed = 0; state = pending mode }
      → Begun name origin s t

begin_in-Begun :
    (name : Text) (origin : BreakOrigin) (s t : BreakScheduler) (state : SchedulerState)
    → s.state ≡ state
    → begin_in state name origin s ≡ some t
    → Begun name origin s t
unfolding begin_synced_break
begin_in-Begun name origin s t (pending resume) here e = cc
begin_in-Begun name origin s t (ready mode) here e = elim (Bool-cases (rejects origin s.slot)) [
  | inl early ↦ ground arith
  | inr current ↦ elim (Option-cases (adopt_synced_origin name origin s)) [
    | inl missing ↦ ground arith
    | inr (u, found) ↦
        begun_from mode u here (adopt_synced_origin-Adopted name origin s u found) (ground arith)
  ]
]

pub data SyncedOutcome (name : Text) (origin : BreakOrigin) (s : BreakScheduler)
    : BreakScheduler × Option ScheduledBreak → Type 0 where
  unchanged : SyncedOutcome name origin s (s, none)
  started :
      (t : BreakScheduler) (b : ScheduledBreak)
      → Begun name origin s t
      → SyncedOutcome name origin s (t, some b)

pub start_active_synced_break-SyncedOutcome :
    (draw : Draw) (name : Text) (origin : BreakOrigin) (s : BreakScheduler)
    → SyncedOutcome name origin s (start_active_synced_break draw name origin s)
unfolding start_active_synced_break
start_active_synced_break-SyncedOutcome draw name origin s =
    elim (Option-cases (break_for_origin draw s name origin)) [
      | inl missing ↦ rw (missing, start_active_synced_break) unchanged
      | inr (b, found) ↦ elim (Option-cases (begin_synced_break name origin s)) [
        | inl refused ↦ rw (found, refused, start_active_synced_break) unchanged
        | inr (t, changed) ↦
            rw (found, changed, start_active_synced_break)
              (started t b (begin_in-Begun name origin s t s.state refl changed))
      ]
    ]

pub data ReplacedOutcome (name : Text) (origin : BreakOrigin) (s : BreakScheduler)
    : BreakScheduler × Option ScheduledBreak → Type 0 where
  kept : ReplacedOutcome name origin s (s, none)
  replaced :
      (t : BreakScheduler) (b : ScheduledBreak)
      → Adopted name s origin t
      → ReplacedOutcome name origin s (t, some b)

pub replacement_synced_break-ReplacedOutcome :
    (draw : Draw) (name : Text) (origin : BreakOrigin) (s : BreakScheduler)
    → ReplacedOutcome name origin s (replacement_synced_break draw name origin s)
unfolding replacement_synced_break
replacement_synced_break-ReplacedOutcome draw name origin s =
    elim (Option-cases (break_for_origin draw s name origin)) [
      | inl missing ↦ rw (missing, replacement_synced_break) kept
      | inr (b, found) ↦ elim (Option-cases (adopt_synced_origin name origin s)) [
        | inl refused ↦ rw (found, refused, replacement_synced_break) kept
        | inr (t, adopted) ↦
            rw (found, adopted, replacement_synced_break)
              (replaced t b (adopt_synced_origin-Adopted name origin s t adopted))
      ]
    ]
