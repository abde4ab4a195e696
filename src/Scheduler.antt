-- ===== src/Scheduler.antt =====
-- src/scheduler.rs: the break scheduler's data. A duration is its number of nanoseconds; slots and
-- intervals are `usize` values of a 64-bit target.
pub mod Rules
pub mod Due
pub mod Operations
pub mod Synced
pub mod Loop
pub mod Rounds
pub mod Order
pub mod Satisfy
pub mod Outcome
pub mod Handout
pub mod Merge
pub mod Converge
pub mod Starts
pub mod Build
pub mod Available
pub mod Requests
pub mod Entries
pub mod Tracked
pub mod Next
pub mod Prediction
use rusteyes.Common.{ℕ, Bool, Option, List}
use rusteyes.Common.Text.{Text}
use rusteyes.Common.Map.{BTreeMap}

pub record BreakRule : Type 0 where
  pub name : Text
  pub interval : ℕ
  pub duration : ℕ
  pub messages : List Text
  pub autolock : Bool

pub record BreakSchedule : Type 0 where
  pub after_active : ℕ
  pub reset_after_idle : Option ℕ
  pub reset_count_after_idle : Option ℕ
  pub rules : List BreakRule

pub data SchedulerMode : Type 0 where
  active disabled : SchedulerMode

pub data SchedulerState : Type 0 where
  ready : SchedulerMode → SchedulerState
  pending : (resume : SchedulerMode) → SchedulerState

pub record BreakScheduler : Type 0 where
  pub schedule : BreakSchedule
  pub active_elapsed : ℕ
  pub slot : ℕ
  pub last_satisfied_slots : BTreeMap Text ℕ
  pub state : SchedulerState

pub data BreakOrigin : Type 0 where
  scheduled : (slot : ℕ) → BreakOrigin
  manual : BreakOrigin

pub record ScheduledBreak : Type 0 where
  pub name : Text
  pub origin : BreakOrigin
  pub duration : ℕ
  pub message : Text
  pub autolock : Bool

pub record UpcomingScheduledBreak : Type 0 where
  pub scheduled_break : ScheduledBreak
  pub starts_after : ℕ

pub record SchedulerPosition : Type 0 where
  pub slot : ℕ
  pub active_elapsed : ℕ
  pub last_satisfied_slots : BTreeMap Text ℕ

-- What `getrandom::fill` of eight bytes gives, as a number, or that it fails. An operation takes
-- one such draw: it chooses the message of the break that the operation hands out. The messages
-- drawn on the way there are dropped by the code.
abbrev pub Draw : Type 0
Draw = Option ℕ
