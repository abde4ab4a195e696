-- ===== src/Scheduler/Requests.antt =====
-- src/scheduler.rs: the calls that the runtime makes of a scheduler, as one step.
use rusteyes.Common.{ℕ, ◌/◌}
use rusteyes.Common.Text.{Text, text_key}
use rusteyes.Common.Words.{saturating_add}
use rusteyes.Scheduler.{BreakScheduler, SchedulerPosition, Draw, BreakOrigin}
use rusteyes.Scheduler.Operations.{
  advance_active, reset_active_time, reset_position, start_manual_break, finish_break, disable,
  enable,
}
use rusteyes.Scheduler.Synced.{
  start_active_synced_break, replacement_synced_break, merge_synced_position,
}

-- The calls that the runtime makes of the scheduler.
pub data Request : Type 0 where
  advances : Draw → (elapsed : ℕ) → Request
  resets_active_time resets_position finishes disables enables : Request
  starts_manual : Draw → (name : Text) → Request
  starts_synced replaces : Draw → (name : Text) → BreakOrigin → Request
  merges : SchedulerPosition → Request

unfoldable pub step : Request → BreakScheduler → BreakScheduler
step (advances draw elapsed) s = (advance_active draw elapsed s).0
step resets_active_time s = reset_active_time s
step resets_position s = (reset_position s).0
step finishes s = (finish_break s).0
step disables s = (disable s).0
step enables s = enable s
step (starts_manual draw name) s = (start_manual_break draw name s).0
step (starts_synced draw name origin) s = (start_active_synced_break draw name origin s).0
step (replaces draw name origin) s = (replacement_synced_break draw name origin s).0
step (merges p) s = (merge_synced_position p s).0

-- The rounds of active time that a call can complete.
abbrev pub rounds : Request → BreakScheduler → ℕ
rounds (advances draw elapsed) s = saturating_add s.active_elapsed elapsed / s.schedule.after_active
rounds _ s = 0
