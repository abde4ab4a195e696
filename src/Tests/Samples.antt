-- ===== src/Tests/Samples.antt =====
-- Sample data: the schedule of the default configuration and schedulers that follow it.
use rusteyes.Common.{true, false, some, [], ◌∷◌}
use rusteyes.Common.Text.{text}
use rusteyes.Common.Words.{secs}
use rusteyes.Scheduler.{BreakRule, BreakSchedule, BreakScheduler, ready, active}

abbrev pub long_rule : BreakRule
long_rule = record {
  name = text "long";
  interval = 2;
  duration = secs 300;
  messages = text "Take a longer break" ∷ [];
  autolock = true;
}

abbrev pub short_rule : BreakRule
short_rule = record {
  name = text "short";
  interval = 1;
  duration = secs 20;
  messages = text "Rest your eyes" ∷ [];
  autolock = false;
}

abbrev pub sample_schedule : BreakSchedule
sample_schedule = record {
  after_active = secs 600;
  reset_after_idle = some (secs 300);
  reset_count_after_idle = some (secs 3600);
  rules = long_rule ∷ short_rule ∷ [];
}

-- In the second round, a hundred seconds before the long break.
abbrev pub sample_scheduler : BreakScheduler
sample_scheduler = record {
  schedule = sample_schedule;
  active_elapsed = secs 500;
  slot = 1;
  last_satisfied_slots = (text "long", 0) ∷ (text "short", 1) ∷ [];
  state = ready active;
}

-- The scheduler of a peer that is still in its first round.
abbrev pub other_scheduler : BreakScheduler
other_scheduler = record {
  schedule = sample_schedule;
  active_elapsed = secs 200;
  slot = 0;
  last_satisfied_slots = (text "long", 0) ∷ (text "short", 0) ∷ [];
  state = ready active;
}
