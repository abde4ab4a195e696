-- ===== src/Scheduler/Rules.antt =====
-- src/scheduler.rs: `BreakRule`, and a `BreakSchedule` built from the configuration.
use rusteyes.Common.{
  ℕ, ◌%◌, Option, none, some, List, [], ◌∷◌, if◌then◌else◌, leb, ◌==◌, length, get_elem?, find,
}
use rusteyes.Common.Text.{Text, text, text_key, text_eq, text_lt}
use rusteyes.Common.Map.{BTreeMap, insert}
use rusteyes.Common.Result.{Result, ok, ◌>>◌}
use rusteyes.Config.{BreakTypeConfig, Breaks, ConfigError}
use rusteyes.Config.Validate.{validate_breaks}
use rusteyes.Scheduler.{
  BreakRule, BreakSchedule, BreakScheduler, ready, active, BreakOrigin, ScheduledBreak, Draw,
}

abbrev pub default_break_message : Text
default_break_message = text "Take a break"

-- `BreakSchedule::rule`.
unfoldable pub rule : List BreakRule → Text → Option BreakRule
unfolding find text_eq
rule rules name = find (λ r. text_eq r.name name) rules

-- `BreakRule::from_config`.
unfoldable pub from_config : Text → BreakTypeConfig → BreakRule
from_config name break_type = record {
  name = name;
  interval = break_type.interval;
  duration = break_type.duration;
  messages = break_type.messages;
  autolock = break_type.autolock;
}

abbrev or_default : Option Text → Text
or_default none = default_break_message
or_default (some message) = message

-- `self.messages[index % len]`, with the default for an empty list. The index is in range.
unfoldable pub message_at : List Text → ℕ → Text
message_at messages index =
    if length messages == 0
    then default_break_message
    else or_default (get_elem? messages (index % length messages))

-- `BreakRule::random_message`: index 0 if the system random source fails.
unfoldable pub random_message : Draw → List Text → Text
unfolding message_at
random_message none messages = message_at messages 0
random_message (some index) messages = message_at messages index

-- `BreakRule::to_break`.
unfoldable pub to_break : Draw → BreakRule → BreakOrigin → ScheduledBreak
to_break draw r origin = record {
  name = r.name;
  origin = origin;
  duration = r.duration;
  message = random_message draw r.messages;
  autolock = r.autolock;
}

-- One step of the stable sort by falling interval: `r`, which stood first, goes in front of the
-- first rule whose interval is no longer.
unfoldable pub insert_rule : BreakRule → List BreakRule → List BreakRule
insert_rule r [] = r ∷ []
insert_rule r (q ∷ rules) =
    let rest = insert_rule r rules in if leb q.interval r.interval then r ∷ q ∷ rules else q ∷ rest

-- `rules.sort_by_key(|rule| Reverse(rule.interval))`; equal intervals keep their order.
unfoldable pub sort_rules : List BreakRule → List BreakRule
unfolding insert_rule
sort_rules [] = []
sort_rules (r ∷ rules) = insert_rule r (sort_rules rules)

-- `types.into_iter().map(from_config).collect()`.
unfoldable pub rules_of : BTreeMap Text BreakTypeConfig → List BreakRule
unfolding from_config
rules_of [] = []
rules_of ((name, break_type) ∷ types) = from_config name break_type ∷ rules_of types

-- `BreakSchedule::try_from`.
unfoldable pub try_from : Breaks → Result ConfigError BreakSchedule
unfolding rules_of sort_rules
try_from breaks = do
  validate_breaks breaks
  ok (record {
    after_active = breaks.after_active;
    reset_after_idle = breaks.reset_after_idle;
    reset_count_after_idle = breaks.reset_count_after_idle;
    rules = sort_rules (rules_of breaks.types);
  })

-- `collect()` of the names at slot 0 into a map that holds `m` so far.
unfoldable pub collect_zero : BTreeMap Text ℕ → List BreakRule → BTreeMap Text ℕ
unfolding insert text_eq text_lt
collect_zero m [] = m
collect_zero m (r ∷ rules) = collect_zero (insert r.name 0 m) rules

-- `BreakSchedule::initial_last_satisfied_slots`.
unfoldable pub initial_last_satisfied_slots : List BreakRule → BTreeMap Text ℕ
unfolding collect_zero
initial_last_satisfied_slots rules = collect_zero [] rules

-- `BreakScheduler::new`.
unfoldable pub new : BreakSchedule → BreakScheduler
unfolding initial_last_satisfied_slots
new schedule = record {
  schedule = schedule;
  active_elapsed = 0;
  slot = 0;
  last_satisfied_slots = initial_last_satisfied_slots schedule.rules;
  state = ready active;
}
