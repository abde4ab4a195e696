-- ===== src/Config.antt =====
-- src/config.rs: the configuration and the reasons to refuse one. A duration is its number of
-- nanoseconds, a string the list of its code points.
pub mod Validate
use rusteyes.Common.{ℕ, ◌*◌, Bool, true, false, Option, none, some, List, [], ◌∷◌}
use rusteyes.Common.Text.{Text, text, text_key, text_eq, text_lt}
use rusteyes.Common.Map.{BTreeMap, insert}
use rusteyes.Common.Words.{secs}

pub record BreakTypeConfig : Type 0 where
  pub interval : ℕ
  pub duration : ℕ
  pub messages : List Text
  pub autolock : Bool

pub record Breaks : Type 0 where
  pub after_active : ℕ
  pub reset_after_idle : Option ℕ
  pub reset_count_after_idle : Option ℕ
  pub types : BTreeMap Text BreakTypeConfig

pub record LockConfig : Type 0 where
  pub command : Option (List Text)

pub record StartupConfig : Type 0 where
  pub open_at_login : Option Bool

pub record SyncConfig : Type 0 where
  pub enabled : Bool
  pub shared_secret : Option Text

pub record Config : Type 0 where
  pub breaks : Breaks
  pub disable_presets : List ℕ
  pub lock : LockConfig
  pub startup : StartupConfig
  pub sync : SyncConfig

pub data ConfigError : Type 0 where
  zero_break_after_active_duration : ConfigError
  zero_break_reset_after_idle_duration : ConfigError
  zero_break_reset_count_after_idle_duration : ConfigError
  empty_break_types : ConfigError
  invalid_break_type_name : (name : Text) → ConfigError
  zero_break_interval : (name : Text) → ConfigError
  duplicate_break_interval : (interval : ℕ) (first_name duplicate_name : Text) → ConfigError
  zero_break_duration : (name : Text) → ConfigError
  empty_break_messages : (name : Text) → ConfigError
  empty_break_message : (name : Text) (index : ℕ) → ConfigError
  empty_disable_presets : ConfigError
  zero_disable_preset : (index : ℕ) → ConfigError
  duplicate_disable_preset : (duration : ℕ) → ConfigError
  empty_lock_command : ConfigError
  blank_lock_program : ConfigError
  missing_sync_shared_secret : ConfigError
  blank_sync_shared_secret : ConfigError
  whitespace_padded_sync_shared_secret : ConfigError
  short_sync_shared_secret : (min_length actual_length : ℕ) → ConfigError

abbrev pub default_break_after_active : ℕ
default_break_after_active = secs 600

abbrev pub default_short_break_interval : ℕ
default_short_break_interval = 1

abbrev pub default_short_break_duration : ℕ
default_short_break_duration = secs 20

abbrev pub default_long_break_interval : ℕ
default_long_break_interval = 2

abbrev pub default_long_break_duration : ℕ
default_long_break_duration = secs 300

abbrev pub default_break_reset_after_idle : ℕ
default_break_reset_after_idle = secs 300

abbrev pub default_break_count_reset_after_idle : ℕ
default_break_count_reset_after_idle = secs 3600

abbrev pub default_disable_presets : List ℕ
default_disable_presets = secs 1800 ∷ secs 3600 ∷ secs 7200 ∷ secs 10800 ∷ []

abbrev pub min_sync_shared_secret_length : ℕ
min_sync_shared_secret_length = 32

abbrev default_short_break : BreakTypeConfig
default_short_break = record {
  interval = default_short_break_interval;
  duration = default_short_break_duration;
  messages = text "Rest your eyes" ∷ [];
  autolock = false;
}

abbrev default_long_break : BreakTypeConfig
default_long_break = record {
  interval = default_long_break_interval;
  duration = default_long_break_duration;
  messages = text "Take a longer break" ∷ [];
  autolock = true;
}

-- `Breaks::default`.
unfoldable pub default_breaks : Breaks
unfolding insert text_eq text_lt
default_breaks = record {
  after_active = default_break_after_active;
  reset_after_idle = some default_break_reset_after_idle;
  reset_count_after_idle = some default_break_count_reset_after_idle;
  types = insert (text "long") default_long_break (insert (text "short") default_short_break []);
}

-- `Config::default`.
unfoldable pub default_config : Config
unfolding default_breaks
default_config = record {
  breaks = default_breaks;
  disable_presets = default_disable_presets;
  lock = record { command = none };
  startup = record { open_at_login = none };
  sync = record { enabled = false; shared_secret = none };
}
