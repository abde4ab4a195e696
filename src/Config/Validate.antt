-- ===== src/Config/Validate.antt =====
-- src/config.rs: the checks of a configuration, `Breaks::validate`, `BreakTypeConfig::validate`,
-- `LockConfig::validate`, `SyncConfig::validate`, `Config::validate` and the helpers that they call.
use rusteyes.Common.{
  ℕ, suc, Bool, true, false, not, ◌||◌, Option, none, some, List, [], ◌∷◌, ltb, ◌==◌, length, any,
}
use rusteyes.Common.Text.{Text, text_eq, trim, is_empty}
use rusteyes.Common.Map.{BTreeMap, word_key, get, insert}
use rusteyes.Common.Result.{Result, ok, err, ◌>>◌, fail_if}
use rusteyes.Config.{
  BreakTypeConfig, Breaks, Config, ConfigError, zero_break_after_active_duration,
  zero_break_reset_after_idle_duration, zero_break_reset_count_after_idle_duration,
  empty_break_types, invalid_break_type_name, zero_break_interval, duplicate_break_interval,
  zero_break_duration, empty_break_messages, empty_break_message, empty_disable_presets,
  zero_disable_preset, duplicate_disable_preset, empty_lock_command, blank_lock_program,
  missing_sync_shared_secret, blank_sync_shared_secret, whitespace_padded_sync_shared_secret,
  short_sync_shared_secret, min_sync_shared_secret_length,
}

abbrev pub Check : Type 0
Check = Result ConfigError (Unit {0})

-- `option.is_some_and(|duration| duration.is_zero())`.
abbrev is_some_zero : Option ℕ → Bool
is_some_zero none = false
is_some_zero (some d) = d == 0

unfoldable pub validate_break_type_name : Text → Check
unfolding is_empty trim text_eq
validate_break_type_name name =
    fail_if (is_empty name || not (text_eq (trim name) name)) (invalid_break_type_name name)

-- The loop over the messages, from `index` on.
unfoldable pub validate_messages : Text → ℕ → List Text → Check
unfolding is_empty trim
validate_messages name index [] = ok tt
validate_messages name index (message ∷ rest) = do
  fail_if (is_empty (trim message)) (empty_break_message name index)
  validate_messages name (suc index) rest

abbrev is_nil {ℓ} : {A : Type ℓ} → List A → Bool
is_nil [] = true
is_nil (x ∷ xs) = false

-- `BreakTypeConfig::validate`.
unfoldable pub validate_break_type : Text → BreakTypeConfig → Check
unfolding validate_messages
validate_break_type name break_type = do
  fail_if (break_type.interval == 0) (zero_break_interval name)
  fail_if (break_type.duration == 0) (zero_break_duration name)
  fail_if (is_nil break_type.messages) (empty_break_messages name)
  validate_messages name 0 break_type.messages

-- `match intervals.entry(..)`: the interval's first owner, if it has one, is an error.
abbrev vacant : ℕ → Text → Option Text → Check
vacant interval name none = ok tt
vacant interval name (some first) = err (duplicate_break_interval interval first name)

-- The loop over the break types; `intervals` holds the intervals met so far.
unfoldable pub validate_types : BTreeMap ℕ Text → BTreeMap Text BreakTypeConfig → Check
unfolding validate_break_type_name validate_break_type get insert
validate_types intervals [] = ok tt
validate_types intervals ((name, break_type) ∷ rest) = do
  validate_break_type_name name
  validate_break_type name break_type
  vacant break_type.interval name (get break_type.interval intervals)
  validate_types (insert break_type.interval name intervals) rest

-- `Breaks::validate`.
unfoldable pub validate_breaks : Breaks → Check
unfolding validate_types
validate_breaks breaks = do
  fail_if (breaks.after_active == 0) zero_break_after_active_duration
  fail_if (is_some_zero breaks.reset_after_idle) zero_break_reset_after_idle_duration
  fail_if (is_some_zero breaks.reset_count_after_idle) zero_break_reset_count_after_idle_duration
  fail_if (is_nil breaks.types) empty_break_types
  validate_types [] breaks.types

-- The loop over the presets; `before` holds the presets at the indices below `index`.
unfoldable pub validate_presets_from : ℕ → List ℕ → List ℕ → Check
unfolding any
validate_presets_from index before [] = ok tt
validate_presets_from index before (preset ∷ rest) = do
  fail_if (preset == 0) (zero_disable_preset index)
  fail_if (any (λ d. d == preset) before) (duplicate_disable_preset preset)
  validate_presets_from (suc index) (preset ∷ before) rest

unfoldable pub validate_disable_presets : List ℕ → Check
unfolding validate_presets_from
validate_disable_presets presets = do
  fail_if (is_nil presets) empty_disable_presets
  validate_presets_from 0 [] presets

-- `LockConfig::validate`.
unfoldable pub validate_lock : Option (List Text) → Check
unfolding is_empty trim
validate_lock none = ok tt
validate_lock (some []) = err empty_lock_command
validate_lock (some (program ∷ arguments)) = fail_if (is_empty (trim program)) blank_lock_program

unfoldable pub validate_sync_shared_secret : Text → Check
unfolding is_empty trim text_eq
validate_sync_shared_secret value = do
  fail_if (is_empty (trim value)) blank_sync_shared_secret
  fail_if (not (text_eq (trim value) value)) whitespace_padded_sync_shared_secret
  fail_if (ltb (length value) min_sync_shared_secret_length)
      (short_sync_shared_secret min_sync_shared_secret_length (length value))

-- `SyncConfig::validate`.
unfoldable pub validate_sync : Bool → Option Text → Check
unfolding validate_sync_shared_secret
validate_sync enabled (some secret) = validate_sync_shared_secret secret
validate_sync enabled none = fail_if enabled missing_sync_shared_secret

-- `Config::validate`.
unfoldable pub validate : Config → Check
unfolding validate_breaks validate_disable_presets validate_lock validate_sync
validate config = do
  validate_breaks config.breaks
  validate_disable_presets config.disable_presets
  validate_lock config.lock.command
  validate_sync config.sync.enabled config.sync.shared_secret
