-- ===== src/Macos/Break.antt =====
-- src/macos_helper.rs: `ActiveBreak` and `MacOSLock`. The largest time that the platform's clock can
-- hold is a parameter.
use rusteyes.Common.{ℕ, ◌-◌, min, Bool, true, false, Option, none, some, if◌then◌else◌}
use rusteyes.Activity.{starting_at, remaining_at, is_finished_at}
use rusteyes.Macos.{
  overlay_tick_interval, HelperActivitySample, MacosLock, platform_default, lock_command,
  ObservedTime, DeferredFinish, ActiveBreak, ActiveBreakUpdate,
}

-- `MacOSLock::helper_lock_after`.
unfoldable pub helper_lock_after : MacosLock → Bool → Bool
helper_lock_after platform_default requested = requested
helper_lock_after lock_command requested = false

-- `ActiveBreak::new_at`.
unfoldable pub new_at : (time_max duration : ℕ) → Bool → ObservedTime → ActiveBreak
unfolding starting_at
new_at time_max duration lock_after_break started_at = record {
  deadline = starting_at time_max started_at.wall duration;
  last_observed_at = started_at.monotonic;
  lock_after_break = lock_after_break;
  deferred_finish = none;
}

-- `request_lock_after_break`.
unfoldable pub request_lock_after_break : ActiveBreak → ActiveBreak
request_lock_after_break b = record b { lock_after_break = true }

-- `observe_elapsed_at`: the break and the time since it was last observed.
unfoldable pub observe_elapsed_at : ℕ → ActiveBreak → ActiveBreak × ℕ
observe_elapsed_at observed_at b =
    (record b { last_observed_at = observed_at }, observed_at - b.last_observed_at)

-- `apply_sample`.
unfoldable pub apply_sample :
    HelperActivitySample → ObservedTime → ActiveBreak → ActiveBreak × ActiveBreakUpdate
unfolding request_lock_after_break observe_elapsed_at remaining_at is_finished_at
apply_sample sample observed_at b =
    let asked = if sample.lock_after_break_requested then request_lock_after_break b else b in
    let (observed, elapsed) = observe_elapsed_at observed_at.monotonic asked in
    (
      observed,
      record {
        elapsed = elapsed;
        remaining = remaining_at observed.deadline observed_at.wall;
        lock_after_break = observed.lock_after_break;
        lock_after_break_requested = sample.lock_after_break_requested;
        finished = is_finished_at observed.deadline observed_at.wall;
      },
    )

-- `ActiveBreak::replace`, at the time that it reads.
unfoldable pub replace : (time_max remaining : ℕ) → Bool → ObservedTime → ActiveBreak → ActiveBreak
unfolding starting_at
replace time_max remaining lock_after_break started_at b = record b {
  deadline = starting_at time_max started_at.wall remaining;
  last_observed_at = started_at.monotonic;
  lock_after_break = lock_after_break;
  deferred_finish = none;
}

-- `defer_finish`.
unfoldable pub defer_finish : Bool → ActiveBreak → ActiveBreak
defer_finish lock_after_break b = record b {
  deferred_finish = some (record { lock_after_break = lock_after_break });
}

abbrev is_deferred : Option DeferredFinish → Bool
is_deferred none = false
is_deferred (some finish) = true

-- `has_deferred_finish`.
unfoldable pub has_deferred_finish : ActiveBreak → Bool
has_deferred_finish b = is_deferred b.deferred_finish

-- `next_sample_delay_at`.
unfoldable pub next_sample_delay_at : ActiveBreak → ℕ → ℕ
unfolding has_deferred_finish remaining_at
next_sample_delay_at b now =
    if has_deferred_finish b
    then overlay_tick_interval
    else min overlay_tick_interval (remaining_at b.deadline now)
