-- ===== src/Tests/Backends.antt =====
-- The theorems on the two backends at concrete runs.
use rusteyes.Common.{ℕ, ◌+◌, ◌≡◌, ◌≤◌, refl, true, false, none, some, List, [], ◌∷◌, ◌++◌, arith}
use rusteyes.Common.Text.{text}
use rusteyes.Common.Words.{secs}
use rusteyes.Common.Result.{ok, err}
use rusteyes.Activity.{ActivityPoller, is_finished_at, break_start_failed}
use rusteyes.Activity.Finishes.{count_finished}
use rusteyes.Scheduler.{ScheduledBreak, BreakOrigin}
use rusteyes.Runtime.{start_break, finish_break}
use rusteyes.X11
use rusteyes.X11.{Display, X11ActivityBackend}
use rusteyes.X11.Backend.{sample_once}
use rusteyes.X11.Commands.{command, timeout, run_actor, handle_command}
use rusteyes.X11.Exclusive.{IsCleared, handle_command-IsCleared}
use rusteyes.X11.Running.{StillExclusive, run_actor-StillExclusive}
use rusteyes.X11.Retry.{run_samples, ticks, run_samples-gives_up}
use rusteyes.X11.Finish.{reported, run_samples-finished_once, sample_once-finishes}
use rusteyes.Macos
use rusteyes.Macos.{
  Helper, HelperActivitySample, HelperCall, send_command, lock_command, MacosHelperCore,
}
use rusteyes.Macos.Break.{has_deferred_finish}
use rusteyes.Macos.Core.{finish_active_break, apply_overlay_sample}
use rusteyes.Macos.Locked.{apply_samples, apply_samples-passed}
use rusteyes.Macos.Handoff.{handoffs, finish_active_break-handoffs, apply_overlay_sample-locked}

abbrev sample_break : ScheduledBreak
sample_break = record {
  name = text "short";
  origin = BreakOrigin.scheduled 1;
  duration = secs 20;
  message = text "Look away";
  autolock = false;
}

abbrev idle_poller : ActivityPoller
idle_poller = record { poll_interval = secs 1; last_sampled_at = none; events = [] }

-- A display where another program holds the input.
abbrev refusing : Display
refusing = record {
  idle = λ calls. ok 0;
  lock_requested = λ calls. ok false;
  overlay = λ calls call.
      err (record { message = text "already grabbed"; is_retryable_grab_failure = true });
  lock = λ calls. ok tt;
}

-- A display where every call works.
abbrev working : Display
working = record {
  idle = λ calls. ok 0;
  lock_requested = λ calls. ok false;
  overlay = λ calls call. ok tt;
  lock = λ calls. ok tt;
}

abbrev now_of : ℕ → X11.ObservedTime
now_of n = record { wall = secs n; monotonic = secs n }

abbrev pending_backend : X11ActivityBackend
pending_backend = record {
  poller = idle_poller;
  active_break = none;
  pending_break = some (record { scheduled_break = sample_break; waited = 0 });
  calls = [];
}

abbrev twenty : List X11.ObservedTime
twenty =
    now_of 1
    ∷ now_of 1
    ∷ now_of 2
    ∷ now_of 2
    ∷ now_of 3
    ∷ now_of 3
    ∷ now_of 4
    ∷ now_of 4
    ∷ now_of 5
    ∷ now_of 5
    ∷ now_of 6
    ∷ now_of 6
    ∷ now_of 7
    ∷ now_of 7
    ∷ now_of 8
    ∷ now_of 8
    ∷ now_of 9
    ∷ now_of 9
    ∷ now_of 10
    ∷ now_of 10
    ∷ []

run_samples-gives_up_example :
    (let y = run_samples refusing (secs 1000) twenty pending_backend in
      IsCleared y × (y.poller.events ≡ [] ++ (ticks 20 ++ break_start_failed ∷ [])))
run_samples-gives_up_example =
    run_samples-gives_up refusing (secs 1000) twenty pending_backend
      (λ calls call.
        (record { message = text "already grabbed"; is_retryable_grab_failure = true }, refl, refl))
      (record { scheduled_break = sample_break; waited = 0 }, refl, refl, omega arith) refl

run_actor-StillExclusive_example :
    StillExclusive refusing
      (secs 1000)
      (run_actor refusing
        (secs 1000)
        (command (start_break sample_break) (now_of 1) ∷ timeout (now_of 2) ∷ [])
        []
        pending_backend).1
run_actor-StillExclusive_example =
    run_actor-StillExclusive refusing (secs 1000)
      (command (start_break sample_break) (now_of 1) ∷ timeout (now_of 2) ∷ []) [] pending_backend
      tt

handle_command-IsCleared_example :
    IsCleared (handle_command working (secs 1000) (finish_break true) (now_of 1) pending_backend)
handle_command-IsCleared_example =
    handle_command-IsCleared working (secs 1000) (finish_break true) (now_of 1) pending_backend tt

abbrev shown_break : X11.ActiveBreak
shown_break = record {
  deadline = record { ends_at = secs 20; duration = secs 20 };
  last_observed_at = secs 19;
  finish_reported = false;
}

abbrev active_backend : X11ActivityBackend
active_backend = record {
  poller = idle_poller;
  active_break = some shown_break;
  pending_break = none;
  calls = [];
}

run_samples-finished_once_example :
    count_finished
        (run_samples working (secs 1000) (now_of 20 ∷ now_of 21 ∷ []) active_backend).poller.events
      + reported (some shown_break)
    ≤ 0 + 1
run_samples-finished_once_example =
    run_samples-finished_once working (secs 1000) (now_of 20 ∷ now_of 21 ∷ []) active_backend

shown_due : is_finished_at (record { ends_at = secs 20; duration = secs 20 }) (secs 20) ≡ true
unfolding is_finished_at
shown_due = refl

sample_once-finishes_example :
    (let y = (sample_once working (secs 1000) (now_of 20) active_backend).0 in
      (count_finished y.poller.events ≡ 0 + 1) × (reported y.active_break ≡ 1))
sample_once-finishes_example =
    sample_once-finishes working (secs 1000) (now_of 20) active_backend shown_break
      (λ calls. (false, refl), λ calls call. refl) refl refl shown_due

abbrev helper : Helper
helper = record {
  activity = λ calls.
      ok (record { idle_for = 0; session_locked = false; lock_after_break_requested = false });
  answer = λ calls call. ok tt;
}

abbrev mac_now : ℕ → Macos.ObservedTime
mac_now n = record { wall = secs n; monotonic = secs n }

-- A break whose end is not put off yet.
abbrev ending_break : Macos.ActiveBreak
ending_break = record {
  deadline = record { ends_at = secs 20; duration = secs 20 };
  last_observed_at = secs 19;
  lock_after_break = true;
  deferred_finish = none;
}

abbrev ending_core : MacosHelperCore
ending_core = record {
  poller = idle_poller;
  active_break = some ending_break;
  lock = lock_command;
  calls = [];
}

abbrev locked_sample : HelperActivitySample
locked_sample = record { idle_for = 0; session_locked = true; lock_after_break_requested = false }

abbrev unlocked_sample : HelperActivitySample
unlocked_sample = record {
  idle_for = 0;
  session_locked = false;
  lock_after_break_requested = false;
}

is_running : has_deferred_finish ending_break ≡ false
unfolding has_deferred_finish
is_running = refl

has_passed : is_finished_at ending_break.deadline (secs 20) ≡ true
unfolding is_finished_at
has_passed = refl

-- The deadline passes while the session is locked, with a lock asked for.
apply_samples-passed_example :
    (let y =
        apply_samples helper
          ((locked_sample, mac_now 20) ∷ ((locked_sample, mac_now 21) ∷ [])
            ++ (unlocked_sample, mac_now 22) ∷ (unlocked_sample, mac_now 23) ∷ [])
          ending_core in
      (y.active_break ≡ none)
      × (y.calls ≡ send_command (finish_break false) ∷ [])
      × (count_finished y.poller.events ≡ 0 + 1))
apply_samples-passed_example =
    apply_samples-passed helper locked_sample (mac_now 20) ((locked_sample, mac_now 21) ∷ [])
      ((unlocked_sample, mac_now 23) ∷ []) unlocked_sample (mac_now 22) ending_core ending_break
      refl is_running has_passed refl (refl, tt) refl refl

finish_active_break-handoffs_example :
    (let y = (finish_active_break helper true ending_core).0 in
      (handoffs y.calls ≡ 0 + 1) × (y.active_break ≡ none))
finish_active_break-handoffs_example =
    finish_active_break-handoffs helper ending_break true ending_core refl (λ calls c. refl)

apply_overlay_sample-locked_example :
    count_finished
      (apply_overlay_sample helper locked_sample (mac_now 30) ending_core).0.poller.events
    ≡ 0
apply_overlay_sample-locked_example =
    apply_overlay_sample-locked helper locked_sample (mac_now 30) ending_core refl
