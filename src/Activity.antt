-- ===== src/Activity.antt =====
-- src/activity.rs: the activity poller and the deadline of a break, with `RuntimeEvent` of
-- src/backend.rs. An `Instant` or a `SystemTime` is its number of nanoseconds since an origin.
pub mod Account
pub mod Deadline
pub mod Finishes
use rusteyes.Common.{
  ℕ, ◌+◌, ◌-◌, ◌≤◌, ◌<◌, ◌≡◌, refl, Bool, true, false, Option, none, some, List, [], ◌∷◌, ◌++◌, min,
  arith, if◌then◌else◌, leb, ltb, ◌==◌,
}
use rusteyes.Common.Text.{Text}
use rusteyes.Common.Words.{secs}

pub data DisableRequest : Type 0 where
  for : (duration : ℕ) → DisableRequest
  until_restart : DisableRequest

pub data RuntimeEvent : Type 0 where
  active_time_elapsed idle_time_elapsed wall_clock_elapsed : (elapsed : ℕ) → RuntimeEvent
  break_start_failed break_finished lock_after_current_break : RuntimeEvent
  start_manual_break : (name : Text) → RuntimeEvent
  disable : DisableRequest → RuntimeEvent
  enable shutdown : RuntimeEvent

pub data ActivityState : Type 0 where
  active idle : ActivityState

abbrev pub normal_activity_idle_threshold : ℕ
normal_activity_idle_threshold = secs 10

-- `ActivitySample::state_for`.
unfoldable pub state_for : (idle_for idle_threshold : ℕ) → ActivityState
state_for idle_for idle_threshold = if leb idle_for idle_threshold then active else idle

pub record ActivityPoller : Type 0 where
  pub poll_interval : ℕ
  pub last_sampled_at : Option ℕ
  pub events : List RuntimeEvent

-- `ActivityPoller::new`.
unfoldable pub new : ℕ → ActivityPoller
new poll_interval = record { poll_interval = poll_interval; last_sampled_at = none; events = [] }

-- `queue_event`.
unfoldable pub queue_event : RuntimeEvent → ActivityPoller → ActivityPoller
queue_event event p = record p { events = p.events ++ event ∷ [] }

abbrev next_of : List RuntimeEvent → Option RuntimeEvent × List RuntimeEvent
next_of [] = (none, [])
next_of (event ∷ events) = (some event, events)

-- `next_event`.
unfoldable pub next_event : ActivityPoller → ActivityPoller × Option RuntimeEvent
next_event p = (record p { events = (next_of p.events).1 }, (next_of p.events).0)

-- `unobserved_idle_since_last_sample`. `duration_since` fails if the clock went back.
unfoldable pub unobserved_idle_since : ℕ → Option ℕ → ℕ → Option ℕ
unobserved_idle_since poll_interval none sampled_at = none
unobserved_idle_since poll_interval (some last) sampled_at =
    if ltb sampled_at last
    then none
    else if leb (sampled_at - last) poll_interval
    then none
    else some (sampled_at - last - poll_interval)

-- The idle time that no sample has seen is queued, if there is some.
unfoldable pub queue_unobserved : Option ℕ → ActivityPoller → ActivityPoller
unfolding queue_event
queue_unobserved none p = p
queue_unobserved (some unobserved) p = queue_event (idle_time_elapsed unobserved) p

unfoldable pub elapsed_event : ActivityState → ℕ → RuntimeEvent
elapsed_event active poll_interval = active_time_elapsed poll_interval
elapsed_event idle poll_interval = idle_time_elapsed poll_interval

-- `queue_sample_at`.
unfoldable pub queue_sample_at :
    (idle_for sampled_at : ℕ) → ActivityPoller → ActivityPoller × ActivityState
unfolding state_for unobserved_idle_since queue_event queue_unobserved elapsed_event
queue_sample_at idle_for sampled_at p =
    let state = state_for idle_for normal_activity_idle_threshold in
    let unobserved = unobserved_idle_since p.poll_interval p.last_sampled_at sampled_at in
    let q =
      queue_event (wall_clock_elapsed p.poll_interval)
        (record p { last_sampled_at = some sampled_at }) in
    let r = queue_unobserved unobserved q in
    (queue_event (elapsed_event state p.poll_interval) r, state)

-- `queue_sample_at` over the samples of a session, each with its time.
pub queue_samples : List (ℕ × ℕ) → ActivityPoller → ActivityPoller
queue_samples [] p = p
queue_samples ((idle_for, sampled_at) ∷ samples) p =
    queue_samples samples (queue_sample_at idle_for sampled_at p).0

pub record BreakDeadline : Type 0 where
  pub ends_at : ℕ
  pub duration : ℕ

-- `BreakDeadline::starting_at`. The largest time that the platform's clock can hold is a parameter.
unfoldable pub starting_at : (time_max started_at duration : ℕ) → BreakDeadline
starting_at time_max started_at duration = record {
  ends_at = if leb (started_at + duration) time_max then started_at + duration else started_at;
  duration = duration;
}

-- `remaining_at`.
unfoldable pub remaining_at : BreakDeadline → ℕ → ℕ
remaining_at d now = min (d.ends_at - now) d.duration

-- `is_finished_at`.
unfoldable pub is_finished_at : BreakDeadline → ℕ → Bool
unfolding remaining_at
is_finished_at d now = remaining_at d now == 0
