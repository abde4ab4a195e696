-- ===== src/Activity/Finishes.antt =====
-- src/activity.rs: how many `BreakFinished` an `ActivityPoller` has queued.
use rusteyes.Common.{ℕ, ◌+◌, ◌≡◌, refl, ◌∙◌, Option, none, some, List, [], ◌∷◌, ◌++◌, arith}
use rusteyes.Activity.{
  ActivityPoller, queue_event, queue_sample_at, RuntimeEvent, wall_clock_elapsed, break_finished,
  ActivityState, active, idle, state_for, normal_activity_idle_threshold, unobserved_idle_since,
  queue_unobserved, elapsed_event,
}

abbrev pub finish_weight : RuntimeEvent → ℕ
finish_weight break_finished = 1
finish_weight other = 0

-- The number of `BreakFinished` in a list of events.
abbrev pub count_finished : List RuntimeEvent → ℕ
count_finished [] = 0
count_finished (event ∷ events) = finish_weight event + count_finished events

pub count_finished-append :
    (events : List RuntimeEvent) (event : RuntimeEvent)
    → count_finished (events ++ event ∷ []) ≡ count_finished events + finish_weight event
count_finished-append [] event = omega arith
count_finished-append (e ∷ events) event = omega (arith, count_finished-append events event)

pub queue_event-count :
    (event : RuntimeEvent) (p : ActivityPoller)
    → count_finished (queue_event event p).events ≡ count_finished p.events + finish_weight event
unfolding queue_event
queue_event-count event p = count_finished-append p.events event

queue_unobserved-count :
    (unobserved : Option ℕ) (p : ActivityPoller)
    → count_finished (queue_unobserved unobserved p).events ≡ count_finished p.events
unfolding queue_unobserved
queue_unobserved-count none p = refl
queue_unobserved-count (some unseen) p =
    queue_event-count (RuntimeEvent.idle_time_elapsed unseen) p ∙ (omega arith)

elapsed_event-weight :
    (state : ActivityState) (interval : ℕ) → finish_weight (elapsed_event state interval) ≡ 0
unfolding elapsed_event
elapsed_event-weight active interval = refl
elapsed_event-weight idle interval = refl

-- A sample of the activity queues no `BreakFinished`.
pub queue_sample_at-count :
    (idle_for sampled_at : ℕ) (p : ActivityPoller)
    → count_finished (queue_sample_at idle_for sampled_at p).0.events ≡ count_finished p.events
unfolding queue_sample_at
queue_sample_at-count idle_for sampled_at p =
    let state = state_for idle_for normal_activity_idle_threshold in
    let unobserved = unobserved_idle_since p.poll_interval p.last_sampled_at sampled_at in
    let q =
      queue_event (wall_clock_elapsed p.poll_interval)
        (record p { last_sampled_at = some sampled_at }) in
    let r = queue_unobserved unobserved q in
    omega (
      arith,
      queue_event-count (elapsed_event state p.poll_interval) r,
      elapsed_event-weight state p.poll_interval,
      queue_unobserved-count unobserved q,
      queue_event-count (wall_clock_elapsed p.poll_interval)
          (record p { last_sampled_at = some sampled_at }),
    )
