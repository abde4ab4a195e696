-- ===== src/Activity/Account.antt =====
-- src/activity.rs: the time that the events of a poller stand for.
use rusteyes.Common.{
  ℕ, ◌+◌, ◌-◌, ◌≤◌, ◌≡◌, refl, sym, subst, Option, none, some, List, [], ◌∷◌, ◌++◌, arith,
}
use rusteyes.Activity.{
  RuntimeEvent, active_time_elapsed, idle_time_elapsed, wall_clock_elapsed, break_start_failed,
  break_finished, lock_after_current_break, start_manual_break, disable, enable, shutdown,
  ActivityState, active, idle, ActivityPoller, queue_event, queue_unobserved, elapsed_event,
  unobserved_idle_since, state_for, queue_sample_at, queue_samples, normal_activity_idle_threshold,
}

-- The time that queued events account for as active or idle.
abbrev pub observed_time : List RuntimeEvent → ℕ
observed_time [] = 0
observed_time (active_time_elapsed elapsed ∷ events) = elapsed + observed_time events
observed_time (idle_time_elapsed elapsed ∷ events) = elapsed + observed_time events
observed_time (_ ∷ events) = observed_time events

observed_time-append :
    (xs ys : List RuntimeEvent) → observed_time (xs ++ ys) ≡ observed_time xs + observed_time ys
observed_time-append [] ys = omega arith
observed_time-append (active_time_elapsed e ∷ xs) ys = omega (arith, observed_time-append xs ys)
observed_time-append (idle_time_elapsed e ∷ xs) ys = omega (arith, observed_time-append xs ys)
observed_time-append (wall_clock_elapsed e ∷ xs) ys = observed_time-append xs ys
observed_time-append (break_start_failed ∷ xs) ys = observed_time-append xs ys
observed_time-append (break_finished ∷ xs) ys = observed_time-append xs ys
observed_time-append (lock_after_current_break ∷ xs) ys = observed_time-append xs ys
observed_time-append (start_manual_break name ∷ xs) ys = observed_time-append xs ys
observed_time-append (disable request ∷ xs) ys = observed_time-append xs ys
observed_time-append (enable ∷ xs) ys = observed_time-append xs ys
observed_time-append (shutdown ∷ xs) ys = observed_time-append xs ys

queue_event-observed :
    (event : RuntimeEvent) (p : ActivityPoller)
    → observed_time (queue_event event p).events
      ≡ observed_time p.events + observed_time (event ∷ [])
unfolding queue_event
queue_event-observed event p = observed_time-append p.events (event ∷ [])

abbrev or_zero : Option ℕ → ℕ
or_zero none = 0
or_zero (some n) = n

queue_unobserved-observed :
    (unobserved : Option ℕ) (p : ActivityPoller)
    → observed_time (queue_unobserved unobserved p).events
      ≡ observed_time p.events + or_zero unobserved
unfolding queue_unobserved
queue_unobserved-observed none p = omega arith
queue_unobserved-observed (some n) p =
    omega (arith, observed_time-append p.events (idle_time_elapsed n ∷ []))

elapsed_event-observed :
    (state : ActivityState) (poll_interval : ℕ)
    → observed_time (elapsed_event state poll_interval ∷ []) ≡ poll_interval
unfolding elapsed_event
elapsed_event-observed active poll_interval = omega arith
elapsed_event-observed idle poll_interval = omega arith

unobserved_idle_since-observed :
    (poll_interval last sampled_at : ℕ)
    → last + poll_interval ≤ sampled_at
    → or_zero (unobserved_idle_since poll_interval (some last) sampled_at) + poll_interval
      ≡ sampled_at - last
unfolding unobserved_idle_since
unobserved_idle_since-observed poll_interval last sampled_at h = ground arith

-- A sample at least one poll interval after the last one adds active and idle time for all the time
-- since then, whichever state it finds.
queue_sample_at-observed :
    (idle_for sampled_at last : ℕ) (p : ActivityPoller)
    → p.last_sampled_at ≡ some last
    → last + p.poll_interval ≤ sampled_at
    → observed_time (queue_sample_at idle_for sampled_at p).0.events
      ≡ observed_time p.events + (sampled_at - last)
unfolding queue_sample_at
queue_sample_at-observed idle_for sampled_at last p e h =
    let q =
      queue_event (wall_clock_elapsed p.poll_interval)
        (record p { last_sampled_at = some sampled_at }) in
    let u = unobserved_idle_since p.poll_interval (some last) sampled_at in
    let state = state_for idle_for normal_activity_idle_threshold in
    rw e (
      omega (
        arith,
        observed_time-append (queue_unobserved u q).events
            (elapsed_event state p.poll_interval ∷ []),
        queue_unobserved-observed u q,
        queue_event-observed (wall_clock_elapsed p.poll_interval)
            (record p { last_sampled_at = some sampled_at }),
        elapsed_event-observed state p.poll_interval,
        unobserved_idle_since-observed p.poll_interval last sampled_at h,
      ))

-- The samples follow one another at least one poll interval apart.
abbrev pub Spaced : ℕ → ℕ → List (ℕ × ℕ) → Type 0
Spaced poll_interval last [] = Unit {0}
Spaced poll_interval last ((idle_for, sampled_at) ∷ samples) =
    (last + poll_interval ≤ sampled_at) × Spaced poll_interval sampled_at samples

-- The time of the last sample.
abbrev pub last_time : ℕ → List (ℕ × ℕ) → ℕ
last_time last [] = last
last_time last ((idle_for, sampled_at) ∷ samples) = last_time sampled_at samples

queue_sample_at-kept :
    (idle_for sampled_at : ℕ) (p : ActivityPoller)
    → ((queue_sample_at idle_for sampled_at p).0.last_sampled_at ≡ some sampled_at)
      × ((queue_sample_at idle_for sampled_at p).0.poll_interval ≡ p.poll_interval)
unfolding queue_sample_at
queue_sample_at-kept idle_for sampled_at p = ground arith

-- Over a whole session of samples at least one poll interval apart, the queued active and idle time
-- is the time from the sample before the first to the last one: a sleep or a stall loses nothing.
pub queue_samples-observed :
    (samples : List (ℕ × ℕ)) (last : ℕ) (p : ActivityPoller)
    → p.last_sampled_at ≡ some last
    → Spaced p.poll_interval last samples
    → observed_time (queue_samples samples p).events + last
      ≡ observed_time p.events + last_time last samples
unfolding queue_samples
queue_samples-observed [] last p e h = refl
queue_samples-observed ((idle_for, sampled_at) ∷ samples) last p e h =
    let q = (queue_sample_at idle_for sampled_at p).0 in
    let (at_sample, same_interval) = queue_sample_at-kept idle_for sampled_at p in
    omega (
      arith,
      queue_sample_at-observed idle_for sampled_at last p e h.0,
      queue_samples-observed samples sampled_at q at_sample
          (subst (λ interval. Spaced interval sampled_at samples) (sym same_interval) h.1),
      h.0,
    )
