-- ===== src/Activity/Deadline.antt =====
-- src/activity.rs: the deadline of a break.
use rusteyes.Common.{ℕ, ◌+◌, ◌≤◌, ◌<◌, ◌≡◌, ◌↔◌, true, arith}
use rusteyes.Activity.{starting_at, remaining_at, is_finished_at}

-- While the clock's end is far, a break that was started runs for exactly its duration: it is
-- finished from the time at which it was to end and not before, whatever the order of the readings.
-- The break's duration is positive.
pub is_finished_at_iff :
    (time_max started_at duration now : ℕ)
    → started_at + duration ≤ time_max
    → 0 < duration
    → (is_finished_at (starting_at time_max started_at duration) now ≡ true)
      ↔ (started_at + duration ≤ now)
unfolding is_finished_at starting_at
is_finished_at_iff time_max started_at duration now h positive = ground arith

-- What remains never exceeds the duration, also if the clock goes back, and never grows with time.
pub remaining_at_bounds :
    (time_max started_at duration earlier now : ℕ)
    → earlier ≤ now
    → (let d = starting_at time_max started_at duration in
        (remaining_at d now ≤ duration) × (remaining_at d now ≤ remaining_at d earlier))
unfolding remaining_at starting_at
remaining_at_bounds time_max started_at duration earlier now h = ground arith
