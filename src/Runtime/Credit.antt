-- ===== src/Runtime/Credit.antt =====
-- src/runtime.rs: active time that several peers report, and idle time, over a session.
use rusteyes.Common.{
  ℕ, ◌+◌, ◌-◌, ◌≤◌, ◌<◌, ◌≡◌, refl, ap, ◌∙◌, true, false, some, List, [], ◌∷◌, if◌then◌else◌, leb,
  ltb, ltb→lt, lt→ltb, ltb_ge, min, arith, Bool-cases, inl, inr,
}
use rusteyes.Common.Words.{duration_max, saturating_add}
use rusteyes.Runtime.Idle.{
  IdleReset, CombinedActivity, default, advance, reached, reset, advance_wall_clock, active_elapsed,
}

abbrev pub total : List ℕ → ℕ
total [] = 0
total (elapsed ∷ reports) = elapsed + total reports

-- The active time that counts of a series of reports.
pub credited : List ℕ → CombinedActivity → ℕ
unfolding active_elapsed
credited [] c = 0
credited (elapsed ∷ reports) c =
    (active_elapsed elapsed c).1 + credited reports (active_elapsed elapsed c).0

credited-budget :
    (reports : List ℕ) (c : CombinedActivity)
    → c.wall_clock_seen ≡ true
    → credited reports c ≡ min (total reports) c.active_budget
unfolding credited active_elapsed
credited-budget [] c seen = omega arith
credited-budget (elapsed ∷ reports) c seen =
    let rest =
      credited-budget reports
        (record {
          active_budget = c.active_budget - min elapsed c.active_budget;
          wall_clock_seen = true;
        })
        refl in
    rw seen (omega (arith, rest))

credited-unseen :
    (reports : List ℕ) (budget : ℕ)
    → credited reports (record { active_budget = budget; wall_clock_seen = false }) ≡ total reports
unfolding credited active_elapsed
credited-unseen [] budget = refl
credited-unseen (elapsed ∷ reports) budget = ap (λ n. elapsed + n) (credited-unseen reports budget)

-- However many peers report active time, and in whatever pieces: before the first tick of the wall
-- clock what counts is what they report together, and after a tick it is that, but no more than the
-- tick.
pub credited-advance_wall_clock :
    (tick : ℕ) (reports : List ℕ) (c : CombinedActivity)
    → (credited reports default ≡ total reports)
      × (credited reports (advance_wall_clock tick c) ≡ min (total reports) tick)
unfolding advance_wall_clock
credited-advance_wall_clock tick reports c =
    (credited-unseen reports 0, credited-budget reports (advance_wall_clock tick c) refl)

-- How often a series of idle reports triggers the reset.
pub triggers : List ℕ → IdleReset → ℕ
unfolding advance
triggers [] i = 0
triggers (elapsed ∷ reports) i =
    let rest = triggers reports (advance elapsed i).0 in
    if (advance elapsed i).1 then 1 + rest else rest

advance-done :
    (elapsed : ℕ) (i : IdleReset) (t : ℕ)
    → i.timeout ≡ some t
    → i.reset_triggered ≡ true
    → advance elapsed i ≡ (i, false)
unfolding advance
advance-done elapsed i t limit done = rw (limit, done) refl

advance-early :
    (elapsed : ℕ) (i : IdleReset) (t : ℕ)
    → i.timeout ≡ some t
    → i.reset_triggered ≡ false
    → i.idle_elapsed + elapsed ≤ duration_max
    → i.idle_elapsed + elapsed < t
    → advance elapsed i ≡ (record i { idle_elapsed = i.idle_elapsed + elapsed }, false)
unfolding advance reached
advance-early elapsed i t limit fresh small early =
    let sum : saturating_add i.idle_elapsed elapsed ≡ i.idle_elapsed + elapsed = omega arith in
    rw (limit, fresh, sum, lt→ltb _ _ early) refl

advance-late :
    (elapsed : ℕ) (i : IdleReset) (t : ℕ)
    → i.timeout ≡ some t
    → i.reset_triggered ≡ false
    → i.idle_elapsed + elapsed ≤ duration_max
    → t ≤ i.idle_elapsed + elapsed
    → advance elapsed i
      ≡ (record i { idle_elapsed = i.idle_elapsed + elapsed; reset_triggered = true }, true)
unfolding advance reached
advance-late elapsed i t limit fresh small late =
    let sum : saturating_add i.idle_elapsed elapsed ≡ i.idle_elapsed + elapsed = omega arith in
    rw (limit, fresh, sum, ltb_ge _ _ late) refl

triggers-done :
    (reports : List ℕ) (i : IdleReset) (t : ℕ)
    → i.timeout ≡ some t
    → i.reset_triggered ≡ true
    → triggers reports i ≡ 0
unfolding triggers advance
triggers-done [] i t limit done = refl
triggers-done (elapsed ∷ reports) i t limit done =
    rw (advance-done elapsed i t limit done) (triggers-done reports i t limit done)

triggers-from :
    (reports : List ℕ) (i : IdleReset) (t : ℕ)
    → i.timeout ≡ some t
    → i.reset_triggered ≡ false
    → i.idle_elapsed < t
    → i.idle_elapsed + total reports ≤ duration_max
    → triggers reports i ≡ (if leb t (i.idle_elapsed + total reports) then 1 else 0)
unfolding triggers advance reached
triggers-from [] i t limit fresh early small = ground arith
triggers-from (elapsed ∷ reports) i t limit fresh early small =
    elim (Bool-cases (ltb (i.idle_elapsed + elapsed) t)) [
      | inl before ↦ rw (advance-early elapsed i t limit fresh (omega arith) (ltb→lt _ _ before)) (
          triggers-from reports (record i { idle_elapsed = i.idle_elapsed + elapsed }) t limit fresh
            (ltb→lt _ _ before) (omega arith)
          ∙ ground arith)
      | inr after ↦ rw (advance-late elapsed i t limit fresh (omega arith) (ground arith)) (
          ground (
            arith,
            triggers-done reports
                (record i { idle_elapsed = i.idle_elapsed + elapsed; reset_triggered = true }) t
                limit refl,
          ))
    ]

-- From a reset on, idle reports trigger once if they reach the timeout together, and else never,
-- while their sum does not reach the largest duration. The timeout is positive.
pub triggers-reset :
    (reports : List ℕ) (i : IdleReset) (t : ℕ)
    → i.timeout ≡ some t
    → 0 < t
    → total reports ≤ duration_max
    → triggers reports (reset i) ≡ (if leb t (total reports) then 1 else 0)
unfolding reset
triggers-reset reports i t limit positive small =
    triggers-from reports (reset i) t limit refl positive (omega arith)
    ∙ ap (λ n. if leb t n then 1 else 0) (omega arith)
