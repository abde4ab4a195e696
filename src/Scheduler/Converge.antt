-- ===== src/Scheduler/Converge.antt =====
-- src/scheduler.rs: two peers that tell one another their positions.
use rusteyes.Common.{ℕ, ◌≤◌, ◌≡◌, sym, subst, ap, ◌∙◌, true, false, some, arith, max, ltb_ge}
use rusteyes.Common.Text.{Text, text_key}
use rusteyes.Common.Map.{get}
use rusteyes.Scheduler.{BreakScheduler, SchedulerPosition}
use rusteyes.Scheduler.Satisfy.{has_name}
use rusteyes.Scheduler.Operations.{position}
use rusteyes.Scheduler.Synced.{merge_slot, merge_elapsed, merge_synced_position}
use rusteyes.Scheduler.Merge.{
  merged, merged_elapsed, IsMerged, merge_synced_position-IsMerged, merged_twice,
  merge_satisfied-settled,
}

-- Each rule has an entry, and none lies beyond the slot.
abbrev pub IsTracked : BreakScheduler → Type 0
IsTracked s =
    (name : Text)
    → has_name name s.schedule.rules ≡ true
    → (n : ℕ) × (get name s.last_satisfied_slots ≡ some n) × (n ≤ s.slot)

-- Two schedulers stand at one position.
pub record Agree (a b : BreakScheduler) : Type 0 where
  pub slots : a.slot ≡ b.slot
  pub elapsed : a.active_elapsed ≡ b.active_elapsed
  pub satisfied :
      (name : Text)
      → has_name name a.schedule.rules ≡ true
      → get name a.last_satisfied_slots ≡ get name b.last_satisfied_slots

merged_comm :
    (x y a b : ℕ)
    → x ≤ a
    → y ≤ b
    → merged (max a b) (some y) (some x) ≡ merged (max b a) (some x) (some y)
merged_comm x y a b h k = ap some (omega arith)

merged_elapsed_comm :
    (a b : BreakScheduler) → merged_elapsed (position b) a ≡ merged_elapsed (position a) b
unfolding position
merged_elapsed_comm a b = ground arith

-- Two schedulers of one schedule that each merge the other's position stand at one position, on the
-- condition that each has an entry for every rule, no later than its slot.
pub merge_synced_position-Agree :
    (a b : BreakScheduler)
    → a.schedule ≡ b.schedule
    → IsTracked a
    → IsTracked b
    → Agree (merge_synced_position (position b) a).0 (merge_synced_position (position a) b).0
unfolding position
merge_synced_position-Agree a b same ta tb = record {
  slots = omega (arith, ma.slots, mb.slots);
  elapsed = ma.elapsed ∙ merged_elapsed_comm a b ∙ sym mb.elapsed;
  satisfied = λ name there.
      let in_a : has_name name a.schedule.rules ≡ true =
        subst (λ schedule. has_name name schedule.rules ≡ true) ma.same_schedule there in
      let in_b : has_name name b.schedule.rules ≡ true =
        subst (λ schedule. has_name name schedule.rules ≡ true) same in_a in
      let (x, ex, hx) = ta name in_a in
      let (y, ey, hy) = tb name in_b in
      rw (ma.satisfied name, mb.satisfied name, in_a, in_b, ex, ey)
        (merged_comm x y a.slot b.slot hx hy);
}
  where
    ma : IsMerged (position b) a (merge_synced_position (position b) a).0
    ma = merge_synced_position-IsMerged (position b) a

    mb : IsMerged (position a) b (merge_synced_position (position a) b).0
    mb = merge_synced_position-IsMerged (position a) b

merge_slot-settled :
    (p : SchedulerPosition) (t : BreakScheduler) → p.slot ≤ t.slot → merge_slot p t ≡ (t, false)
unfolding merge_slot
merge_slot-settled p t h = rw (ltb_ge t.slot p.slot h)

merge_elapsed-settled :
    (p : SchedulerPosition) (t : BreakScheduler)
    → (p.slot ≡ t.slot → p.active_elapsed ≤ t.active_elapsed)
    → merge_elapsed p t ≡ (t, false)
unfolding merge_elapsed
merge_elapsed-settled p t h = ground arith

merge_synced_position-settled :
    (p : SchedulerPosition) (t : BreakScheduler)
    → p.slot ≤ t.slot
    → (p.slot ≡ t.slot → p.active_elapsed ≤ t.active_elapsed)
    → ((name : Text)
        → has_name name t.schedule.rules ≡ true
        → merged t.slot (get name p.last_satisfied_slots) (get name t.last_satisfied_slots)
          ≡ get name t.last_satisfied_slots)
    → merge_synced_position p t ≡ (t, false)
unfolding merge_synced_position
merge_synced_position-settled p t slots elapsed entries = rw (
  merge_slot-settled p t slots,
  merge_elapsed-settled p t elapsed,
  merge_satisfied-settled t.slot p.last_satisfied_slots t.schedule.rules t.last_satisfied_slots
      entries,
)

IsMerged-elapsed :
    (p : SchedulerPosition) (s t : BreakScheduler)
    → IsMerged p s t
    → p.slot ≡ t.slot
    → p.active_elapsed ≤ t.active_elapsed
IsMerged-elapsed p s t m e = ground (arith, m.slots, m.elapsed)

IsMerged-entry :
    (p : SchedulerPosition) (s t : BreakScheduler)
    → IsMerged p s t
    → (name : Text) → has_name name t.schedule.rules ≡ true
    → merged t.slot (get name p.last_satisfied_slots) (get name t.last_satisfied_slots)
      ≡ get name t.last_satisfied_slots
IsMerged-entry p s t m name there =
    let there' : has_name name s.schedule.rules ≡ true =
      subst (λ schedule. has_name name schedule.rules ≡ true) m.same_schedule there in
    rw (m.satisfied name, there', m.slots)
      (merged_twice (max s.slot p.slot) (get name p.last_satisfied_slots)
        (get name s.last_satisfied_slots))

-- A position that comes a second time changes nothing, and is not reported as a change.
pub merge_synced_position_twice :
    (p : SchedulerPosition) (s : BreakScheduler)
    → merge_synced_position p (merge_synced_position p s).0 ≡ ((merge_synced_position p s).0, false)
merge_synced_position_twice p s =
    let m = merge_synced_position-IsMerged p s in
    merge_synced_position-settled p _ (omega (arith, m.slots)) (IsMerged-elapsed p s _ m)
      (IsMerged-entry p s _ m)
