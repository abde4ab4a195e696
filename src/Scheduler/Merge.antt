-- ===== src/Scheduler/Merge.antt =====
-- src/scheduler.rs: the position behind `merge_synced_position`.
use rusteyes.Common.{
  ℕ, ◌≡◌, refl, ap, true, false, Option, none, some, List, [], ◌∷◌, arith, Bool-cases, inl, inr,
  if◌then◌else◌, ltb, min, max, ltb_ge,
}
use rusteyes.Common.Text.{Text, text_key, text_eq, text_eq_refl, text_eq_iff}
use rusteyes.Common.Map.{BTreeMap, get, get-insert}
use rusteyes.Scheduler.{BreakRule, BreakScheduler, SchedulerPosition}
use rusteyes.Scheduler.Satisfy.{has_name}
use rusteyes.Scheduler.Synced.{
  merge_slot, merge_elapsed, merge_entry, merge_satisfied, merge_synced_position,
}

-- The entry of a rule after the merge: the later of its own and the peer's, the peer's taken no
-- further than the slot. Without an entry on both sides it stays.
abbrev pub merged : ℕ → Option ℕ → Option ℕ → Option ℕ
merged slot none current = current
merged slot (some theirs) none = none
merged slot (some theirs) (some current) = some (max current (min theirs slot))

get-merge_entry :
    (slot : ℕ) (name j : Text) (theirs current : Option ℕ) (m : BTreeMap Text ℕ)
    → get name m ≡ current
    → get j (merge_entry slot name theirs current m).0
      ≡ (if text_eq j name then merged slot theirs current else get j m)
unfolding merge_entry
get-merge_entry slot name j none current m e = ground (arith, text_eq_iff j name)
get-merge_entry slot name j (some t) none m e = ground (arith, text_eq_iff j name)
get-merge_entry slot name j (some t) (some c) m e =
    ground (arith, text_eq_iff j name, get-insert name j (min t slot) m)

pub merged_twice :
    (slot : ℕ) (theirs current : Option ℕ)
    → merged slot theirs (merged slot theirs current) ≡ merged slot theirs current
merged_twice slot none current = refl
merged_twice slot (some t) none = refl
merged_twice slot (some t) (some c) = ap some (omega arith)

pub get-merge_satisfied :
    (slot : ℕ) (theirs : BTreeMap Text ℕ) (rules : List BreakRule) (m : BTreeMap Text ℕ)
    (name : Text)
    → get name (merge_satisfied slot theirs rules m).0
      ≡ (if has_name name rules then merged slot (get name theirs) (get name m) else get name m)
unfolding merge_satisfied
get-merge_satisfied slot theirs [] m name = refl
get-merge_satisfied slot theirs (r ∷ rules) m name =
    rw
      (
        get-merge_satisfied slot theirs rules
            (merge_entry slot r.name (get r.name theirs) (get r.name m) m).0 name,
        get-merge_entry slot r.name name (get r.name theirs) (get r.name m) m refl,
      )
      (elim (Bool-cases (text_eq name r.name)) [
        | inr other ↦ rw other
        | inl hit ↦
            let same : name ≡ r.name = (text_eq_iff name r.name).0 hit in
            rw (hit, ← same)
              (elim (Bool-cases (has_name name rules)) [
                | inl again ↦ rw (again, merged_twice slot (get name theirs) (get name m))
                | inr missing ↦ rw missing
              ])
      ])

merge_entry-settled :
    (slot : ℕ) (name : Text) (theirs current : Option ℕ) (m : BTreeMap Text ℕ)
    → merged slot theirs current ≡ current
    → merge_entry slot name theirs current m ≡ (m, false)
unfolding merge_entry
merge_entry-settled slot name none current m h = refl
merge_entry-settled slot name (some t) none m h = refl
merge_entry-settled slot name (some t) (some c) m h =
    let kept : max c (min t slot) ≡ c = ground arith in rw (ltb_ge c (min t slot) (omega arith))

-- The loop changes nothing, and says so, if no entry would change.
pub merge_satisfied-settled :
    (slot : ℕ) (theirs : BTreeMap Text ℕ) (rules : List BreakRule) (m : BTreeMap Text ℕ)
    → ((name : Text)
        → has_name name rules ≡ true
        → merged slot (get name theirs) (get name m) ≡ get name m)
    → merge_satisfied slot theirs rules m ≡ (m, false)
unfolding merge_satisfied
merge_satisfied-settled slot theirs [] m h = refl
merge_satisfied-settled slot theirs (r ∷ rules) m h = rw (
  merge_entry-settled slot r.name (get r.name theirs) (get r.name m) m
      (h r.name (rw (text_eq_refl r.name))),
  merge_satisfied-settled slot theirs rules m (λ name there. h name (ground (arith, there))),
)

-- The elapsed active time after the merge: the peer's if its slot is later, the longer at one slot.
abbrev pub merged_elapsed : SchedulerPosition → BreakScheduler → ℕ
merged_elapsed p s =
    if ltb s.slot p.slot
    then p.active_elapsed
    else if ltb p.slot s.slot
    then s.active_elapsed
    else max s.active_elapsed p.active_elapsed

-- What the merge makes of each part of the scheduler.
pub record IsMerged (p : SchedulerPosition) (s t : BreakScheduler) : Type 0 where
  pub slots : t.slot ≡ max s.slot p.slot
  pub elapsed : t.active_elapsed ≡ merged_elapsed p s
  pub satisfied :
      (name : Text)
      → get name t.last_satisfied_slots ≡ (
          if has_name name s.schedule.rules
          then merged
              (max s.slot p.slot)
              (get name p.last_satisfied_slots)
              (get name s.last_satisfied_slots)
          else get name s.last_satisfied_slots)
  pub same_schedule : t.schedule ≡ s.schedule
  pub same_state : t.state ≡ s.state

-- The slot and the elapsed time, after the first two tests of the merge.
merge_head : SchedulerPosition → BreakScheduler → BreakScheduler
unfolding merge_slot merge_elapsed
merge_head p s = (merge_elapsed p (merge_slot p s).0).0

merge_head-IsMerged :
    (p : SchedulerPosition) (s : BreakScheduler)
    → (let t = merge_head p s in
        (t.slot ≡ max s.slot p.slot)
        × (t.active_elapsed ≡ merged_elapsed p s)
        × (t.schedule ≡ s.schedule)
        × (t.last_satisfied_slots ≡ s.last_satisfied_slots)
        × (t.state ≡ s.state))
unfolding merge_head
merge_head-IsMerged p s = ground arith

-- The merge joins the scheduler's position with the peer's, part by part, and touches neither the
-- schedule nor the state.
pub merge_synced_position-IsMerged :
    (p : SchedulerPosition) (s : BreakScheduler) → IsMerged p s (merge_synced_position p s).0
unfolding merge_synced_position merge_head
merge_synced_position-IsMerged p s =
    let (slots, elapsed, same_schedule, same_satisfied, same_state) = merge_head-IsMerged p s in
    record {
      slots = slots;
      elapsed = elapsed;
      satisfied = λ name.
          rw (slots, same_schedule, same_satisfied)
            (get-merge_satisfied (max s.slot p.slot) p.last_satisfied_slots s.schedule.rules
              s.last_satisfied_slots name);
      same_schedule = same_schedule;
      same_state = same_state;
    }
