-- ===== src/Scheduler/Entries.antt =====
-- src/scheduler.rs: the entries of the rules under what an operation records.
use rusteyes.Common.{
  ℕ, ◌≤◌, ◌≡◌, refl, true, ◌&&◌, some, List, [], ◌∷◌, arith, Bool-cases, Option-cases, inl, inr,
  if◌then◌else◌, leb, filter,
}
use rusteyes.Common.Text.{Text, text_key}
use rusteyes.Common.Map.{BTreeMap, get, insert, get-insert}
use rusteyes.Scheduler.{BreakRule}
use rusteyes.Scheduler.Due.{rule_due_at}
use rusteyes.Scheduler.Rules.{collect_zero, rule}
use rusteyes.Scheduler.Satisfy.{has_name, get-insert_all}
use rusteyes.Scheduler.Operations.{
  insert_all, satisfy_scheduled_breaks, satisfy_manual_breaks, zero_values,
}

-- `IsTracked` is a statement about the rules, the slot and the entries.
abbrev pub Tracks : List BreakRule → ℕ → BTreeMap Text ℕ → Type 0
Tracks rules slot m =
    (name : Text) → has_name name rules ≡ true → (n : ℕ) × (get name m ≡ some n) × (n ≤ slot)

pub Tracks-later :
    (rules : List BreakRule) (slot later : ℕ) (m : BTreeMap Text ℕ)
    → slot ≤ later
    → Tracks rules slot m
    → Tracks rules later m
Tracks-later rules slot later m h t name there =
    let (n, e, le) = t name there in (n, e, omega arith)

pub Tracks-insert_all :
    (rules named : List BreakRule) (slot : ℕ) (m : BTreeMap Text ℕ)
    → Tracks rules slot m
    → Tracks rules slot (insert_all slot named m)
Tracks-insert_all rules named slot m t name there = elim (Bool-cases (has_name name named)) [
  | inl hit ↦ (slot, rw (get-insert_all slot name named m, hit), omega arith)
  | inr miss ↦
      let (n, e, le) = t name there in (n, rw (get-insert_all slot name named m, miss) e, le)
]

pub Tracks-satisfy_scheduled :
    (rules : List BreakRule) (slot : ℕ) (selected : Text) (m : BTreeMap Text ℕ)
    → Tracks rules slot m
    → Tracks rules slot (satisfy_scheduled_breaks rules slot selected m)
unfolding satisfy_scheduled_breaks
Tracks-satisfy_scheduled rules slot selected m t = elim (Option-cases (rule rules selected)) [
  | inl missing ↦ rw (missing, satisfy_scheduled_breaks) t
  | inr (q, found) ↦
      rw (found, satisfy_scheduled_breaks)
        (Tracks-insert_all rules
          (filter (λ r. leb r.interval q.interval && rule_due_at m slot r) rules) slot m t)
]

pub Tracks-satisfy_manual :
    (rules : List BreakRule) (slot interval : ℕ) (m : BTreeMap Text ℕ)
    → Tracks rules slot m
    → Tracks rules slot (satisfy_manual_breaks rules slot interval m)
unfolding satisfy_manual_breaks
Tracks-satisfy_manual rules slot interval m t =
    Tracks-insert_all rules (filter (λ r. leb r.interval interval) rules) slot m t

pub get-zero_values :
    (name : Text) (m : BTreeMap Text ℕ) {n : ℕ}
    → get name m ≡ some n
    → get name (zero_values m) ≡ some 0
unfolding get zero_values
get-zero_values name [] e = cc
get-zero_values name ((j, w) ∷ m) {n = n} e = ground (arith, get-zero_values name m {n = n})

pub get-collect_zero :
    (name : Text) (rules : List BreakRule) (m : BTreeMap Text ℕ)
    → get name (collect_zero m rules) ≡ (if has_name name rules then some 0 else get name m)
unfolding collect_zero
get-collect_zero name [] m = refl
get-collect_zero name (r ∷ rules) m =
    ground (arith, get-collect_zero name rules (insert r.name 0 m), get-insert r.name name 0 m)
