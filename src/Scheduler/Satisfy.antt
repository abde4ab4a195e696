-- ===== src/Scheduler/Satisfy.antt =====
-- src/scheduler.rs: what `satisfy_scheduled_breaks` and `satisfy_manual_breaks` record.
use rusteyes.Common.{
  ℕ, ◌≤◌, ◌<◌, ◌≡◌, refl, Bool, true, false, ◌&&◌, ◌||◌, some, List, [], ◌∷◌, All, All-map, All-zip,
  find, filter, arith, Bool-cases, inl, inr, if◌then◌else◌, leb, le→leb, leb_gt,
}
use rusteyes.Common.Text.{Text, text_key, text_eq, text_eq_refl}
use rusteyes.Common.Map.{BTreeMap, get, insert, get-insert}
use rusteyes.Scheduler.{BreakRule}
use rusteyes.Scheduler.Due.{last_satisfied_slot, rule_due_at}
use rusteyes.Scheduler.Next.{IsPositive}
use rusteyes.Scheduler.Order.{IsFalling, IsNamed, find-longest, rule-find}
use rusteyes.Scheduler.Operations.{insert_all, satisfy_scheduled_breaks}

-- Some rule of the list has the name.
abbrev pub has_name : Text → List BreakRule → Bool
has_name name [] = false
has_name name (r ∷ rules) = text_eq name r.name || has_name name rules

pub get-insert_all :
    (slot : ℕ) (name : Text) (rules : List BreakRule) (m : BTreeMap Text ℕ)
    → get name (insert_all slot rules m) ≡ (if has_name name rules then some slot else get name m)
unfolding insert_all
get-insert_all slot name [] m = refl
get-insert_all slot name (r ∷ rules) m =
    ground
      (arith, get-insert_all slot name rules (insert r.name slot m), get-insert r.name name slot m)

-- The rules that pass the filter are named in what it keeps.
pub has_name-filter :
    (p : BreakRule → Bool) (rules : List BreakRule)
    → All (λ r. p r ≡ true → has_name r.name (filter p rules) ≡ true) rules
unfolding filter
has_name-filter p [] = tt
has_name-filter p (x ∷ rules) = (
  λ hit. rw (hit, text_eq_refl x.name),
  All-map (λ r. p r ≡ true → has_name r.name (filter p rules) ≡ true)
      (λ r. p r ≡ true → has_name r.name (filter p (x ∷ rules)) ≡ true)
      (λ r h hit. ground (arith, h hit)) rules (has_name-filter p rules),
)

-- A rule of positive interval is not due at the slot at which it was satisfied.
not_due_at_satisfied :
    (satisfied : BTreeMap Text ℕ) (slot : ℕ) (r : BreakRule)
    → 0 < r.interval
    → get r.name satisfied ≡ some slot
    → rule_due_at satisfied slot r ≡ false
unfolding rule_due_at last_satisfied_slot
not_due_at_satisfied satisfied slot r positive e = rw e (leb_gt _ _ (omega arith))

module _ (satisfied : BTreeMap Text ℕ) (slot : ℕ) where
  -- A rule that was not due stays so, whichever names are satisfied.
  not_due-insert_all :
      (rules : List BreakRule) (r : BreakRule)
      → 0 < r.interval
      → rule_due_at satisfied slot r ≡ false
      → rule_due_at (insert_all slot rules satisfied) slot r ≡ false
  unfolding rule_due_at last_satisfied_slot
  not_due-insert_all rules r positive h = elim (Bool-cases (has_name r.name rules)) [
    | inl there ↦
        unfold rule_due_at last_satisfied_slot in
        rw (get-insert_all slot r.name rules satisfied, there) (leb_gt _ _ (omega arith))
    | inr missing ↦
        unfold rule_due_at last_satisfied_slot in
        rw (get-insert_all slot r.name rules satisfied, missing) h
  ]

  -- The rules that a break of interval `bound` satisfies at the slot.
  abbrev covered : ℕ → BreakRule → Bool
  covered bound r = leb r.interval bound && rule_due_at satisfied slot r

  covered-clears :
      (rules : List BreakRule) (bound : ℕ) (r : BreakRule)
      → 0 < r.interval
      → (rule_due_at satisfied slot r ≡ true → r.interval ≤ bound)
      → (covered bound r ≡ true → has_name r.name (filter (covered bound) rules) ≡ true)
      → rule_due_at (insert_all slot (filter (covered bound) rules) satisfied) slot r ≡ false
  covered-clears rules bound r positive short there =
      elim (Bool-cases (rule_due_at satisfied slot r)) [
        | inr miss ↦ not_due-insert_all (filter (covered bound) rules) r positive miss
        | inl due ↦
            let named = there (rw (due, le→leb r.interval bound (short due))) in
            not_due_at_satisfied _ slot r positive
              (rw (get-insert_all slot r.name (filter (covered bound) rules) satisfied, named))
      ]

  -- The first rule that is due is the one of the longest interval, so satisfying it satisfies all.
  pub satisfy_scheduled_breaks-clears :
      (rules : List BreakRule) {q : BreakRule}
      → IsFalling rules
      → IsNamed rules
      → IsPositive rules
      → find (rule_due_at satisfied slot) rules ≡ some q
      → All
          (λ r. rule_due_at (satisfy_scheduled_breaks rules slot q.name satisfied) slot r ≡ false)
          rules
  unfolding satisfy_scheduled_breaks
  satisfy_scheduled_breaks-clears rules {q = q} falling named positive e =
      rw (rule-find (rule_due_at satisfied slot) rules named e, satisfy_scheduled_breaks)
        (All-map _ _ (λ r h. covered-clears rules q.interval r h.0 h.1.0 h.1.1) rules
          (All-zip _ _ rules positive (
            All-zip _ _ rules (find-longest (rule_due_at satisfied slot) rules falling e)
              (has_name-filter (covered q.interval) rules))))
