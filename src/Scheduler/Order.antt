-- ===== src/Scheduler/Order.antt =====
-- src/scheduler.rs: the order of a schedule's rules, and the search for a rule in it.
use rusteyes.Common.{
  ◌≤◌, ◌≡◌, ◌≢◌, subst, Bool, true, some, List, [], ◌∷◌, All, All-find, All-map, find, arith,
  Bool-cases, inl, inr,
}
use rusteyes.Common.Text.{text_eq_ne, text_eq_refl}
use rusteyes.Scheduler.{BreakRule}
use rusteyes.Scheduler.Rules.{rule}

-- The intervals fall along the list.
abbrev pub IsFalling : List BreakRule → Type 0
IsFalling [] = Unit {0}
IsFalling (r ∷ rules) = All (λ q. q.interval ≤ r.interval) rules × IsFalling rules

-- No two rules have the same name.
abbrev pub IsNamed : List BreakRule → Type 0
IsNamed [] = Unit {0}
IsNamed (r ∷ rules) = All (λ q. r.name ≢ q.name) rules × IsNamed rules

-- The first rule that passes a test has the longest interval of all that do.
pub find-longest :
    (p : BreakRule → Bool) (rules : List BreakRule) {q : BreakRule}
    → IsFalling rules
    → find p rules ≡ some q
    → All (λ r. p r ≡ true → r.interval ≤ q.interval) rules
unfolding find
find-longest p [] falling e = tt
find-longest p (x ∷ rules) {q = q} falling e = elim (Bool-cases (p x)) [
  | inl hit ↦
      let same : x ≡ q = ground arith in
      subst
        (λ y.
          (p x ≡ true → x.interval ≤ y.interval)
          × All (λ r. p r ≡ true → r.interval ≤ y.interval) rules)
        same
        (
          λ _. omega arith,
          All-map (λ r. r.interval ≤ x.interval) (λ r. p r ≡ true → r.interval ≤ x.interval)
              (λ r h _. h) rules falling.0,
        )
  | inr miss ↦ (λ hit. cc, find-longest p rules {q = q} falling.1 (ground arith))
]

-- A rule that some search finds is found by its name.
pub rule-find :
    (p : BreakRule → Bool) (rules : List BreakRule) {q : BreakRule}
    → IsNamed rules
    → find p rules ≡ some q
    → rule rules q.name ≡ some q
unfolding rule
rule-find p [] named e = cc
rule-find p (x ∷ rules) {q = q} named e = elim (Bool-cases (p x)) [
  | inl hit ↦
      let same : x ≡ q = ground arith in
      subst (λ y. rule (x ∷ rules) y.name ≡ some y) same (rw (text_eq_refl x.name))
  | inr miss ↦
      let other : x.name ≢ q.name =
        All-find (λ r. x.name ≢ r.name) p rules {x = q} named.0 (ground arith) in
      rw (text_eq_ne x.name q.name other) (rule-find p rules {q = q} named.1 (ground arith))
]
