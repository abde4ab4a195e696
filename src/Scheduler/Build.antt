-- ===== src/Scheduler/Build.antt =====
-- src/scheduler.rs: the schedules that `BreakSchedule::try_from` makes.
use rusteyes.Common.{
  ℕ, ◌≤◌, ◌<◌, ◌≡◌, ◌≢◌, sym, List, [], ◌∷◌, All, All-map, arith, Bool-cases, inl, inr, leb, leb→le,
  leb-false,
}
use rusteyes.Common.Text.{Text}
use rusteyes.Common.Map.{BTreeMap, word_key, insert}
use rusteyes.Common.Result.{ok, >>-eq-ok, ok-subst}
use rusteyes.Config.{BreakTypeConfig, Breaks}
use rusteyes.Config.Validate.{validate_breaks, validate_types, validate_break_type}
use rusteyes.Scheduler.{BreakRule, BreakSchedule}
use rusteyes.Scheduler.Rules.{insert_rule, sort_rules, rules_of, try_from}
use rusteyes.Scheduler.Next.{IsPositive}
use rusteyes.Scheduler.Order.{IsFalling, IsNamed}
use rusteyes.Scheduler.Handout.{IsWellFormed}

-- The keys of a map are distinct, which `BTreeMap` makes sure of.
abbrev pub HasDistinctKeys : BTreeMap Text BreakTypeConfig → Type 0
HasDistinctKeys [] = Unit {0}
HasDistinctKeys ((name, break_type) ∷ types) =
    All (λ entry. name ≢ entry.0) types × HasDistinctKeys types

All-insert_rule {κ} :
    (P : BreakRule → Type κ) (r : BreakRule) (rules : List BreakRule)
    → P r
    → All P rules
    → All P (insert_rule r rules)
unfolding insert_rule
All-insert_rule P r [] h hs = (h, tt)
All-insert_rule P r (q ∷ rules) h hs = elim (Bool-cases (leb q.interval r.interval)) [
  | inl front ↦ rw front (h, hs)
  | inr behind ↦ rw behind (hs.0, All-insert_rule P r rules h hs.1)
]

All-sort_rules {κ} :
    (P : BreakRule → Type κ) (rules : List BreakRule) → All P rules → All P (sort_rules rules)
unfolding sort_rules
All-sort_rules P [] h = tt
All-sort_rules P (r ∷ rules) h =
    All-insert_rule P r (sort_rules rules) h.0 (All-sort_rules P rules h.1)

insert_rule-IsFalling :
    (r : BreakRule) (rules : List BreakRule) → IsFalling rules → IsFalling (insert_rule r rules)
unfolding insert_rule
insert_rule-IsFalling r [] f = (tt, tt)
insert_rule-IsFalling r (q ∷ rules) f = elim (Bool-cases (leb q.interval r.interval)) [
  | inl front ↦
      let h = leb→le q.interval r.interval front in
      rw front (
        (
          h,
          All-map (λ p. p.interval ≤ q.interval) (λ p. p.interval ≤ r.interval)
              (λ p le. omega arith) rules f.0,
        ),
        f,
      )
  | inr behind ↦
      let h = leb-false q.interval r.interval behind in
      rw behind (
        All-insert_rule (λ p. p.interval ≤ q.interval) r rules (omega arith) f.0,
        insert_rule-IsFalling r rules f.1,
      )
]

sort_rules-IsFalling : (rules : List BreakRule) → IsFalling (sort_rules rules)
unfolding sort_rules
sort_rules-IsFalling [] = tt
sort_rules-IsFalling (r ∷ rules) =
    insert_rule-IsFalling r (sort_rules rules) (sort_rules-IsFalling rules)

insert_rule-IsNamed :
    (r : BreakRule) (rules : List BreakRule)
    → All (λ q. r.name ≢ q.name) rules
    → IsNamed rules
    → IsNamed (insert_rule r rules)
unfolding insert_rule
insert_rule-IsNamed r [] new named = (tt, tt)
insert_rule-IsNamed r (q ∷ rules) new named = elim (Bool-cases (leb q.interval r.interval)) [
  | inl front ↦ rw front (new, named)
  | inr behind ↦ rw behind (
    All-insert_rule (λ p. q.name ≢ p.name) r rules (λ e. new.0 (sym e)) named.0,
    insert_rule-IsNamed r rules new.1 named.1,
  )
]

sort_rules-IsNamed : (rules : List BreakRule) → IsNamed rules → IsNamed (sort_rules rules)
unfolding sort_rules
sort_rules-IsNamed [] named = tt
sort_rules-IsNamed (r ∷ rules) named =
    insert_rule-IsNamed r (sort_rules rules) (All-sort_rules (λ q. r.name ≢ q.name) rules named.0)
      (sort_rules-IsNamed rules named.1)

All-rules_of {κ} :
    (P : Text → Type κ) (types : BTreeMap Text BreakTypeConfig)
    → All (λ entry. P entry.0) types
    → All (λ r. P r.name) (rules_of types)
unfolding rules_of
All-rules_of P [] h = tt
All-rules_of P ((name, break_type) ∷ types) h = (h.0, All-rules_of P types h.1)

rules_of-IsNamed :
    (types : BTreeMap Text BreakTypeConfig) → HasDistinctKeys types → IsNamed (rules_of types)
unfolding rules_of
rules_of-IsNamed [] h = tt
rules_of-IsNamed ((name, break_type) ∷ types) h =
    (All-rules_of (λ other. name ≢ other) types h.0, rules_of-IsNamed types h.1)

validate_break_type-positive :
    (name : Text) (break_type : BreakTypeConfig)
    → validate_break_type name break_type ≡ ok tt
    → 0 < break_type.interval
unfolding validate_break_type
validate_break_type-positive name break_type e = ground arith

validate_types-IsPositive :
    (intervals : BTreeMap ℕ Text) (types : BTreeMap Text BreakTypeConfig)
    → validate_types intervals types ≡ ok tt
    → IsPositive (rules_of types)
unfolding rules_of validate_types
validate_types-IsPositive intervals [] e = tt
validate_types-IsPositive intervals ((name, break_type) ∷ types) e = ground (
  arith,
  validate_break_type-positive name break_type,
  validate_types-IsPositive (insert break_type.interval name intervals) types,
)

validate_breaks-parts :
    (breaks : Breaks)
    → validate_breaks breaks ≡ ok tt
    → (0 < breaks.after_active) × (validate_types [] breaks.types ≡ ok tt)
unfolding validate_breaks
validate_breaks-parts breaks e = ground arith

-- A schedule that `try_from` makes is well formed: its round is positive, its rules stand by falling
-- interval, no two have one name, and every interval is positive. The break types are a map.
pub try_from-IsWellFormed :
    (breaks : Breaks) (schedule : BreakSchedule)
    → HasDistinctKeys breaks.types
    → try_from breaks ≡ ok schedule
    → IsWellFormed schedule
unfolding try_from
try_from-IsWellFormed breaks schedule distinct e =
    let (valid, made) = >>-eq-ok (validate_breaks breaks) _ e in
    let (round, types) = validate_breaks-parts breaks valid in
    ok-subst IsWellFormed made (record {
      round = round;
      falling = sort_rules-IsFalling (rules_of breaks.types);
      named = sort_rules-IsNamed (rules_of breaks.types) (rules_of-IsNamed breaks.types distinct);
      positive =
          All-sort_rules (λ r. 0 < r.interval) (rules_of breaks.types)
            (validate_types-IsPositive [] breaks.types types);
    })
