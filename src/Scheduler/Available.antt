-- ===== src/Scheduler/Available.antt =====
-- src/scheduler.rs: the two answers to which breaks can be started by hand, and what the call does.
use rusteyes.Common.{
  ℕ, ◌≡◌, ◌≢◌, refl, sym, subst, ap, Bool, Option, none, some, List, [], ◌∷◌, All, arith,
  Bool-cases, Option-cases, inl, inr,
}
use mathlib.Core.Option
use rusteyes.Common.Text.{Text, text_key, text_eq, text_eq_iff, text_eq_ne}
use rusteyes.Common.Map.{BTreeMap, get, insert, get-insert}
use rusteyes.Scheduler.{BreakRule, BreakScheduler, Draw}
use rusteyes.Scheduler.Due.{
  upcoming_interval, collect_available, is_none_or_le, manual_break_availability,
  manual_break_is_available,
}
use rusteyes.Scheduler.Rules.{rule}
use rusteyes.Scheduler.Order.{IsNamed}

-- No rule has a name that differs from all.
rule-none :
    (name : Text) (rules : List BreakRule) → All (λ r. name ≢ r.name) rules → rule rules name ≡ none
unfolding rule
rule-none name [] h = refl
rule-none name (r ∷ rules) h =
    rw (text_eq_ne r.name name (λ e. h.0 (sym e))) (rule-none name rules h.1)

abbrev available_or : Option ℕ → Option BreakRule → Option Bool → Option Bool
available_or next none other = other
available_or next (some r) other = some (is_none_or_le next r.interval)

get-collect_available :
    (next : Option ℕ) (m : BTreeMap Text Bool) (rules : List BreakRule) (name : Text)
    → IsNamed rules
    → get name (collect_available next m rules) ≡ available_or next (rule rules name) (get name m)
unfolding collect_available rule
get-collect_available next m [] name named = unfold rule in refl
get-collect_available next m (r ∷ rules) name named = elim (Bool-cases (text_eq r.name name)) [
  | inl hit ↦
      let same : r.name ≡ name = (text_eq_iff r.name name).0 hit in
      let last : rule rules name ≡ none =
        rule-none name rules (subst (λ n. All (λ q. n ≢ q.name) rules) same named.0) in
      rw (
        get-collect_available next (insert r.name (is_none_or_le next r.interval) m) rules name
            named.1,
        last,
        hit,
        get-insert r.name name (is_none_or_le next r.interval) m,
        (text_eq_iff name r.name).1 (sym same),
      )
  | inr miss ↦
      let other : name ≢ r.name = λ e. ground (arith, text_eq_iff r.name name) in
      rw (
        get-collect_available next (insert r.name (is_none_or_le next r.interval) m) rules name
            named.1,
        miss,
        get-insert r.name name (is_none_or_le next r.interval) m,
        text_eq_ne name r.name other,
      )
]

-- The answer for a rule, from the rule.
is_available-rule :
    (draw : Draw) (s : BreakScheduler) (name : Text) (r : BreakRule)
    → rule s.schedule.rules name ≡ some r
    → manual_break_is_available draw s name ≡ is_none_or_le (upcoming_interval draw s) r.interval
unfolding manual_break_is_available upcoming_interval
is_available-rule draw s name r e = ground arith

-- The availability that the menu is given is the one by which a manual break is started: the map
-- holds each rule's name with that answer, and no other name. The rules' names are distinct.
pub manual_break_availability-agrees :
    (draw : Draw) (s : BreakScheduler) (name : Text)
    → IsNamed s.schedule.rules
    → get name (manual_break_availability draw s)
      ≡ Option.map (λ _. manual_break_is_available draw s name) (rule s.schedule.rules name)
unfolding manual_break_availability get
manual_break_availability-agrees draw s name named =
    let e = get-collect_available (upcoming_interval draw s) [] s.schedule.rules name named in
    elim (Option-cases (rule s.schedule.rules name)) [
      | inl missing ↦ rw (e, missing) refl
      | inr (r, found) ↦ rw (e, found) (ap some (sym (is_available-rule draw s name r found)))
    ]
