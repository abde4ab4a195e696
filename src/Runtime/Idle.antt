-- ===== src/Runtime/Idle.antt =====
-- src/runtime.rs: `IdleReset` and `CombinedActivity`.
use rusteyes.Common.{ℕ, ◌-◌, Bool, true, false, Option, none, some, if◌then◌else◌, ltb, min}
use rusteyes.Common.Words.{saturating_add}

pub record IdleReset : Type 0 where
  pub timeout : Option ℕ
  pub idle_elapsed : ℕ
  pub reset_triggered : Bool

-- `IdleReset::new`.
unfoldable pub new : Option ℕ → IdleReset
new timeout = record { timeout = timeout; idle_elapsed = 0; reset_triggered = false }

-- `IdleReset::reset`.
unfoldable pub reset : IdleReset → IdleReset
reset i = record i { idle_elapsed = 0; reset_triggered = false }

-- `IdleReset::mark_triggered`.
unfoldable pub mark_triggered : IdleReset → IdleReset
mark_triggered i = record i { reset_triggered = true }

-- The part of `advance` behind its early returns, once the idle time has been added.
unfoldable pub reached : ℕ → IdleReset → IdleReset × Bool
reached timeout i =
    if ltb i.idle_elapsed timeout then (i, false) else (record i { reset_triggered = true }, true)

-- `IdleReset::advance`.
unfoldable pub advance : ℕ → IdleReset → IdleReset × Bool
unfolding reached
advance elapsed i = elim i.timeout [
  | none ↦ (i, false)
  | some timeout ↦
      if i.reset_triggered
      then (i, false)
      else reached timeout (record i { idle_elapsed = saturating_add i.idle_elapsed elapsed })
]

pub record CombinedActivity : Type 0 where
  pub active_budget : ℕ
  pub wall_clock_seen : Bool

-- `CombinedActivity::default`.
abbrev pub default : CombinedActivity
default = record { active_budget = 0; wall_clock_seen = false }

-- `CombinedActivity::advance_wall_clock`.
unfoldable pub advance_wall_clock : ℕ → CombinedActivity → CombinedActivity
advance_wall_clock elapsed c = record { active_budget = elapsed; wall_clock_seen = true }

-- `CombinedActivity::active_elapsed`: the active time that counts.
unfoldable pub active_elapsed : ℕ → CombinedActivity → CombinedActivity × ℕ
active_elapsed elapsed c =
    if c.wall_clock_seen
    then (
      record c { active_budget = c.active_budget - min elapsed c.active_budget },
      min elapsed c.active_budget,
    )
    else (c, elapsed)
