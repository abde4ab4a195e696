-- ===== src/Runtime/Arbitration.antt =====
-- src/runtime.rs: which of two breaks that were started at once two peers keep.
use rusteyes.Common.{ℕ, ◌≡◌, ◌≢◌, not, some, ==_iff, arith}
use rusteyes.Common.Text.{text_lt-flip}
use rusteyes.Protocol.{PeerId}
use rusteyes.Scheduler.{BreakOrigin, scheduled, manual}
use rusteyes.Runtime.Sync.{starts_earlier, synced_break_replaces_current}

starts_earlier-opposite :
    (a b : PeerId) (at_a at_b : ℕ)
    → a ≢ b
    → starts_earlier (some a) b at_b at_a ≡ not (starts_earlier (some b) a at_a at_b)
unfolding starts_earlier
starts_earlier-opposite a b at_a at_b h = ground (arith, text_lt-flip a b h)

-- Two peers that each run a break, and each hear of the other's, decide alike which of the two to
-- keep: the second's break is to replace the first's at the first peer just when the first's is not
-- to replace the second's at the second. The peers' ids differ.
pub synced_break_replaces_current-opposite :
    (a b : PeerId) (origin_a origin_b : BreakOrigin) (at_a at_b : ℕ)
    → a ≢ b
    → synced_break_replaces_current (some a) b origin_b origin_a at_b at_a
      ≡ not (synced_break_replaces_current (some b) a origin_a origin_b at_a at_b)
unfolding synced_break_replaces_current
synced_break_replaces_current-opposite a b (scheduled m) (scheduled n) at_a at_b h =
    ground (arith, starts_earlier-opposite a b at_a at_b h, ==_iff m n, ==_iff n m)
synced_break_replaces_current-opposite a b (scheduled m) manual at_a at_b h =
    starts_earlier-opposite a b at_a at_b h
synced_break_replaces_current-opposite a b manual (scheduled n) at_a at_b h =
    starts_earlier-opposite a b at_a at_b h
synced_break_replaces_current-opposite a b manual manual at_a at_b h =
    starts_earlier-opposite a b at_a at_b h
