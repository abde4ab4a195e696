-- ===== src/Common/Words.antt =====
-- Machine words and durations. A `u64` or a `usize` of a 64-bit target is a native number below
-- 2^64. A `Duration` is its number of nanoseconds: Rust's holds a u64 of seconds and less than one
-- second of nanoseconds, so at most 2^64 * 10^9 - 1 of them, where `saturating_add` stops.
use Prim.Native.Nat.{ℕ, ◌+◌, ◌*◌, ◌/◌, min}
use mathlib.Core.Option.{Option, none, some}
use rusteyes.Common.Tests.{leb, if◌then◌else◌}

abbrev pub word_mod : ℕ
word_mod = 18446744073709551616

abbrev pub word_max : ℕ
word_max = 18446744073709551615

abbrev pub duration_max : ℕ
duration_max = 18446744073709551615999999999

abbrev pub millis : ℕ → ℕ
millis n = n * 1000000

abbrev pub secs : ℕ → ℕ
secs n = n * 1000000000

abbrev pub saturating_add : ℕ → ℕ → ℕ
saturating_add a b = min (a + b) duration_max

abbrev pub saturating_add_word : ℕ → ℕ → ℕ
saturating_add_word a b = min (a + b) word_max

abbrev pub checked_add_word : ℕ → ℕ → Option ℕ
checked_add_word a b = if leb (a + b) word_max then some (a + b) else none

-- `u64::try_from(duration.as_millis())`.
abbrev pub try_as_millis : ℕ → Option ℕ
try_as_millis d = if leb (d / 1000000) word_max then some (d / 1000000) else none
