-- ===== src/Base/Clock.antt =====
-- `time.Time` and `time.Duration`. An instant is the number of nanoseconds since the earliest
-- instant that `time.Time` represents, 2^63 seconds before its zero value; a duration is an `int64`
-- of nanoseconds.
use Prim.Native.Nat.{min}
use Prim.Native.Nat.{ℕ, suc, ◌+◌, ◌-◌, ◌*◌, ◌^◌}
use mathlib.Core.Bool.{Bool}
use kube_green.Base.Tests.{ltb, leb, nat_eq, if◌then◌else◌}
use kube_green.Base.Int.{ℤ, pos, negsuc, sub_ℕ, div_ℤ}

abbrev pub Time : Type 0
Time = ℕ

abbrev pub zero_time : Time
zero_time = 2 ^ 63 * 10 ^ 9

abbrev pub is_zero : Time → Bool
is_zero t = nat_eq t zero_time

abbrev pub add_time : Time → ℤ → Time
add_time t (pos n) = t + n
add_time t (negsuc n) = t - suc n

abbrev pub before : Time → Time → Bool
before t u = ltb t u

-- `t.Sub(u)` saturates at the bounds of `int64`.
abbrev pub sub_time : Time → Time → ℤ
sub_time t u = if leb u t then pos (min (t - u) (2 ^ 63 - 1)) else sub_ℕ 0 (min (u - t) (2 ^ 63))

abbrev pub milliseconds : ℤ → ℤ
milliseconds d = div_ℤ d 1000000
