-- ===== src/Sleepinfo/Schedule/Window.antt =====
-- The window of `isTimeInDelta` in nanoseconds, for a delta of at most 10^9 seconds.
use kube_green.Base.{ℕ, ◌+◌, ◌-◌, ◌*◌, ◌^◌, ◌≤◌, ◌<◌, ◌≡◌, ◌↔◌, true, arith}
use kube_green.Base.Int.{pos}
use kube_green.Base.Clock.{Time}
use kube_green.Sleepinfo.Schedule.{is_time_in_delta, schedule_delta, window_start}

-- The delta in nanoseconds.
abbrev pub nanos : ℕ → ℕ
nanos seconds = seconds * 10 ^ 9

pub schedule_delta_pos :
    (seconds : ℕ) → seconds ≤ 10 ^ 9 → schedule_delta (pos seconds) ≡ pos (nanos seconds)
unfolding schedule_delta
schedule_delta_pos seconds h = ground arith

-- Two instants are in the delta exactly when they are less than the delta and a millisecond apart.
pub is_time_in_delta_iff :
    (t u : Time) (seconds : ℕ)
    → seconds ≤ 10 ^ 9
    → (is_time_in_delta t u (pos (nanos seconds)) ≡ true)
      ↔ ((t < u + nanos seconds + 10 ^ 6) × (u < t + nanos seconds + 10 ^ 6))
unfolding is_time_in_delta
is_time_in_delta_iff t u seconds h = (λ e. ground arith, λ e. ground arith)

pub window_start_lem :
    (now : Time) (seconds : ℕ)
    → seconds ≤ 10 ^ 9
    → window_start now (pos (nanos seconds)) ≡ now - nanos seconds
unfolding window_start
window_start_lem now seconds h = ground arith

pub in_window :
    (t u : Time) (seconds : ℕ)
    → seconds ≤ 10 ^ 9
    → t ≤ u + nanos seconds
    → u ≤ t + nanos seconds
    → is_time_in_delta t u (pos (nanos seconds)) ≡ true
in_window t u seconds h a b = (is_time_in_delta_iff t u seconds h).1 (omega arith, omega arith)
