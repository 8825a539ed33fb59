-- ===== src/Stats/Clock.antt =====
-- TimeInMillis and TimeInMicros of vqro/base/base.h, for a time after 1970: seconds, and nanoseconds
-- below 10 ^ 9.
use vqro.Base.{ℕ, ◌+◌, ◌*◌, ◌/◌, ◌≡◌, arith}

-- What clock_gettime gives.
pub record Timespec : Type 0 where
  pub tv_sec : ℕ
  pub tv_nsec : ℕ

unfoldable pub time_in_millis : Timespec → ℕ
time_in_millis now = now.tv_sec * 1000 + now.tv_nsec / 1000000

unfoldable pub time_in_micros : Timespec → ℕ
time_in_micros now = now.tv_sec * 1000000 + now.tv_nsec / 1000

-- The milliseconds are those of the microseconds.
time_in_millis-micros : (now : Timespec) → time_in_millis now ≡ time_in_micros now / 1000
unfolding time_in_millis time_in_micros
time_in_millis-micros now = omega arith
