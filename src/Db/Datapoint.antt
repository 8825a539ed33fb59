-- ===== src/Db/Datapoint.antt =====
-- vqro/db/datapoint.h. A double is its 64-bit IEEE 754 pattern.
use vqro.Base.{ℕ, ◌%◌, ◌*◌, ◌^◌, ℤ, Bool, ltb, ◌==◌, ltb_ℤ, eqb_ℤ, ◌&&◌, ◌||◌, not}

-- std::isnan: every exponent bit is set and the mantissa is not zero.
unfoldable pub isnan : ℕ → Bool
isnan w = ltb (2047 * 2 ^ 52) (w % 2 ^ 63)

-- `==` of two doubles: no NAN equals anything, and the two zeroes are equal.
unfoldable pub double_eq : ℕ → ℕ → Bool
unfolding isnan
double_eq a b = not (isnan a) && not (isnan b) && (a == b || (a % 2 ^ 63 == 0 && b % 2 ^ 63 == 0))

pub record Datapoint : Type 0 where
  pub timestamp : ℤ
  pub value : ℕ
  pub duration : ℤ

-- operator<: by timestamp alone.
abbrev pub before : Datapoint → Datapoint → Bool
before a b = ltb_ℤ a.timestamp b.timestamp

unfoldable pub equal : Datapoint → Datapoint → Bool
unfolding double_eq
equal a b =
    eqb_ℤ a.timestamp b.timestamp && double_eq a.value b.value && eqb_ℤ a.duration b.duration
