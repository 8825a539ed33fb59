-- ===== src/Db/Decimal.antt =====
-- std::to_string on int64_t, and strtoll in base 10, over the bytes of a text.
pub mod RoundTrip
use vqro.Base.{
  ℕ, zero, suc, ◌+◌, ◌-◌, ◌*◌, ◌/◌, ◌%◌, ◌^◌, ℤ, pos, negsuc, sub_ℕ, List, [], ◌∷◌, ◌++◌, Bool,
  ◌&&◌, ◌||◌, leb, ltb, ◌==◌, if◌then◌else◌, Option, none, some, int64_max, int64_min, true, false,
}

pub digits : ℕ → ℕ → List ℕ
digits zero n = []
digits (suc fuel) n =
    let more : List ℕ = digits fuel (n / 10) in
    if ltb n 10 then (48 + n) ∷ [] else more ++ (48 + n % 10) ∷ []

unfoldable pub to_string_ℕ : ℕ → List ℕ
unfolding digits
to_string_ℕ n = digits (suc n) n

unfoldable pub to_string : ℤ → List ℕ
unfolding to_string_ℕ
to_string (pos n) = to_string_ℕ n
to_string (negsuc n) = b'-' ∷ to_string_ℕ (suc n)

abbrev pub is_digit : ℕ → Bool
is_digit c = leb 48 c && leb c 57

abbrev pub is_space : ℕ → Bool
is_space c = c == 32 || (leb 9 c && leb c 13)

pub skip_space : List ℕ → List ℕ
skip_space [] = []
skip_space (c ∷ cs) = let rest = skip_space cs in if is_space c then rest else c ∷ cs

-- The digits at the front, behind those that make `acc`, and what follows them.
pub take_digits : ℕ → List ℕ → ℕ × List ℕ
take_digits acc [] = (acc, [])
take_digits acc (c ∷ cs) =
    let rest = take_digits (acc * 10 + (c - 48)) cs in if is_digit c then rest else (acc, c ∷ cs)

-- Out of range the nearest int64_t is the result.
abbrev pub clamp : Bool → ℕ → ℤ
clamp negative n =
    if negative
    then (if ltb (2 ^ 63) n then int64_min else sub_ℕ 0 n)
    else (if ltb (2 ^ 63 - 1) n then int64_max else pos n)

abbrev pub clamped : Bool → ℕ × List ℕ → Option (ℤ × List ℕ)
clamped negative (n, rest) = some (clamp negative n, rest)

-- `none` where there is no digit, so that `endptr` stays at the start.
pub number : Bool → List ℕ → Option (ℤ × List ℕ)
unfolding take_digits
number negative [] = none
number negative (c ∷ cs) = if is_digit c then clamped negative (take_digits 0 (c ∷ cs)) else none

pub signed : List ℕ → Option (ℤ × List ℕ)
unfolding number
signed [] = none
signed (c ∷ cs) =
    if c == b'-'
    then number true cs
    else if c == b'+'
    then number false cs
    else number false (c ∷ cs)

-- The number at the front of the text and what stands behind it.
unfoldable pub strtoll : List ℕ → Option (ℤ × List ℕ)
unfolding signed skip_space
strtoll s = signed (skip_space s)
