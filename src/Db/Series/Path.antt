-- ===== src/Db/Series/Path.antt =====
-- Series::Init: the directory of a series, and HexString of vqro/base/base.h for a size_t.
use vqro.Base.{
  ℕ, zero, suc, ◌+◌, ◌-◌, ◌*◌, ◌/◌, ◌%◌, ◌^◌, ◌<◌, ltb, List, [], ◌∷◌, ◌++◌, take, drop, length,
  if◌then◌else◌, ◌≡◌, refl, ap, length-append, ◌∙◌, arith,
}

abbrev pub hex_digit : ℕ → ℕ
hex_digit n = if ltb n 10 then 48 + n else 87 + n

-- `width` digits, with zeroes in front.
unfoldable pub hex_digits : ℕ → ℕ → List ℕ
hex_digits zero n = []
hex_digits (suc width) n = hex_digits width (n / 16) ++ hex_digit (n % 16) ∷ []

unfoldable pub hex_string : ℕ → List ℕ
unfolding hex_digits
hex_string n = hex_digits 16 n

-- A slash behind the first four digits.
unfoldable pub series_dir : ℕ → List ℕ
unfolding hex_string
series_dir keyint = take 4 (hex_string keyint) ++ b'/' ∷ drop 4 (hex_string keyint)

unfoldable pub data_path : List ℕ → ℕ → List ℕ
unfolding series_dir
data_path root keyint =
    root
    ++ (b'd' ∷ b'a' ∷ b't' ∷ b'a' ∷ b'p' ∷ b'o' ∷ b'i' ∷ b'n' ∷ b't' ∷ b's' ∷ b'/' ∷ [])
    ++ series_dir keyint
    ++ b'/' ∷ []

-- The number that a text of hexadecimal digits stands for.
abbrev digit_value : ℕ → ℕ
digit_value c = if ltb c 58 then c - 48 else c - 87

abbrev pub from_hex : ℕ → List ℕ → ℕ
from_hex acc [] = acc
from_hex acc (c ∷ cs) = from_hex (acc * 16 + digit_value c) cs

from_hex-append :
    (acc : ℕ) (xs ys : List ℕ) → from_hex acc (xs ++ ys) ≡ from_hex (from_hex acc xs) ys
from_hex-append acc [] ys = refl
from_hex-append acc (x ∷ xs) ys = from_hex-append (acc * 16 + digit_value x) xs ys

digit_value-hex_digit : (n : ℕ) → n < 16 → digit_value (hex_digit n) ≡ n
digit_value-hex_digit n h = ground arith

from_hex-hex_digits : (width n : ℕ) → n < 16 ^ width → from_hex 0 (hex_digits width n) ≡ n
unfolding hex_digits
from_hex-hex_digits zero n h = omega (arith, h)
from_hex-hex_digits (suc width) n h =
    let ih = from_hex-hex_digits width (n / 16) (omega (arith, h)) in
    let low = digit_value-hex_digit (n % 16) (omega arith) in
    from_hex-append 0 (hex_digits width (n / 16)) (hex_digit (n % 16) ∷ []) ∙ omega (arith, ih, low)

length-hex_digits : (width n : ℕ) → length (hex_digits width n) ≡ width
unfolding hex_digits
length-hex_digits zero n = refl
length-hex_digits (suc width) n = omega (
  arith,
  length-append (hex_digits width (n / 16)) (hex_digit (n % 16) ∷ []),
  length-hex_digits width (n / 16),
)

-- The slash goes away.
shape :
    (l : List ℕ)
    → length l ≡ 16
    → take 4 (take 4 l ++ b'/' ∷ drop 4 l) ++ drop 5 (take 4 l ++ b'/' ∷ drop 4 l) ≡ l
shape [] e = absurd (omega (arith, e))
shape (a ∷ []) e = absurd (omega (arith, e))
shape (a ∷ (b ∷ [])) e = absurd (omega (arith, e))
shape (a ∷ (b ∷ (c ∷ []))) e = absurd (omega (arith, e))
shape (a ∷ (b ∷ (c ∷ (d ∷ l)))) e = refl

-- The number of a series of 64 bits is read back from the name of its directory without its slash, so
-- series with different numbers have different directories.
pub series_dir-from_hex :
    (n : ℕ) → n < 2 ^ 64 → from_hex 0 (take 4 (series_dir n) ++ drop 5 (series_dir n)) ≡ n
unfolding series_dir hex_string
series_dir-from_hex n h =
    ap (from_hex 0) (shape (hex_digits 16 n) (length-hex_digits 16 n)) ∙ from_hex-hex_digits 16 n h
