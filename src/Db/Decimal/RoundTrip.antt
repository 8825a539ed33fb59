-- ===== src/Db/Decimal/RoundTrip.antt =====
-- strtoll reads back what std::to_string writes.
use vqro.Base.{
  ℕ, zero, suc, ◌+◌, ◌*◌, ◌/◌, ◌%◌, ◌<◌, ℤ, pos, negsuc, ◌≤ℤ◌, List, [], ◌∷◌, ◌++◌, Bool, true,
  false, some, ◌≡◌, refl, sym, ap, ◌∙◌, arith, append_assoc, int64_max, int64_min, Bool-cases, inl,
  inr, ltb,
}
use vqro.Db.Decimal.{
  digits, to_string, to_string_ℕ, take_digits, strtoll, number, is_digit, clamp, clamped,
}

-- The text does not begin with a digit.
abbrev pub Stops : List ℕ → Type 0
Stops [] = Unit
Stops (c ∷ cs) = is_digit c ≡ false

take_digits_stop : (n : ℕ) (rest : List ℕ) → Stops rest → take_digits n rest ≡ (n, rest)
unfolding take_digits
take_digits_stop n [] h = refl
take_digits_stop n (c ∷ cs) h = rw h

take_digits_one :
    (acc d : ℕ) (cs : List ℕ)
    → d < 10
    → take_digits acc ((48 + d) ∷ cs) ≡ take_digits (acc * 10 + d) cs
take_digits_one acc d cs h =
    unfold take_digits in rw (digit d h) (ap (λ n. take_digits n cs) (omega arith))
  where
    digit : (d : ℕ) → d < 10 → is_digit (48 + d) ≡ true
    digit d h = ground arith

take_digits-digits :
    (fuel n : ℕ) (rest : List ℕ)
    → n < fuel
    → take_digits 0 (digits fuel n ++ rest) ≡ take_digits n rest
unfolding digits
take_digits-digits zero n rest h = elim h [ ]
take_digits-digits (suc fuel) n rest h =
    let ih = take_digits-digits fuel (n / 10) ((48 + n % 10) ∷ rest) in
    elim (Bool-cases (ltb n 10)) [
      | inl e ↦
          rw e
            (take_digits_one 0 n rest (ground arith) ∙ ap (λ k. take_digits k rest) (omega arith))
      | inr e ↦ rw e (
          ap (take_digits 0) (append_assoc (digits fuel (n / 10)) ((48 + n % 10) ∷ []) rest)
          ∙ ih (ground arith)
          ∙ take_digits_one (n / 10) (n % 10) rest (omega arith)
          ∙ ap (λ k. take_digits k rest) (omega arith))
    ]

-- A printed number begins with a digit.
digits_head :
    (fuel n : ℕ)
    → n < fuel
    → (c : ℕ) × (cs : List ℕ) × (digits fuel n ≡ c ∷ cs) × (is_digit c ≡ true)
unfolding digits
digits_head zero n h = elim h [ ]
digits_head (suc fuel) n h = elim (Bool-cases (ltb n 10)) [
  | inl e ↦ (48 + n, [], rw e, ground arith)
  | inr e ↦
      let (c, cs, split, d) = digits_head fuel (n / 10) (ground arith) in
      (c, cs ++ (48 + n % 10) ∷ [], rw (e, split), d)
]

number-to_string_ℕ :
    (negative : Bool) (n : ℕ) (rest : List ℕ)
    → Stops rest
    → number negative (to_string_ℕ n ++ rest) ≡ some (clamp negative n, rest)
number-to_string_ℕ negative n rest stops =
    let (c, cs, split, d) = digits_head (suc n) n (omega arith) in
    let front : to_string_ℕ n ≡ c ∷ cs = unfold to_string_ℕ in split in
    let all : take_digits 0 (to_string_ℕ n ++ rest) ≡ (n, rest) =
      unfold to_string_ℕ in
      take_digits-digits (suc n) n rest (omega arith) ∙ take_digits_stop n rest stops in
    ap (λ l. number negative (l ++ rest)) front
    ∙ number_digit negative c (cs ++ rest) d
    ∙ ap (clamped negative) (ap (λ l. take_digits 0 (l ++ rest)) (sym front) ∙ all)
  where
    number_digit :
        (negative : Bool) (c : ℕ) (cs : List ℕ)
        → is_digit c ≡ true
        → number negative (c ∷ cs) ≡ clamped negative (take_digits 0 (c ∷ cs))
    number_digit negative c cs h = unfold number in rw h

strtoll_digit : (c : ℕ) (cs : List ℕ) → is_digit c ≡ true → strtoll (c ∷ cs) ≡ number false (c ∷ cs)
unfolding strtoll
strtoll_digit c cs h = ground arith

strtoll_minus : (cs : List ℕ) → strtoll (b'-' ∷ cs) ≡ number true cs
unfolding strtoll
strtoll_minus cs = refl

-- The value is one that an int64_t holds.
abbrev pub IsInt64 : ℤ → Type 0
IsInt64 z = (int64_min ≤ℤ z) × (z ≤ℤ int64_max)

-- strtoll reads back the int64_t that std::to_string wrote, and stops where it ends, if no digit
-- follows.
pub strtoll-to_string :
    (z : ℤ) (rest : List ℕ)
    → IsInt64 z
    → Stops rest
    → strtoll (to_string z ++ rest) ≡ some (z, rest)
strtoll-to_string (pos n) rest range stops =
    let (c, cs, split, d) = digits_head (suc n) n (omega arith) in
    let front : to_string_ℕ n ≡ c ∷ cs = unfold to_string_ℕ in split in
    unfold to_string in
    ap (λ l. strtoll (l ++ rest)) front
    ∙ strtoll_digit c (cs ++ rest) d
    ∙ ap (λ l. number false (l ++ rest)) (sym front)
    ∙ number-to_string_ℕ false n rest stops
    ∙ ap (λ z. some (z, rest)) (ground arith)
strtoll-to_string (negsuc n) rest range stops =
    unfold to_string in
    strtoll_minus (to_string_ℕ (suc n) ++ rest)
    ∙ number-to_string_ℕ true (suc n) rest stops
    ∙ ap (λ z. some (z, rest)) (ground arith)
