-- ===== src/Client/Laws.antt =====
-- Units of time.
use native.Mathlib.Nat.{div-eq_of_lt}
use vqro.Base.{ℕ, ◌<◌, ◌==◌, ℤ, pos, ◌*ℤ◌, ◌/ℤ◌, List, some, false, ◌≡◌, refl, ap, ◌∙◌, arith}
use vqro.Client.{
  TickUnit, no_unit, ns, us, ms, s, m, h, d, text_of_unit, unit_of_text, nanoseconds_per_tick,
  relative_ticks, Parsers, relative_time,
}

unit_of_text-text_of_unit : (u : TickUnit) → unit_of_text (text_of_unit u) ≡ some u
unfolding unit_of_text text_of_unit
unit_of_text-text_of_unit no_unit = refl
unit_of_text-text_of_unit ns = refl
unit_of_text-text_of_unit us = refl
unit_of_text-text_of_unit ms = refl
unit_of_text-text_of_unit s = refl
unit_of_text-text_of_unit m = refl
unit_of_text-text_of_unit h = refl
unit_of_text-text_of_unit d = refl

none_times : (n : ℤ) → pos 0 *ℤ n ≡ pos 0
unfolding ◌*ℤ◌
none_times n = ground arith

short_unit : (a b : ℕ) (n : ℤ) → a < b → (pos a /ℤ pos b) *ℤ n ≡ pos 0
unfolding ◌/ℤ◌
short_unit a b n lt = ap (λ k. pos k *ℤ n) (div-eq_of_lt lt) ∙ none_times n

-- A relative time whose unit is shorter than a tick comes to 0 ticks, whatever its number; so does
-- one that is given without a unit.
pub relative_time_short :
    (parsers : Parsers) (tick unit : TickUnit) (text digits suffix : List ℕ) (number : ℤ)
    → parsers.match_relative text ≡ some (digits, suffix)
    → parsers.to_number digits ≡ some number
    → unit_of_text suffix ≡ some unit
    → nanoseconds_per_tick unit < nanoseconds_per_tick tick
    → relative_time parsers tick text ≡ some (pos 0)
unfolding relative_time relative_ticks
relative_time_short parsers tick unit text digits suffix number matched parsed known lt =
    let ticks : (nanoseconds_per_tick tick == 0) ≡ false = ground arith in
    rw (matched, parsed, known, ticks) (ap some (short_unit _ _ number lt))
