-- ===== src/Client.antt =====
-- vqro_read.cc: units of time, the times given as arguments, and the constraints of a query. Regular
-- expressions (RE2), strtoll with errno, strptime with mktime, and the clock are arguments; an error
-- is `none`. Texts are lists of bytes.
pub mod Laws
pub mod Stdin
pub mod Read
pub mod Write
pub mod Print
use vqro.Base.{
  ℕ, ◌*◌, ℤ, pos, ◌*ℤ◌, ◌/ℤ◌, int64_min, int64_max, List, [], ◌∷◌, ◌++◌, Option, none, some, ◌==◌,
  Bool, true, false, ◌||◌, if◌then◌else◌,
}
use vqro.Db.Database.GetSeries.{text_eq}

pub data TickUnit : Type 0 where
  no_unit ns us ms s m h d : TickUnit

-- StringByTickUnit.
unfoldable pub text_of_unit : TickUnit → List ℕ
text_of_unit no_unit = []
text_of_unit ns = b'n' ∷ b's' ∷ []
text_of_unit us = b'u' ∷ b's' ∷ []
text_of_unit ms = b'm' ∷ b's' ∷ []
text_of_unit s = b's' ∷ []
text_of_unit m = b'm' ∷ []
text_of_unit h = b'h' ∷ []
text_of_unit d = b'd' ∷ []

abbrev first_unit : List ℕ → List TickUnit → Option TickUnit
first_unit text [] = none
first_unit text (u ∷ units) =
    let rest : Option TickUnit = first_unit text units in
    if text_eq text (text_of_unit u) then some u else rest

-- TickUnitByString.
unfoldable pub unit_of_text : List ℕ → Option TickUnit
unfolding text_of_unit text_eq
unit_of_text text = first_unit text (no_unit ∷ ns ∷ us ∷ ms ∷ s ∷ m ∷ h ∷ d ∷ [])

unfoldable pub nanoseconds_per_tick : TickUnit → ℕ
nanoseconds_per_tick no_unit = 0
nanoseconds_per_tick ns = 1
nanoseconds_per_tick us = 1000
nanoseconds_per_tick ms = 1000000
nanoseconds_per_tick s = 1000000000
nanoseconds_per_tick m = 1000000000 * 60
nanoseconds_per_tick h = 1000000000 * 3600
nanoseconds_per_tick d = 1000000000 * 86400

-- Now, from the clock's nanoseconds.
unfoldable pub now : TickUnit → ℤ → ℤ
unfolding nanoseconds_per_tick
now tick clock =
    if nanoseconds_per_tick tick == 0 then pos 0 else clock /ℤ pos (nanoseconds_per_tick tick)

-- What the third parties are asked for.
pub record Parsers : Type 0 where
  -- The groups of `(-?\d+)([a-zA-Z]+)?`.
  pub match_relative : List ℕ → Option (List ℕ × List ℕ)
  pub to_number : List ℕ → Option ℤ
  -- The seconds of a date.
  pub epoch : List ℕ → Option ℤ
  -- The groups of `([^=]+)=~(.+)` and of `([^=]+)=(.+)`.
  pub match_regex : List ℕ → Option (List ℕ × List ℕ)
  pub match_exact : List ℕ → Option (List ℕ × List ℕ)

-- A relative time: the number, in the unit, as ticks.
unfoldable pub relative_ticks : TickUnit → TickUnit → ℤ → Option ℤ
unfolding nanoseconds_per_tick
relative_ticks tick unit number =
    if nanoseconds_per_tick tick == 0
    then none
    else some ((pos (nanoseconds_per_tick unit) /ℤ pos (nanoseconds_per_tick tick)) *ℤ number)

abbrev pub bind {ℓ κ} : {A : Type ℓ} {B : Type κ} → Option A → (A → Option B) → Option B
bind none f = none
bind (some a) f = f a

unfoldable pub relative_time : Parsers → TickUnit → List ℕ → Option ℤ
unfolding relative_ticks unit_of_text
relative_time parsers tick text = bind (parsers.match_relative text) (λ groups.
    bind (parsers.to_number groups.0)
      (λ number. bind (unit_of_text groups.1) (λ unit. relative_ticks tick unit number)))

unfoldable pub absolute_time : Parsers → TickUnit → List ℕ → Option ℤ
unfolding nanoseconds_per_tick
absolute_time parsers tick text =
    if nanoseconds_per_tick tick == 0
    then none
    else bind (parsers.epoch text)
        (λ t. some ((t *ℤ pos (nanoseconds_per_tick s)) /ℤ pos (nanoseconds_per_tick tick)))

-- The time, and whether it is relative.
abbrev with_flag : Bool → Option ℤ → Option (ℤ × Bool)
with_flag relative o = bind o (λ t. some (t, relative))

-- The two branches by the first byte; a plus is taken away.
abbrev signed_time : Parsers → TickUnit → List ℕ → Option (ℤ × Bool)
signed_time parsers tick [] = none
signed_time parsers tick (c ∷ cs) =
    if c == b'+'
    then with_flag true (relative_time parsers tick cs)
    else if c == b'-'
    then with_flag true (relative_time parsers tick (c ∷ cs))
    else with_flag false (absolute_time parsers tick (c ∷ cs))

unfoldable pub get_time_in_ticks : Parsers → TickUnit → ℤ → Bool → List ℕ → Option (ℤ × Bool)
unfolding now relative_time absolute_time text_eq
get_time_in_ticks parsers tick clock relative text =
    if text_eq text [] || text_eq text (b'n' ∷ b'o' ∷ b'w' ∷ [])
    then some (now tick clock, relative)
    else if text_eq text (b'm' ∷ b'i' ∷ b'n' ∷ [])
    then some (int64_min, relative)
    else if text_eq text (b'm' ∷ b'a' ∷ b'x' ∷ [])
    then some (int64_max, relative)
    else signed_time parsers tick text

-- The labels in the order in which the map yields them.
unfoldable pub format_list : List (List ℕ × List ℕ) → List ℕ
format_list [] = []
format_list ((name, value) ∷ []) = name ++ b'=' ∷ value
format_list ((name, value) ∷ (l ∷ ls)) =
    name ++ b'=' ∷ (value ++ b',' ∷ b' ' ∷ format_list (l ∷ ls))

unfoldable pub format_labels : List (List ℕ × List ℕ) → List ℕ
unfolding format_list
format_labels labels = b'{' ∷ (format_list labels ++ b'}' ∷ [])

pub data Constraint : Type 0 where
  regex : List ℕ → List ℕ → Constraint
  exact_value : List ℕ → List ℕ → Constraint

abbrev constraint_of : Option (List ℕ × List ℕ) → Option (List ℕ × List ℕ) → Option Constraint
constraint_of (some (name, predicate)) exact = some (regex name predicate)
constraint_of none (some (name, predicate)) = some (exact_value name predicate)
constraint_of none none = none

-- The constraints of BuildSeriesQuery, one for each argument.
unfoldable pub constraints : Parsers → List (List ℕ) → Option (List Constraint)
constraints parsers [] = some []
constraints parsers (arg ∷ args) =
    bind (constraint_of (parsers.match_regex arg) (parsers.match_exact arg))
      (λ c. bind (constraints parsers args) (λ cs. some (c ∷ cs)))
