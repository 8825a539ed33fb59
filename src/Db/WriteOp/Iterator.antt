-- ===== src/Db/WriteOp/Iterator.antt =====
-- The operators of DatapointBuffer::Iterator (vqro/db/datapoint_buffer.h) other than ++. `V` is what
-- ValueAt yields. A position is a size_t, an increment a long of 64 bits.
use vqro.Base.{
  ℕ, suc, ◌+◌, ◌-◌, ◌%◌, ◌^◌, ◌<◌, ltb, leb, ◌==◌, ℤ, pos, negsuc, Bool, not, if◌then◌else◌, ◌≡◌,
  arith,
}

pub record Iterator (V : Type 0) : Type 0 where
  pub value_at : ℕ → V
  pub place : ℕ

abbrev pub size_mod : ℕ
size_mod = 2 ^ 64

-- pos + inc and pos - inc, modulo 2 ^ 64.
unfoldable pub add_long : ℕ → ℤ → ℕ
add_long p (pos n) = (p + n) % size_mod
add_long p (negsuc n) = (p + size_mod - suc n % size_mod) % size_mod

unfoldable pub sub_long : ℕ → ℤ → ℕ
sub_long p (pos n) = (p + size_mod - n % size_mod) % size_mod
sub_long p (negsuc n) = (p + suc n) % size_mod

-- A size_t as a long.
unfoldable pub as_long : ℕ → ℤ
as_long n = if ltb n (2 ^ 63) then pos n else negsuc (size_mod - 1 - n)

module _ {V : Type 0} where
  -- The copy constructor and the copy assignment: the same value and position.
  abbrev pub copied : Iterator V → Iterator V
  copied it = record { value_at = it.value_at; place = it.place }

  -- operator+=, and operator+ and operator- of a long.
  unfoldable pub plus : Iterator V → ℤ → Iterator V
  unfolding add_long
  plus it inc = record it { place = add_long it.place inc }

  unfoldable pub minus_long : Iterator V → ℤ → Iterator V
  unfolding sub_long
  minus_long it inc = record it { place = sub_long it.place inc }

  -- operator- of two iterators.
  unfoldable pub minus : Iterator V → Iterator V → ℤ
  unfolding as_long
  minus it rhs = as_long ((it.place + size_mod - rhs.place) % size_mod)

  -- The operators --: the result, and the iterator behind it. The prefix form returns the old
  -- position, and the postfix form the new one.
  unfoldable pub prefix_decrement : Iterator V → Iterator V × Iterator V
  unfolding sub_long
  prefix_decrement it = (it, record it { place = sub_long it.place (pos 1) })

  unfoldable pub postfix_decrement : Iterator V → Iterator V × Iterator V
  unfolding sub_long
  postfix_decrement it =
      let next : Iterator V = record it { place = sub_long it.place (pos 1) } in (next, next)

  abbrev pub equals : Iterator V → Iterator V → Bool
  equals it rhs = it.place == rhs.place

  abbrev pub differs : Iterator V → Iterator V → Bool
  differs it rhs = not (it.place == rhs.place)

  abbrev pub lt : Iterator V → Iterator V → Bool
  lt it rhs = ltb it.place rhs.place

  abbrev pub gt : Iterator V → Iterator V → Bool
  gt it rhs = ltb rhs.place it.place

  abbrev pub le : Iterator V → Iterator V → Bool
  le it rhs = leb it.place rhs.place

  abbrev pub ge : Iterator V → Iterator V → Bool
  ge it rhs = leb rhs.place it.place

  -- operator[], which does not add the position; operator*.
  unfoldable pub index : Iterator V → ℕ → V
  index it i = it.value_at i

  unfoldable pub deref : Iterator V → V
  deref it = it.value_at it.place

  -- The distance of a sum is what was added.
  minus-plus_pos :
      (it : Iterator V) (n : ℕ)
      → it.place < size_mod
      → n < 2 ^ 63
      → minus (plus it (pos n)) it ≡ pos n
  unfolding minus plus
  minus-plus_pos it n h k = ground arith

  minus-plus_negsuc :
      (it : Iterator V) (n : ℕ)
      → it.place < size_mod
      → n < 2 ^ 63
      → minus (plus it (negsuc n)) it ≡ negsuc n
  unfolding minus plus
  minus-plus_negsuc it n h k = ground arith
