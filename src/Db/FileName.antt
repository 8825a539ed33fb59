-- ===== src/Db/FileName.antt =====
-- The names of the three kinds of datapoint file: GetPath without the directory, and FromFilename
-- (vqro/db/{sparse,dense,constant}_file.{h,cc}).
pub mod Laws
use vqro.Base.{
  ℕ, zero, suc, ◌+◌, ◌/◌, ℤ, pos, ◌+ℤ◌, ◌*ℤ◌, List, [], ◌∷◌, ◌++◌, Bool, true, false, ◌==◌,
  if◌then◌else◌, Option, none, some,
}
use vqro.Db.Datapoint.{isnan}
use vqro.Db.Decimal.{to_string, strtoll}

pub record SparseFile : Type 0 where
  pub min_timestamp : ℤ
  pub max_timestamp : ℤ
  pub optimized : Bool

pub record DenseFile : Type 0 where
  pub min_timestamp : ℤ
  pub max_timestamp : ℤ
  pub duration : ℤ

pub record ConstantFile : Type 0 where
  pub min_timestamp : ℤ
  pub max_timestamp : ℤ
  pub duration : ℤ
  pub count : ℤ
  pub value : ℕ

-- The constructors. That of a dense file is given the size of the file, in bytes.
abbrev pub new_dense : ℤ → ℤ → ℕ → DenseFile
new_dense start dur size = record {
  min_timestamp = start;
  max_timestamp = start +ℤ pos (size / 8) *ℤ dur;
  duration = dur;
}

abbrev pub new_constant : ℤ → ℤ → ℤ → ℕ → ConstantFile
new_constant start dur count value = record {
  min_timestamp = start;
  max_timestamp = start +ℤ count *ℤ dur;
  duration = dur;
  count = count;
  value = value;
}

-- The text ".opt".
abbrev pub sparse_opt_suffix : List ℕ
sparse_opt_suffix = b'.' ∷ b'o' ∷ b'p' ∷ b't' ∷ []

unfoldable pub sparse_name : SparseFile → List ℕ
sparse_name f =
    to_string f.min_timestamp
    ++ b'-' ∷ (to_string f.max_timestamp ++ (if f.optimized then sparse_opt_suffix else []))

unfoldable pub dense_name : DenseFile → List ℕ
dense_name f = to_string f.min_timestamp ++ b'@' ∷ to_string f.duration

unfoldable pub constant_name : ConstantFile → List ℕ
constant_name f =
    to_string f.min_timestamp ++ b'@' ∷ (to_string f.duration ++ b'x' ∷ to_string f.count)

-- strtoll, and then one byte that has to stand at `endptr`; what follows it is the rest.
abbrev pub then_byte : ℕ → Option (ℤ × List ℕ) → Option (ℤ × List ℕ)
then_byte c none = none
then_byte c (some (z, [])) = none
then_byte c (some (z, b ∷ rest)) = if b == c then some (z, rest) else none

abbrev pub number_then : ℕ → List ℕ → Option (ℤ × List ℕ)
number_then c s = then_byte c (strtoll s)

-- Chaining of the steps of a parser.
infixl 5 ◌>>=◌
abbrev pub ◌>>=◌ {ℓ κ} : {A : Type ℓ} {B : Type κ} → Option A → (A → Option B) → Option B
none >>= f = none
some a >>= f = f a

-- The end of the name.
abbrev pub at_end {ℓ} : {A : Type ℓ} → List ℕ → A → Option A
at_end [] a = some a
at_end (c ∷ cs) a = none

unfoldable pub dense_from_filename : ℕ → List ℕ → Option DenseFile
dense_from_filename size name = do
  (start, rest) ← number_then b'@' name
  (dur, rest) ← strtoll rest
  at_end rest (new_dense start dur size)

-- `strtod` is that of the C library, on the bit patterns of doubles.
unfoldable pub constant_from_filename :
    (List ℕ → Option (ℕ × List ℕ)) → List ℕ → Option ConstantFile
unfolding isnan
constant_from_filename strtod name = do
  (start, rest) ← number_then b'@' name
  (dur, rest) ← number_then b'x' rest
  (count, rest) ← number_then b'=' rest
  (value, rest) ← strtod rest
  file ← at_end rest (new_constant start dur count value)
  if isnan value then none else some file

-- What follows the two numbers. SPARSE_OPT_SUFFIX_LEN is the size of a pointer, 8, so strncmp finds
-- the suffix where it ends the name, and `endptr` is then moved on by 8, to the byte that is four behind
-- the terminating zero: `beyond` is what happens to stand there.
abbrev pub sparse_suffix : ℕ → ℤ → ℤ → List ℕ → Option SparseFile
sparse_suffix beyond min max [] =
    some (record { min_timestamp = min; max_timestamp = max; optimized = false })
sparse_suffix beyond min max (c0 ∷ c1 ∷ c2 ∷ c3 ∷ []) =
    if c0 == b'.'
    then if c1 == b'o'
      then if c2 == b'p'
        then if c3 == b't'
          then if beyond == 0
            then some (record { min_timestamp = min; max_timestamp = max; optimized = true })
            else none
          else none
        else none
      else none
    else none
sparse_suffix beyond min max rest = none

unfoldable pub sparse_from_filename : ℕ → List ℕ → Option SparseFile
sparse_from_filename beyond name = do
  (min, rest) ← number_then b'-' name
  (max, rest) ← strtoll rest
  sparse_suffix beyond min max rest
