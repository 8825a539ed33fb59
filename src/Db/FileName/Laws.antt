-- ===== src/Db/FileName/Laws.antt =====
-- Which names are read back as the file that they were made for.
use vqro.Base.{
  ℕ, ℤ, List, [], ◌∷◌, ◌++◌, Bool, true, false, ◌==◌, if◌then◌else◌, Option, none, some, ◌≡◌, refl,
  sym, ap, ◌∙◌, arith, append-nil, ◌&&◌, not,
}
use vqro.Db.Decimal.{to_string, strtoll}
use vqro.Db.Decimal.RoundTrip.{strtoll-to_string, IsInt64, Stops}
use vqro.Db.FileName.{
  SparseFile, DenseFile, ConstantFile, new_dense, sparse_name, dense_name, constant_name,
  dense_from_filename, constant_from_filename, sparse_from_filename, number_then, then_byte,
  sparse_opt_suffix,
}

number_then-to_string :
    (c : ℕ) (z : ℤ) (b : ℕ) (rest : List ℕ)
    → IsInt64 z
    → Stops (b ∷ rest)
    → number_then c (to_string z ++ b ∷ rest) ≡ (if b == c then some (z, rest) else none)
number_then-to_string c z b rest range stops =
    ap (then_byte c) (strtoll-to_string z (b ∷ rest) range stops)

strtoll-to_string_end : (z : ℤ) → IsInt64 z → strtoll (to_string z) ≡ some (z, [])
strtoll-to_string_end z range =
    ap strtoll (sym (append-nil (to_string z))) ∙ strtoll-to_string z [] range tt

-- Where the first timestamp and the duration of a dense file are of 64 bits, its name gives both
-- back; the last timestamp is that of a file of the size given.
pub dense_from_filename-dense_name :
    (f : DenseFile) (size : ℕ)
    → IsInt64 f.min_timestamp
    → IsInt64 f.duration
    → dense_from_filename size (dense_name f) ≡ some (new_dense f.min_timestamp f.duration size)
unfolding dense_from_filename dense_name
dense_from_filename-dense_name f size a b = rw (
  number_then-to_string b'@' f.min_timestamp b'@' (to_string f.duration) a refl,
  strtoll-to_string_end f.duration b,
)

Stops-suffix : (opt : Bool) → Stops (if opt then sparse_opt_suffix else [])
Stops-suffix true = refl
Stops-suffix false = tt

-- Where both timestamps of a sparse file are of 64 bits, its name gives back the file, except that
-- an optimized file is not recognised where the byte four behind the zero that ends its name is not zero.
pub sparse_from_filename-sparse_name :
    (f : SparseFile) (beyond : ℕ)
    → IsInt64 f.min_timestamp
    → IsInt64 f.max_timestamp
    → sparse_from_filename beyond (sparse_name f)
      ≡ (if f.optimized && not (beyond == 0) then none else some f)
unfolding sparse_from_filename sparse_name
sparse_from_filename-sparse_name f beyond a b =
    rw
      (
        number_then-to_string b'-' f.min_timestamp b'-' _ a refl,
        strtoll-to_string f.max_timestamp (if f.optimized then sparse_opt_suffix else []) b
            (Stops-suffix f.optimized),
      )
      (ground arith)

-- Where the numbers of a constant file are of 64 bits, no parser recognises the name that it is
-- given: it lacks the value.
pub constant_name_unrecognised :
    (f : ConstantFile) (strtod : List ℕ → Option (ℕ × List ℕ)) (size beyond : ℕ)
    → IsInt64 f.min_timestamp
    → IsInt64 f.duration
    → IsInt64 f.count
    → (constant_from_filename strtod (constant_name f) ≡ none)
      × (dense_from_filename size (constant_name f) ≡ none)
      × (sparse_from_filename beyond (constant_name f) ≡ none)
unfolding constant_from_filename dense_from_filename sparse_from_filename constant_name
constant_name_unrecognised f strtod size beyond a b c =
    let start = λ (sep : ℕ).
      number_then-to_string sep f.min_timestamp b'@'
        (to_string f.duration ++ b'x' ∷ to_string f.count) a refl in
    let dur = strtoll-to_string f.duration (b'x' ∷ to_string f.count) b refl in
    (rw (start b'@', dur, strtoll-to_string_end f.count c), rw (start b'@', dur), rw (start b'-'))

-- A name that the parser of dense files recognises is recognised neither by that of constant files
-- nor by that of sparse files.
pub dense_excludes :
    (strtod : List ℕ → Option (ℕ × List ℕ)) (size beyond : ℕ) (name : List ℕ) (f : DenseFile)
    → dense_from_filename size name ≡ some f
    → (constant_from_filename strtod name ≡ none) × (sparse_from_filename beyond name ≡ none)
unfolding constant_from_filename dense_from_filename sparse_from_filename
dense_excludes strtod size beyond name f h = ground arith

-- A name that the parser of constant files recognises is not recognised by that of sparse files.
pub constant_excludes :
    (strtod : List ℕ → Option (ℕ × List ℕ)) (beyond : ℕ) (name : List ℕ) (f : ConstantFile)
    → constant_from_filename strtod name ≡ some f
    → sparse_from_filename beyond name ≡ none
unfolding constant_from_filename sparse_from_filename
constant_excludes strtod beyond name f h = ground arith
