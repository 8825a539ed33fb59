-- ===== src/Db/DenseFile/Write.antt =====
-- DenseFile: the constructor, and Write.
pub mod Laws
use vqro.Base.{
  ℕ, zero, suc, ◌+◌, ◌-◌, ◌*◌, ◌/◌, ◌%◌, ◌^◌, ltb, ◌==◌, ℤ, pos, negsuc, ◌+ℤ◌, ◌-ℤ◌, ◌*ℤ◌, ◌/ℤ◌,
  min_ℤ, ltb_ℤ, List, [], ◌∷◌, ◌++◌, replicate, get_elem?, Option, none, some, Outcome, returned,
  thrown, running, and_then, if◌then◌else◌,
}
use vqro.Db.Datapoint.{Datapoint}
use vqro.Db.WriteOp.{WriteOperation, writable_datapoints, postfix_increment}
use vqro.Db.FileName.{DenseFile, dense_name, new_dense}
use vqro.Db.FileSystem.{FileSystem, get_file_size}

abbrev pub dense_path : List ℕ → DenseFile → List ℕ
dense_path dir f = dir ++ b'/' ∷ dense_name f

-- The constructor, which asks for the size of the file; `none` where that throws.
unfoldable pub open_dense : {D : Type 0} → FileSystem D → D → List ℕ → ℤ → ℤ → Option DenseFile
open_dense fs d dir start dur = elim (get_file_size fs d (dense_path dir (new_dense start dur 0))) [
  | none ↦ none
  | some size ↦ some (new_dense start dur size)
]

-- double_nan, a quiet NAN.
abbrev pub double_nan : ℕ
double_nan = 2047 * 2 ^ 52 + 2 ^ 51

-- A number stored in an unsigned int.
abbrev pub to_unsigned : ℤ → ℕ
to_unsigned (pos n) = n % 2 ^ 32
to_unsigned (negsuc n) = (2 ^ 32 - suc n % 2 ^ 32) % 2 ^ 32

-- How many NANs stand between the file's end and the first datapoint.
unfoldable pub nan_padding : DenseFile → Datapoint → ℕ
nan_padding f p =
    if ltb_ℤ f.max_timestamp p.timestamp
    then to_unsigned ((p.timestamp -ℤ f.max_timestamp) /ℤ f.duration)
    else 0

-- The value at a position; `behind` is what memory holds behind the end of the buffer.
abbrev pub value_of : ℕ → Option Datapoint → ℕ
value_of behind none = behind
value_of behind (some p) = p.value

-- The loop that takes `n` values: each time the value where `it++` points to.
unfoldable pub take_values : ℕ → ℕ → List Datapoint → ℕ → List ℕ
unfolding postfix_increment
take_values behind zero buffer it = []
take_values behind (suc n) buffer it =
    value_of behind (get_elem? buffer (postfix_increment it).0)
    ∷ take_values behind n buffer (postfix_increment it).1

-- The offset in the file, in bytes.
unfoldable pub write_offset : DenseFile → Datapoint → ℤ
write_offset f p = (min_ℤ p.timestamp f.max_timestamp /ℤ f.duration) *ℤ pos 8

module _ {D : Type 0} (fs : FileSystem D) (dir : List ℕ) (max_dense_nan_gap behind : ℕ) where
  -- From lseek on, which fails below 0.
  abbrev pub write_values_from : DenseFile → ℕ → ℕ → List ℕ → ℤ → D → Outcome (D × DenseFile × ℕ)
  write_values_from f nans total values (negsuc offset) d = thrown (d, f, 0)
  write_values_from f nans total values (pos offset) d =
      and_then (fs.write_values_at d (dense_path dir f) offset values)
        (λ d'. returned (
          d',
          record f { max_timestamp = f.max_timestamp +ℤ pos total *ℤ f.duration },
          total - nans,
        ))
        (λ d'. (d', f, 0))

  abbrev pub write_opened :
      DenseFile → ℕ → ℕ → List ℕ → ℤ → D → Option D → Outcome (D × DenseFile × ℕ)
  write_opened f nans total values offset d none = thrown (d, f, 0)
  write_opened f nans total values offset d (some d') =
      write_values_from f nans total values offset d'

  -- Something is to be written, from the datapoint `p` on.
  abbrev pub write_from :
      DenseFile → WriteOperation → ℕ → D → Option Datapoint → Outcome (D × DenseFile × ℕ)
  write_from f op n d none = running
  write_from f op n d (some p) =
      let nans : ℕ = nan_padding f p in
      if ltb max_dense_nan_gap nans
      then returned (d, f, 0)
      else write_opened f nans (n + nans)
          (replicate nans double_nan ++ take_values behind n op.buffer op.cursor) (write_offset f p)
          d (fs.open_file d (dense_path dir f))

  unfoldable pub dense_write : D → DenseFile → WriteOperation → Outcome (D × DenseFile × ℕ)
  unfolding writable_datapoints nan_padding take_values write_offset
  dense_write d f op =
      let n : ℕ = writable_datapoints op in
      if n == 0 then returned (d, f, 0) else write_from f op n d (get_elem? op.buffer op.cursor)
