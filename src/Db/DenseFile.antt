-- ===== src/Db/DenseFile.antt =====
-- vqro/db/dense_file.cc: Read. `disk` is what the file holds, as the bit patterns of its doubles; it is
-- `none` where open() fails.
pub mod Laws
pub mod Write
use vqro.Base.{
  ℕ, zero, suc, ℤ, pos, negsuc, ◌+ℤ◌, ◌-ℤ◌, ◌*ℤ◌, ◌/ℤ◌, min_ℤ, ltb_ℤ, ltb, List, [], ◌∷◌, take,
  drop, Option, none, some, Bool, if◌then◌else◌, Outcome, returned, thrown, running,
}
use vqro.Db.Datapoint.{Datapoint, isnan}
use vqro.Db.ReadOp.{ReadOperation, append, datapoints_in_buffer}
use vqro.Db.FileName.{DenseFile}
use vqro.Db.ConstantFile.{align}
use vqro.Db.WriteBuffer.Vector.{to_int}

-- The loop over the values that were read. A NAN is passed, and `next_time` stays where it is. Space is
-- not asked for: `none` stands for a datapoint that is stored behind the end of the client's buffer,
-- where anything may happen.
unfoldable pub dense_loop : ℤ → List ℕ → ReadOperation → Option ReadOperation
unfolding isnan
dense_loop duration [] op = some op
dense_loop duration (v ∷ vs) op =
    let skip : Option ReadOperation = dense_loop duration vs op in
    let store : Option ReadOperation =
      dense_loop duration vs
        (append op (record { timestamp = op.next_time; value = v; duration = duration })) in
    if isnan v then skip else if ltb (datapoints_in_buffer op) op.buffer_size then store else none

abbrev pub all_stored : Option ReadOperation → Option (Outcome ReadOperation)
all_stored none = none
all_stored (some op) = some (returned op)

-- The number of values asked for is an `int`, and a vector cannot have a negative size.
abbrev pub read_from : ℤ → ℕ → ℤ → List ℕ → ReadOperation → Option (Outcome ReadOperation)
read_from duration offset (pos n) values op =
    all_stored (dense_loop duration (take n (drop offset values)) op)
read_from duration offset (negsuc n) values op = some (thrown op)

abbrev pub as_int : ℤ → ℤ
as_int (pos n) = to_int n
as_int (negsuc n) = negsuc n

-- From lseek() on, which fails at an offset below zero.
abbrev pub read_at : ℤ → ℤ → ℤ → List ℕ → ReadOperation → Option (Outcome ReadOperation)
read_at duration (pos offset) count values op = read_from duration offset (as_int count) values op
read_at duration (negsuc offset) count values op = some (thrown op)

abbrev pub read_opened :
    DenseFile → Option (List ℕ) → ReadOperation → Option (Outcome ReadOperation)
read_opened f none op = some (thrown op)
read_opened f (some values) op =
    read_at f.duration ((op.next_time -ℤ f.min_timestamp) /ℤ f.duration)
      ((min_ℤ f.max_timestamp op.end_time -ℤ op.next_time) /ℤ f.duration) values op

abbrev pub dense_aligned :
    DenseFile → Option (List ℕ) → ReadOperation → Option (Outcome ReadOperation)
dense_aligned f disk op =
    if ltb_ℤ f.max_timestamp op.next_time then some (returned op) else read_opened f disk op

unfoldable pub dense_read :
    DenseFile → Option (List ℕ) → ReadOperation → Option (Outcome ReadOperation)
unfolding align dense_loop to_int
dense_read f disk op = dense_aligned f disk (align f.duration op)
