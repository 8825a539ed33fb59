-- ===== src/Db/ConstantFile.antt =====
-- vqro/db/constant_file.cc: Read and Write. The file has no contents; its name holds all there is.
pub mod Laws
use vqro.Base.{
  ℕ, zero, suc, ◌+◌, ℤ, pos, negsuc, ◌+ℤ◌, ◌-ℤ◌, ◌*ℤ◌, ◌/ℤ◌, ◌%ℤ◌, min_ℤ, ltb_ℤ, eqb_ℤ, List, ◌==◌,
  Bool, if◌then◌else◌, Outcome, returned, thrown, running,
}
use vqro.Db.Datapoint.{Datapoint}
use vqro.Db.ReadOp.{ReadOperation, append}
use vqro.Db.WriteOp.{WriteOperation, writable_datapoints}
use vqro.Db.FileName.{ConstantFile, constant_name}

-- `next_time` is moved up to a multiple of the duration.
unfoldable pub align : ℤ → ReadOperation → ReadOperation
align duration op =
    if eqb_ℤ (op.next_time %ℤ duration) (pos 0)
    then op
    else record op { next_time = (op.next_time /ℤ duration +ℤ pos 1) *ℤ duration }

-- The loop that stores a datapoint at `next_time` and advances. It does not ask for space.
unfoldable pub repeat : ℕ → ℤ → ℕ → ReadOperation → ReadOperation
repeat zero duration value op = op
repeat (suc n) duration value op =
    repeat n duration value
      (append op (record { timestamp = op.next_time; value = value; duration = duration }))

-- The loop `while (datapoints_to_read--)` does not end at 0 where it begins below.
abbrev pub repeat_from : ℤ → ℤ → ℕ → ReadOperation → Outcome ReadOperation
repeat_from (pos n) duration value op = returned (repeat n duration value op)
repeat_from (negsuc n) duration value op = running

abbrev pub constant_points : ConstantFile → ReadOperation → ℤ
constant_points f op = (min_ℤ f.max_timestamp op.end_time -ℤ op.next_time) /ℤ f.duration

abbrev pub read_aligned : ConstantFile → ReadOperation → Outcome ReadOperation
read_aligned f op =
    if ltb_ℤ f.max_timestamp op.next_time
    then returned op
    else repeat_from (constant_points f op) f.duration f.value op

unfoldable pub constant_read : ConstantFile → ReadOperation → Outcome ReadOperation
unfolding align repeat
constant_read f op = read_aligned f (align f.duration op)

-- Write, with rename() as an argument: it is given the old and the new name and tells if it succeeds.
-- The counters have been changed when it fails.
unfoldable pub constant_write :
    (List ℕ → List ℕ → Bool) → ConstantFile → WriteOperation → Outcome (ConstantFile × ℕ)
unfolding constant_name writable_datapoints
constant_write rename f op =
    let n : ℕ = writable_datapoints op in
    let grown : ConstantFile = record f {
      count = f.count +ℤ pos n;
      max_timestamp = f.min_timestamp +ℤ (f.count +ℤ pos n) *ℤ f.duration;
    } in
    if n == 0
    then returned (f, 0)
    else if rename (constant_name f) (constant_name grown)
    then returned (grown, n)
    else thrown (grown, 0)
