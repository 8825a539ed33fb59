-- ===== src/Db/WriteOp.antt =====
-- vqro/db/write_op.h and the iterators of vqro/db/datapoint_buffer.h. A buffer is the list of its
-- datapoints, an iterator a position in it.
pub mod Laws
pub mod Iterator
use vqro.Base.{
  ℕ, zero, suc, ◌+◌, ◌-◌, ◌^◌, ℤ, List, [], ◌∷◌, Bool, ◌&&◌, ltb_ℤ, ltb, ◌==◌, if◌then◌else◌,
  length, drop, get_elem?, Option, int64_max,
}
use vqro.Db.Datapoint.{Datapoint}

pub record WriteOperation : Type 0 where
  pub buffer : List Datapoint
  pub cursor : ℕ
  pub max_writable_datapoints : ℕ
  pub max_writable_timestamp : ℤ

-- The constructor; -1 as a size_t is the largest.
unfoldable pub write_operation : List Datapoint → WriteOperation
write_operation buffer = record {
  buffer = buffer;
  cursor = 0;
  max_writable_datapoints = 2 ^ 64 - 1;
  max_writable_timestamp = int64_max;
}

unfoldable pub write_complete : WriteOperation → Bool
write_complete op = op.cursor == length op.buffer

-- The two operators ++ of the iterator: each returns the iterator that stands for its result, and the
-- new position. The one declared without an argument, the prefix form, returns the old position, and
-- the one with an argument, the postfix form, the new one.
unfoldable pub prefix_increment : ℕ → ℕ × ℕ
prefix_increment i = (i, i + 1)

unfoldable pub postfix_increment : ℕ → ℕ × ℕ
postfix_increment i = (i + 1, i + 1)

abbrev pub remaining : WriteOperation → List Datapoint
remaining op = drop op.cursor op.buffer

-- The loop of WritableDatapoints, over the datapoints from the cursor on.
unfoldable pub count_writable : ℤ → ℕ → ℕ → List Datapoint → ℕ
count_writable max_time max_count writable [] = writable
count_writable max_time max_count writable (p ∷ ps) =
    let rest : ℕ = count_writable max_time max_count (writable + 1) ps in
    if ltb_ℤ p.timestamp max_time && ltb writable max_count then rest else writable

unfoldable pub writable_datapoints : WriteOperation → ℕ
unfolding count_writable
writable_datapoints op =
    count_writable op.max_writable_timestamp op.max_writable_datapoints 0 (remaining op)
