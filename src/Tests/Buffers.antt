-- ===== src/Tests/Buffers.antt =====
-- The write buffer and its vectors for writing.
use vqro.Base.{◌≤◌, pos, ◌≡◌, refl, List, [], ◌∷◌, arith, true, ℕ, Bool, ◌==◌}
use vqro.Db.Datapoint.{isnan}
use vqro.Db.WriteBuffer.{
  WriteBuffer, new_buffer, append, append_one, append_loop, get_next_datapoint, store_at,
}
use vqro.Db.WriteBuffer.Laws.{IsValid, contents}
use vqro.Db.WriteBuffer.Vector.{Entry, vector_upto}
use vqro.Db.WriteBuffer.Vector.Laws.{vector_upto_overrun}
use vqro.Db.Optimizer.{Limits}
use vqro.Db.WriteOp.{WriteOperation}
use vqro.Tests.{point, three_points}

-- Two datapoints to an allocation, and three datapoints in use.
abbrev small_buffer : WriteBuffer
small_buffer = record {
  datapoints_per_alloc = 2;
  allocs = (point 1 1 1 ∷ point 2 2 1 ∷ []) ∷ (point 3 3 1 ∷ point 0 0 0 ∷ []) ∷ [];
  num_datapoints = 3;
  sorted = true;
}

small_buffer-IsValid : IsValid small_buffer
small_buffer-IsValid = record {
  positive = omega arith;
  blocks = (refl, (refl, tt));
  room = omega arith;
}

append_test : contents (append (point 0 0 0) (new_buffer 48 1) three_points) ≡ three_points
unfolding append append_loop append_one get_next_datapoint store_at new_buffer isnan
append_test = refl

vector_upto_overrun_example :
    (e : Entry) × (rest : List Entry) × ((vector_upto 2 4 2 5).entries ≡ e ∷ rest)
    × (vector_upto 2 4 2 5).iov_count ≤ e.slot
vector_upto_overrun_example =
    vector_upto_overrun 2 4 2 5 (omega arith) (omega arith) (omega arith) (omega arith)
      (omega arith) refl

abbrev some_write : WriteOperation
some_write = record {
  buffer = three_points;
  cursor = 1;
  max_writable_datapoints = 8;
  max_writable_timestamp = pos 20;
}

-- Two values are near only where they are equal.
abbrev exactly : ℕ → ℕ → Bool
exactly a b = a == b

abbrev small_limits : Limits
small_limits = record {
  min_datapoints_for_dense = 2;
  min_datapoints_for_constant = 2;
  max_dense_nan_padding = 4;
  read_buffer_size = 9;
}
