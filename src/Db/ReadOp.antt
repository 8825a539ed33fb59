-- ===== src/Db/ReadOp.antt =====
-- vqro/db/read_op.h. The part of the client's buffer that is filled, from `buffer` to `cursor`, is
-- the list `buffer`, so moving the cursor past a datapoint that was stored appends it.
pub mod Chain
use vqro.Base.{
  ℕ, ◌+◌, ◌-◌, ◌%◌, ◌^◌, ℤ, pos, ◌+ℤ◌, Bool, not, List, [], ◌∷◌, ◌++◌, ◌==◌, eqb_ℤ, leb_ℤ, length,
  if◌then◌else◌,
}
use vqro.Db.Datapoint.{Datapoint}

pub record ReadOperation : Type 0 where
  pub start_time : ℤ
  pub next_time : ℤ
  pub end_time : ℤ
  pub datapoint_limit : ℤ
  pub prefer_latest : Bool
  pub buffer : List Datapoint
  pub buffer_size : ℕ

-- The constructor: the cursor is at the start of the buffer.
unfoldable pub read_operation : ℤ → ℤ → ℤ → Bool → ℕ → ReadOperation
read_operation start end limit latest size = record {
  start_time = start;
  next_time = start;
  end_time = end;
  datapoint_limit = limit;
  prefer_latest = latest;
  buffer = [];
  buffer_size = size;
}

-- The first time that a datapoint does not cover: one of duration zero lasts one tick.
abbrev pub time_after : Datapoint → ℤ
time_after p = p.timestamp +ℤ (if eqb_ℤ p.duration (pos 0) then pos 1 else p.duration)

-- Append and Advance: the datapoint is stored at the cursor, and the cursor moves past it.
abbrev pub append : ReadOperation → Datapoint → ReadOperation
append op point = record op { next_time = time_after point; buffer = op.buffer ++ point ∷ [] }

abbrev pub datapoints_in_buffer : ReadOperation → ℕ
datapoints_in_buffer op = length op.buffer

-- `buffer_size - DatapointsInBuffer()`, in 64 bits without sign.
abbrev pub space_left : ReadOperation → ℕ
space_left op = (op.buffer_size + 2 ^ 64 - datapoints_in_buffer op) % 2 ^ 64

-- SpaceLeft() as a test.
abbrev pub has_space : ReadOperation → Bool
has_space op = not (space_left op == 0)

unfoldable pub clear_buffer : ReadOperation → ReadOperation
clear_buffer op = record op { buffer = [] }

abbrev pub complete : ReadOperation → Bool
complete op = leb_ℤ op.end_time op.next_time
