-- ===== src/Db/RawBuffer.antt =====
-- vqro/db/raw_buffer.h: a write operation's view of an array of datapoints.
pub mod Laws
use vqro.Base.{
  ℕ, zero, suc, ◌+◌, ◌-◌, min, ltb, ◌==◌, ℤ, ltb_ℤ, List, Option, none, some, length, get_elem?,
  Bool, false, if◌then◌else◌,
}
use vqro.Db.Datapoint.{Datapoint}
use vqro.Db.WriteOp.Iterator.{Iterator}

-- What GetIOVector gives: the number of vectors, where the one vector begins, its length as it is
-- stored in `iov_len`, and the number of datapoints.
pub record RawVector : Type 0 where
  pub iov_count : ℕ
  pub iov_base : ℕ
  pub iov_len : ℕ
  pub writable_datapoints : ℕ

abbrev pub is_later : ℤ → Option Datapoint → Bool
is_later max_time none = false
is_later max_time (some p) = ltb_ℤ max_time p.timestamp

-- The loop that leaves out the datapoints at the end that are later than `max_time`.
unfoldable pub trim : List Datapoint → ℕ → ℤ → ℕ → ℕ
trim points position max_time zero = 0
trim points position max_time (suc n) =
    let shorter : ℕ = trim points position max_time n in
    if is_later max_time (get_elem? points (position + n)) then shorter else suc n

-- The length of the vector is a number of datapoints, though `iov_len` counts bytes.
unfoldable pub raw_iovector : List Datapoint → ℕ → ℕ → ℤ → RawVector
unfolding trim
raw_iovector points position max_writable max_time =
    let left : ℕ = if ltb position (length points) then length points - position else 0 in
    let n : ℕ = trim points position max_time (min left max_writable) in
    if n == 0
    then record { iov_count = 0; iov_base = 0; iov_len = 0; writable_datapoints = 0 }
    else record { iov_count = 1; iov_base = position; iov_len = n; writable_datapoints = n }

-- begin and end, by what ValueAt yields at a position of the array, if it is one. A clone has the same
-- array and length.
unfoldable pub raw_begin : List Datapoint → Iterator (Option Datapoint)
raw_begin points = record { value_at = get_elem? points; place = 0 }

unfoldable pub raw_end : List Datapoint → Iterator (Option Datapoint)
raw_end points = record { value_at = get_elem? points; place = length points }
