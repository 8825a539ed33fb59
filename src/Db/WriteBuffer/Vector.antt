-- ===== src/Db/WriteBuffer/Vector.antt =====
-- vqro/db/write_buffer.h: GetIOVector of the buffer's iterators. An entry of the vector is the place
-- that it is stored at, the allocation and the offset that it points to, and its length in datapoints.
pub mod Laws
pub mod OneAlloc
use vqro.Base.{
  ℕ, zero, suc, ◌+◌, ◌-◌, ◌*◌, ◌/◌, ◌%◌, ◌^◌, ◌<◌, ◌≤◌, ℤ, pos, min_ℤ, pos_part, neg_part, sub_ℕ,
  ltb, leb, ◌==◌, ◌&&◌, List, [], ◌∷◌, if◌then◌else◌, min, Bool,
}
use vqro.Db.Datapoint.{Datapoint}
use vqro.Db.Order.{upper_bound}
use vqro.Db.WriteBuffer.{WriteBuffer, sort, values}

pub record Entry : Type 0 where
  pub slot : ℕ
  pub alloc_index : ℕ
  pub alloc_offset : ℕ
  pub alloc_usable : ℕ

pub record IoVector : Type 0 where
  pub iov_count : ℕ
  pub entries : List Entry
  pub writable_datapoints : ℕ

-- A number of 64 bits, stored in an `int`.
unfoldable pub to_int : ℕ → ℤ
to_int n = if ltb (n % 2 ^ 32) (2 ^ 31) then pos (n % 2 ^ 32) else sub_ℕ (n % 2 ^ 32) (2 ^ 32)

-- An `int`, stored in a size_t.
unfoldable pub to_size : ℤ → ℕ
to_size n = (pos_part n + 2 ^ 64 - neg_part n) % 2 ^ 64

abbrev pub usable : ℕ → ℕ → ℕ → ℕ → ℕ
usable per_alloc last i max_writable = min (last - i) (min (per_alloc - i % per_alloc) max_writable)

abbrev pub entry_at : ℕ → ℕ → ℕ → Entry
entry_at per_alloc i n = record {
  slot = i / per_alloc;
  alloc_index = i / per_alloc;
  alloc_offset = i % per_alloc;
  alloc_usable = n;
}

-- The loop, up to position `last`. Every round but the last advances, so `last - i` rounds are enough.
unfoldable pub entries_from : ℕ → ℕ → ℕ → ℕ → ℕ → List Entry × ℕ
entries_from zero per_alloc last i max_writable = ([], i)
entries_from (suc fuel) per_alloc last i max_writable =
    let n : ℕ = usable per_alloc last i max_writable in
    let rest : List Entry × ℕ = entries_from fuel per_alloc last (i + n) (max_writable - n) in
    if ltb i last && ltb 0 max_writable then (entry_at per_alloc i n ∷ rest.0, rest.1) else ([], i)

-- The number of entries that are allocated.
unfoldable pub count_iovecs : ℕ → ℕ → ℕ → ℕ → ℕ
unfolding to_int to_size
count_iovecs per_alloc last position max_writable =
    let max_iovecs : ℕ =
      max_writable / per_alloc + (if max_writable % per_alloc == 0 then 0 else 1) in
    to_size (min_ℤ (to_int max_iovecs) (to_int ((last - 1) / per_alloc + 1 - position / per_alloc)))

abbrev no_vector : IoVector
no_vector = record { iov_count = 0; entries = []; writable_datapoints = 0 }

abbrev pub sorted_first : WriteBuffer → WriteBuffer
sorted_first wb = if wb.sorted then wb else sort wb

abbrev pub vector_upto : ℕ → ℕ → ℕ → ℕ → IoVector
vector_upto per_alloc last position max_writable =
    let made : List Entry × ℕ =
      entries_from (last - position) per_alloc last position max_writable in
    if leb last position then no_vector else record {
      iov_count = count_iovecs per_alloc last position max_writable;
      entries = made.0;
      writable_datapoints = made.1 - position;
    }

-- GetIOVector. The buffer is sorted first, if it is not; the vector ends before the first datapoint
-- later than `max_time`.
unfoldable pub get_iovector : WriteBuffer → ℕ → ℕ → ℤ → WriteBuffer × IoVector
unfolding sort values upper_bound entries_from count_iovecs
get_iovector wb position max_writable max_time =
    let ready : WriteBuffer = sorted_first wb in
    if wb.num_datapoints == 0 then (wb, no_vector) else (
      ready,
      vector_upto ready.datapoints_per_alloc (upper_bound max_time (values ready)) position
          max_writable,
    )
