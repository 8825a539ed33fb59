-- ===== src/Db/WriteBuffer.antt =====
-- vqro/db/write_buffer.{h,cc}. Allocations succeed; what aligned_alloc leaves in a new allocation is
-- the argument `fresh`.
pub mod Blocks
pub mod Laws
pub mod Order
pub mod Vector
pub mod Sorting
use vqro.Base.{
  ℕ, zero, suc, ◌+◌, ◌-◌, ◌*◌, ◌/◌, ◌%◌, ℤ, Option, none, some, List, [], ◌∷◌, ◌++◌, Bool, true,
  false, not, ◌&&◌, ltb_ℤ, ◌==◌, if◌then◌else◌, length, get_elem?, set, replicate,
}
use Blocks.{in_block, set_block}
use vqro.Db.Datapoint.{Datapoint, isnan}
use vqro.Db.Order.{stable_sort}

pub record WriteBuffer : Type 0 where
  pub datapoints_per_alloc : ℕ
  pub allocs : List (List Datapoint)
  pub num_datapoints : ℕ
  pub sorted : Bool

-- The bytes of a datapoint.
abbrev pub datapoint_size : ℕ
datapoint_size = 24

-- The constructor: `alloc_size` bytes are the pages of one allocation.
unfoldable pub new_buffer : ℕ → ℕ → WriteBuffer
new_buffer pagesize pages_per_alloc = record {
  datapoints_per_alloc = (pagesize * pages_per_alloc) / datapoint_size;
  allocs = [];
  num_datapoints = 0;
  sorted = true;
}

unfoldable pub size : WriteBuffer → ℕ
size wb = wb.num_datapoints

unfoldable pub is_empty : WriteBuffer → Bool
is_empty wb = wb.num_datapoints == 0

unfoldable pub clear : WriteBuffer → WriteBuffer
clear wb = record wb { allocs = []; num_datapoints = 0; sorted = true }

-- WriteIterImpl::ValueAt; `none` is a read outside of the allocations.
unfoldable pub value_at : WriteBuffer → ℕ → Option Datapoint
value_at wb i =
    in_block (get_elem? wb.allocs (i / wb.datapoints_per_alloc)) (i % wb.datapoints_per_alloc)

-- A write through the reference that ValueAt returns.
unfoldable pub store_at : WriteBuffer → ℕ → Datapoint → WriteBuffer
store_at wb i p =
    let k : ℕ = i / wb.datapoints_per_alloc in
    record wb {
      allocs = set_block wb.allocs k (get_elem? wb.allocs k) (i % wb.datapoints_per_alloc) p;
    }

-- GetNextDatapoint: a new allocation if the next datapoint does not fit the last one.
unfoldable pub get_next_datapoint : Datapoint → WriteBuffer → WriteBuffer
get_next_datapoint fresh wb =
    if wb.num_datapoints / wb.datapoints_per_alloc == length wb.allocs
    then record wb { allocs = wb.allocs ++ replicate wb.datapoints_per_alloc fresh ∷ [] }
    else wb

-- Is the datapoint before the one that this call of Append wrote last?
abbrev goes_back : Datapoint → Option Datapoint → Bool
goes_back next none = false
goes_back next (some previous) = ltb_ℤ next.timestamp previous.timestamp

-- One datapoint that is not NAN.
unfoldable pub append_one : Datapoint → WriteBuffer → Option Datapoint → Datapoint → WriteBuffer
unfolding get_next_datapoint store_at
append_one fresh wb previous next =
    let grown : WriteBuffer = get_next_datapoint fresh wb in
    let stored : WriteBuffer = store_at grown grown.num_datapoints next in
    record stored {
      num_datapoints = suc stored.num_datapoints;
      sorted = if stored.sorted && goes_back next previous then false else stored.sorted;
    }

unfoldable pub append_loop :
    Datapoint → WriteBuffer → Option Datapoint → List Datapoint → WriteBuffer
unfolding append_one isnan
append_loop fresh wb previous [] = wb
append_loop fresh wb previous (p ∷ ps) =
    let skip : WriteBuffer = append_loop fresh wb previous ps in
    let go_on : WriteBuffer = append_loop fresh (append_one fresh wb previous p) (some p) ps in
    if isnan p.value then skip else go_on

-- Append: `previous` starts out as nullptr in every call.
unfoldable pub append : Datapoint → WriteBuffer → List Datapoint → WriteBuffer
unfolding append_loop
append fresh wb points = append_loop fresh wb none points

-- The datapoints from position `i` on, as many as asked for.
unfoldable pub values_from : ℕ → ℕ → WriteBuffer → List Datapoint
unfolding value_at
values_from zero i wb = []
values_from (suc n) i wb = elim (value_at wb i) [
  | none ↦ []
  | some p ↦ p ∷ values_from n (suc i) wb
]

-- What iteration from begin() to end() yields.
unfoldable pub values : WriteBuffer → List Datapoint
unfolding values_from
values wb = values_from wb.num_datapoints 0 wb

unfoldable pub store_from : ℕ → List Datapoint → WriteBuffer → WriteBuffer
unfolding store_at
store_from i [] wb = wb
store_from i (p ∷ ps) wb = store_from (suc i) ps (store_at wb i p)

unfoldable pub sort : WriteBuffer → WriteBuffer
unfolding values store_from stable_sort
sort wb = record (store_from 0 (stable_sort (values wb)) wb) { sorted = true }
