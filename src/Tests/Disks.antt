-- ===== src/Tests/Disks.antt =====
-- SparseFile::Write on a disk that has the names of its files and its datapoints.
use native.Mathlib.Decide.{ℕ_discrete}
use vqro.Base.{
  ℕ, zero, suc, ℤ, pos, negsuc, List, [], ◌∷◌, ◌++◌, map, length, take, drop, flatten, none, some,
  Bool, true, false, returned, Ends, ◌≡◌, refl, sym, ap, ◌∙◌,
}
use vqro.Db.Datapoint.{Datapoint}
use vqro.Db.WriteOp.{WriteOperation, write_operation}
use vqro.Db.WriteBuffer.{WriteBuffer, values, values_from, value_at}
use vqro.Db.WriteBuffer.Vector.{IoVector, get_iovector}
use vqro.Db.Order.{upper_bound}
use vqro.Db.Decimal.{to_string}
use vqro.Db.FileName.{SparseFile, sparse_name}
use vqro.Db.FileSystem.{FileSystem, Stat, absent, regular_file}
use vqro.Db.SparseFile.Write.{SparseEnv, sparse_write, sparse_path}
use vqro.Db.SparseFile.Write.Names.{path_discrete, StoresWell, IsAlone}
use vqro.Db.SparseFile.Write.Stored.{Stores, sparse_write-Stores}
use vqro.Tests.{point, three_points}

some-back : {A : Type 0} {a b : A} → some a ≡ some b → a ≡ b
some-back e = cc

abbrev pub Disk : Type 0
Disk = (List ℕ → Bool) × List Datapoint

-- `path` is there, or is not, as `b` says.
unfoldable pub set_name : List ℕ → Bool → (List ℕ → Bool) → List ℕ → Bool
set_name path b names q = elim (path_discrete q path) [ yes e ↦ b | no ne ↦ names q ]

set_name-same : (path : List ℕ) (b : Bool) (names : List ℕ → Bool) → set_name path b names path ≡ b
unfolding set_name
set_name-same path b names =
    elim (path_discrete path path) as (λ d. (elim d [ yes e ↦ b | no ne ↦ names path ]) ≡ b) [
      | yes e ↦ refl
      | no ne ↦ absurd (ne refl)
    ]

set_name-other :
    (path : List ℕ) (b : Bool) (names : List ℕ → Bool) (q : List ℕ)
    → ¬ (q ≡ path)
    → set_name path b names q ≡ names q
unfolding set_name
set_name-other path b names q other =
    elim (path_discrete q path) as (λ d. (elim d [ yes e ↦ b | no ne ↦ names q ]) ≡ names q) [
      | yes e ↦ absurd (other e)
      | no ne ↦ refl
    ]

abbrev stat_of : Bool → Stat
stat_of true = regular_file 24
stat_of false = absent

-- The bytes of a datapoint: the signs and sizes of its numbers.
abbrev sign_of : ℤ → ℕ
sign_of (pos n) = 0
sign_of (negsuc n) = 1

abbrev size_of_int : ℤ → ℕ
size_of_int (pos n) = n
size_of_int (negsuc n) = n

abbrev int_of : ℕ → ℕ → ℤ
int_of zero n = pos n
int_of (suc s) n = negsuc n

abbrev bytes_of : Datapoint → List ℕ
bytes_of p =
    sign_of p.timestamp
    ∷ size_of_int p.timestamp
    ∷ p.value
    ∷ sign_of p.duration
    ∷ size_of_int p.duration
    ∷ []

abbrev point_of : List ℕ → Datapoint
point_of (s ∷ t ∷ v ∷ r ∷ d ∷ rest) = record {
  timestamp = int_of s t;
  value = v;
  duration = int_of r d;
}
point_of bytes = point 0 0 0

-- A file that is given its own name stays.
abbrev renamed_on : Disk → (path new : List ℕ) → Dec (path ≡ new) → Disk
renamed_on d path new (yes e) = d
renamed_on d path new (no ne) = (set_name new true (set_name path false d.0), d.1)

abbrev pub named_disk : FileSystem Disk
named_disk = record {
  stat = λ d path. stat_of (d.0 path);
  open_file = λ d path. some (set_name path true d.0, d.1);
  append_vector = λ d path v. returned (d.0, d.1 ++ map point_of v);
  write_values_at = λ d path offset values. returned d;
  rename = λ d path new. some (renamed_on d path new (path_discrete path new));
  unlink = λ d path. none;
  mkdir = λ d path. none;
  is_missing_parent = λ d path. false;
}

-- The buffer of an operation, as a write buffer with one allocation.
abbrev pub buffer_of_op : WriteOperation → WriteBuffer
buffer_of_op op = record {
  datapoints_per_alloc = 8;
  allocs = op.buffer ∷ [];
  num_datapoints = length op.buffer;
  sorted = true;
}

unfoldable pub vector_of_op : WriteOperation → IoVector
unfolding get_iovector values values_from value_at upper_bound
vector_of_op op =
    (get_iovector (buffer_of_op op) op.cursor op.max_writable_datapoints
      op.max_writable_timestamp).1

-- What the places of a vector point to.
abbrev pub pointed_to : WriteOperation → IoVector → List (List ℕ) × ℕ
pointed_to op v = (
  map bytes_of (
      flatten (
        map (λ e. take e.alloc_usable (drop e.alloc_offset op.buffer))
          (take v.iov_count v.entries))),
  v.writable_datapoints,
)

abbrev pub all_at_once : SparseEnv Disk
all_at_once = record {
  dir = b'd' ∷ [];
  sparse_file_optimize_size = 10;
  sparse_file_max_size = 1000;
  get_iovector = λ op. pointed_to op (vector_of_op op);
  sparse_file_too_big = λ d f. returned d;
}

abbrev pub on_disk : Disk → List Datapoint
on_disk d = d.1

renamed_on-points :
    (d : Disk) (path new : List ℕ) (e : Dec (path ≡ new))
    → on_disk (renamed_on d path new e) ≡ on_disk d
renamed_on-points d path new (yes e) = refl
renamed_on-points d path new (no ne) = refl

renamed_on-old :
    (d : Disk) (path new : List ℕ) (e : Dec (path ≡ new))
    → ¬ (path ≡ new)
    → (renamed_on d path new e).0 path ≡ false
renamed_on-old d path new (yes e) other = absurd (other e)
renamed_on-old d path new (no ne) other =
    set_name-other new true (set_name path false d.0) path other ∙ set_name-same path false d.0

renamed_on-others :
    (d : Disk) (path new : List ℕ) (e : Dec (path ≡ new)) (q : List ℕ)
    → ¬ (q ≡ path)
    → ¬ (q ≡ new)
    → (renamed_on d path new e).0 q ≡ d.0 q
renamed_on-others d path new (yes e) q not_old not_new = refl
renamed_on-others d path new (no ne) q not_old not_new =
    set_name-other new true (set_name path false d.0) q not_new
    ∙ set_name-other path false d.0 q not_old

named_disk-StoresWell : StoresWell named_disk all_at_once on_disk (map point_of)
named_disk-StoresWell = record {
  opened = λ d d' path e. (
    sym (ap on_disk (some-back e)),
    λ q ne.
        ap (λ (t : Disk). stat_of (t.0 q)) (sym (some-back e))
        ∙ ap stat_of (set_name-other path true d.0 q ne),
  );
  appended = λ d path v. (refl, λ q ne. refl);
  renamed_to = λ d d' path new e free.
      ap on_disk (sym (some-back e)) ∙ renamed_on-points d path new (path_discrete path new);
  renamed_from = λ d d' path new e other.
      ap (λ (t : Disk). stat_of (t.0 path)) (sym (some-back e))
      ∙ ap stat_of (renamed_on-old d path new (path_discrete path new) other);
  renamed_others = λ d d' path new e q not_old not_new.
      ap (λ (t : Disk). stat_of (t.0 q)) (sym (some-back e))
      ∙ ap stat_of (renamed_on-others d path new (path_discrete path new) q not_old not_new);
  queued = λ d f. (refl, λ q. refl);
}

-- A file of the time 10, with one datapoint.
abbrev small_file : SparseFile
small_file = record { min_timestamp = pos 10; max_timestamp = pos 10; optimized = false }

abbrev small_disk : Disk
small_disk =
    (set_name (sparse_path all_at_once.dir small_file) true (λ q. false), point 10 9 5 ∷ [])

small_file-IsAlone : IsAlone named_disk all_at_once on_disk (map point_of) small_file small_disk
small_file-IsAlone g m ne = ap stat_of (
    set_name-other (sparse_path all_at_once.dir small_file) true (λ q. false)
      (sparse_path all_at_once.dir g) ne)

abbrev to_be_written : WriteOperation
unfolding write_operation
to_be_written = record (write_operation three_points) { max_writable_datapoints = 40 }

sparse_write-Stores_example :
    Stores named_disk all_at_once on_disk
      (map point_of)
      named_disk-StoresWell
      small_file
      to_be_written
      small_disk
      (sparse_write named_disk all_at_once small_disk small_file to_be_written)
sparse_write-Stores_example =
    sparse_write-Stores named_disk all_at_once on_disk (map point_of) named_disk-StoresWell
      small_file to_be_written small_disk small_file-IsAlone

-- All three datapoints are on disk, and the file has been renamed and marked.
small_file_test :
    let o = sparse_write named_disk all_at_once small_disk small_file to_be_written in
    Ends (λ r. on_disk r.0 ≡ point 10 9 5 ∷ three_points) o
unfolding sparse_write vector_of_op write_operation set_name path_discrete ℕ_discrete sparse_name
    to_string
small_file_test = refl
