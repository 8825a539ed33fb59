-- ===== src/Tests/Writes.antt =====
-- Writing: the directory, a sparse file, the conversions of the optimizer, and the database.
use vqro.Base.{
  ℕ, suc, ℤ, pos, leb_ℤ, ltb, ◌-ℤ◌, ◌+ℤ◌, ◌/ℤ◌, ◌%ℤ◌, List, [], ◌∷◌, ◌++◌, get_elem?, Option, none,
  some, Bool, true, false, ◌&&◌, if◌then◌else◌, Outcome, returned, thrown, ◌≡◌, ◌≢◌, refl, arith,
  int64_min, int64_max, and_then,
}
use vqro.Db.Datapoint.{Datapoint}
use vqro.Db.ReadOp.{read_operation}
use vqro.Db.SparseFile.Read.{read_datapoints}
use vqro.Db.WriteOp.{WriteOperation, write_operation, writable_datapoints}
use vqro.Db.FileName.{SparseFile}
use vqro.Db.FileSystem.{FileSystem, absent, regular_file}
use vqro.Db.SparseFile.Write.{SparseEnv, sparse_write}
use vqro.Db.SparseFile.Write.Laws.{Covers, sparse_write-Covers}
use vqro.Db.Optimizer.{Limits, choose_format, sparse}
use vqro.Db.Optimizer.Convert.{handle_sparse_file_too_big, handle_sparse_file_too_big-thrown}
use vqro.Db.Directory.Write.{FileWriter, Writing, write_loop, write_round}
use vqro.Db.Directory.Write.Ordered.{KeepsStart, SameStart}
use vqro.Db.Directory.Write.FullFile.{full_file-Disordered, Disordered}
use vqro.Db.Database.GetSeries.{find, series_key, text_eq, get_series, series}
use vqro.Db.Database.Write.{write_database, wrote}
use vqro.Db.Database.Write.Laws.{Indexing, write_database-find}
use vqro.Tests.{point}

-- A file is its first timestamp, the disk the list of all datapoints; a write takes one at most.
abbrev pub put : List Datapoint → ℤ → Bool → Datapoint → Outcome (List Datapoint × ℤ × ℕ)
put d f allowed p = if allowed then returned (d ++ p ∷ [], f, 1) else returned (d, f, 0)

abbrev pub write_one :
    List Datapoint → ℤ → WriteOperation → Option Datapoint → Outcome (List Datapoint × ℤ × ℕ)
write_one d f op none = returned (d, f, 0)
write_one d f op (some p) =
    put d f (leb_ℤ p.timestamp op.max_writable_timestamp && ltb 0 op.max_writable_datapoints) p

-- All files have the same space left.
abbrev pub one_by_one : Option ℕ → FileWriter (List Datapoint) ℤ
one_by_one space = record {
  min_timestamp = λ f. f;
  remaining_writable = λ d f. space;
  write = λ d f op. write_one d f op (get_elem? op.buffer op.cursor);
  new_sparse = λ t. t;
  sparse_capacity = 5;
}

write_one-SameStart :
    (space : Option ℕ) (d : List Datapoint) (f : ℤ) (op : WriteOperation) (o : Option Datapoint)
    → SameStart (one_by_one space) f (write_one d f op o)
write_one-SameStart space d f op none = refl
write_one-SameStart space d f op (some p) =
    elim (leb_ℤ p.timestamp op.max_writable_timestamp && ltb 0 op.max_writable_datapoints)
      as (λ b. SameStart (one_by_one space) f (put d f b p)) [ true ↦ refl | false ↦ refl ]

one_by_one-KeepsStart : (space : Option ℕ) → KeepsStart (one_by_one space)
one_by_one-KeepsStart space = record {
  same_start = λ d f op. write_one-SameStart space d f op (get_elem? op.buffer op.cursor);
  new_start = λ t. refl;
}

abbrev three_times : WriteOperation
three_times = record {
  buffer = point 5 1 1 ∷ point 10 2 1 ∷ point 20 3 1 ∷ [];
  cursor = 0;
  max_writable_datapoints = 9;
  max_writable_timestamp = pos 99;
}

-- One file that begins at 10.
abbrev at_ten : Writing (List Datapoint) ℤ
at_ten = record { disk = []; datapoint_files = pos 10 ∷ []; file_it = 0; write_op = three_times }

-- A file for the first datapoint goes in front, and one for the last behind.
abbrev all_written : Writing (List Datapoint) ℤ
all_written = record {
  disk = point 5 1 1 ∷ point 10 2 1 ∷ point 20 3 1 ∷ [];
  datapoint_files = pos 5 ∷ pos 10 ∷ pos 20 ∷ [];
  file_it = 3;
  write_op = record three_times {
    cursor = 3;
    max_writable_datapoints = 5;
    max_writable_timestamp = int64_max;
  };
}

write_loop_test : write_loop (one_by_one (some 4)) 5 at_ten ≡ returned all_written
unfolding write_loop ◌-ℤ◌
write_loop_test = refl

full_file-Disordered_example : Disordered (one_by_one (some 0)) (
    and_then
      (write_round
        (one_by_one (some 0))
        (pos 5)
        (record { disk = []; datapoint_files = pos 10 ∷ []; file_it = 0; write_op = three_times }))
      (write_round (one_by_one (some 0)) (pos 5))
      (λ v. v))
full_file-Disordered_example =
    full_file-Disordered (one_by_one (some 0)) (one_by_one-KeepsStart (some 0)) [] (pos 10) (pos 5)
      three_times (omega arith) refl

-- A disk that takes everything, and counts the calls; each file has 10 bytes.
abbrev pub willing : FileSystem ℕ
willing = record {
  stat = λ d path. regular_file 10;
  open_file = λ d path. some (suc d);
  append_vector = λ d path bytes. returned (suc d);
  write_values_at = λ d path offset values. returned (suc d);
  rename = λ d old new. some (suc d);
  unlink = λ d path. some (suc d);
  mkdir = λ d path. some (suc d);
  is_missing_parent = λ d path. false;
}

abbrev an_env : SparseEnv ℕ
an_env = record {
  dir = b'd' ∷ [];
  sparse_file_optimize_size = 100;
  sparse_file_max_size = 1000;
  get_iovector = λ op. ((1 ∷ []) ∷ [], 1);
  sparse_file_too_big = λ d f. returned d;
}

abbrev a_sparse_file : SparseFile
a_sparse_file = record { min_timestamp = pos 5; max_timestamp = pos 6; optimized = false }

-- The file is opened, written and renamed: three calls.
sparse_write_test :
    sparse_write willing an_env 0 a_sparse_file three_times
    ≡ returned (3, record a_sparse_file { max_timestamp = pos 20 }, 1)
unfolding sparse_write
sparse_write_test = refl

sparse_write-Covers_example :
    Covers a_sparse_file three_times (sparse_write willing an_env 0 a_sparse_file three_times)
sparse_write-Covers_example = sparse_write-Covers willing an_env a_sparse_file three_times 0

-- A disk without files.
abbrev empty_disk : FileSystem ℕ
empty_disk = record willing { stat = λ d path. absent; rename = λ d old new. none }

abbrev low_limits : Limits
low_limits = record {
  min_datapoints_for_dense = 1;
  min_datapoints_for_constant = 1;
  max_dense_nan_padding = 2;
  read_buffer_size = 9;
}

-- Two values that lie on a grid: they are to be converted to a dense file.
abbrev on_grid : List Datapoint
on_grid = point 10 1 5 ∷ point 15 9 5 ∷ []

abbrev never_near : ℕ → ℕ → Bool
never_near a b = false

grid_read :
    (read_datapoints on_grid
      (read_operation int64_min int64_max int64_max true low_limits.read_buffer_size)).buffer
    ≡ on_grid
unfolding read_datapoints read_operation ◌+ℤ◌ ◌-ℤ◌
grid_read = refl

grid_dense : choose_format never_near low_limits on_grid ≢ sparse
unfolding choose_format ◌-ℤ◌ ◌/ℤ◌ ◌%ℤ◌
grid_dense = λ e. cc

handle_sparse_file_too_big-thrown_example :
    handle_sparse_file_too_big empty_disk
      (λ d. returned d)
      (b'd' ∷ [])
      4
      0
      never_near
      low_limits
      7
      a_sparse_file
      on_grid
    ≡ thrown 7
unfolding ◌+ℤ◌ ◌-ℤ◌ ◌/ℤ◌ ◌%ℤ◌ writable_datapoints write_operation
handle_sparse_file_too_big-thrown_example =
    handle_sparse_file_too_big-thrown empty_disk (λ d. returned d) (b'd' ∷ []) 4 0 never_near
      low_limits 7 a_sparse_file on_grid (point 15 9 5 ∷ []) (point 10 1 5) (λ old new e. refl)
      grid_read grid_dense refl refl refl

-- A series is the list of its values; its indexing fails.
abbrev failing_index : List ℕ → ℕ → Outcome (ℕ × List ℕ)
failing_index s c = thrown (suc c, s)

abbrev name_label : List (List ℕ × List ℕ)
name_label = ((b'a' ∷ []), (b'b' ∷ [])) ∷ []

abbrev new_list : List (List ℕ × List ℕ) → List ℕ → List ℕ
new_list labels key = 1 ∷ []

new_one : get_series new_list [] name_label ≡ series (1 ∷ []) ((series_key name_label, 1 ∷ []) ∷ [])
unfolding get_series series_key
new_one = refl

write_database-find_example :
    (after : List (List ℕ × List ℕ)) × (c' : ℕ) × (s' : List ℕ) × (write_database new_list
        (λ s ps. s ++ ps)
        (λ s. false)
        failing_index
        false
        []
        0
        name_label
        (2 ∷ 3 ∷ [])
      ≡ wrote after c')
    × Indexing new_list (λ s ps. s ++ ps) (λ s. false) failing_index 0 (1 ∷ 2 ∷ 3 ∷ []) c' s'
    × (find (series_key name_label) after ≡ some s')
    × ((other : List ℕ)
        → text_eq (series_key name_label) other ≡ false
        → find other after ≡ find other ((series_key name_label, 1 ∷ []) ∷ []))
write_database-find_example =
    write_database-find new_list (λ s ps. s ++ ps) (λ s. false) failing_index []
      ((series_key name_label, 1 ∷ []) ∷ []) 0 name_label (2 ∷ 3 ∷ []) (1 ∷ []) new_one tt
