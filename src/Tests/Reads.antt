-- ===== src/Tests/Reads.antt =====
-- Reading: a sparse file, a directory, a series, the database; and a dense file.
use vqro.Base.{
  ◌⊎◌, none, ◌++◌, pos, ℤ, ◌%ℤ◌, ◌*◌, ◌/ℤ◌, some, ◌+ℤ◌, ◌/ℤ◌, ◌-ℤ◌, ◌≡◌, refl, List, [], ◌∷◌, arith,
  All, true, false, Ends, Halts, Bool-cases, inl, inr, eqb_ℤ, returned, running, flatten, ℕ, ◌^◌,
}
use vqro.Db.Datapoint.{Datapoint, isnan}
use vqro.Db.Order.{versions, from_lower_bound, stable_sort}
use vqro.Db.ReadOp.{ReadOperation}
use vqro.Db.ReadOp.Chain.{Spread}
use vqro.Db.SparseFile.Read.{read_datapoints, after_same_time, latest, same_time}
use vqro.Db.SparseFile.Laws.{read_datapoints-Extends}
use vqro.Db.SparseFile.Versions.{read_datapoints-LatestVersion, Adds, LatestVersion}
use vqro.Db.SparseFile.Complete.{read_datapoints-series, series}
use vqro.Db.Directory.Read.{Directory, read_directory}
use vqro.Db.Directory.Read.Laws.{ReadsWell, read_directory_hangs}
use vqro.Db.Series.Read.{Series, read_series}
use vqro.Db.Series.Read.Laws.{read_series-Reading}
use vqro.Db.Database.Read.{read_database}
use vqro.Db.Database.Read.Laws.{read_database-Spread}
use vqro.Db.Database.Read.Ends.{IsForward}
use vqro.Db.Database.Read.OneFile.{IsFine, read_database-one_file}
use vqro.Db.WriteBuffer.{sort, values, values_from, value_at}
use vqro.Db.DenseFile.{dense_read, dense_loop}
use vqro.Db.DenseFile.Laws.{dense_read-consecutive, HasRoom, wanted_part, consecutive, numbers}
use vqro.Db.WriteBuffer.Vector.{to_int}
use vqro.Db.FileName.{DenseFile}
use vqro.Db.ConstantFile.{align}
use vqro.Tests.{point, three_points, wide_read, memory, MemoryFile, memory_file}

read_datapoints-LatestVersion_example :
    Adds (LatestVersion three_points) wide_read (read_datapoints three_points wide_read)
read_datapoints-LatestVersion_example = read_datapoints-LatestVersion three_points wide_read

read_datapoints-series_example :
    (read_datapoints three_points wide_read).buffer ≡ point 10 1 5 ∷ point 20 3 5 ∷ []
unfolding series stable_sort from_lower_bound after_same_time ◌+ℤ◌ latest same_time
read_datapoints-series_example =
    read_datapoints-series three_points wide_read (omega arith) (omega arith) (omega arith, tt)

memory-ReadsWell : ReadsWell memory
memory-ReadsWell = record { extends = λ d f op. read_datapoints-Extends f.points op }

abbrev one_file : Directory MemoryFile
one_file = record { filenames_read = true; datapoint_files = memory_file ∷ [] }

abbrev three_files : Directory MemoryFile
three_files = record {
  filenames_read = true;
  datapoint_files = memory_file ∷ memory_file ∷ memory_file ∷ [];
}

abbrev late_read : ReadOperation
late_read = record wide_read { next_time = pos 50 }

read_directory_hangs_example : read_directory memory 9 tt three_files late_read ≡ running
read_directory_hangs_example =
    read_directory_hangs memory 9 tt three_files late_read refl (omega arith)
      (omega arith, (omega arith, (omega arith, tt)))

abbrev a_series : Series MemoryFile
a_series = record {
  write_buffer = record {
    datapoints_per_alloc = 2;
    allocs = (point 40 4 5 ∷ point 30 3 5 ∷ []) ∷ [];
    num_datapoints = 2;
    sorted = false;
  };
  data_dir = one_file;
  keystr = b'a' ∷ [];
  keyint = 1;
  is_indexed = false;
}

read_database-Spread_example :
    Ends
      (λ run. Spread (pos 0) (pos 100) (flatten run.2))
      (read_database
        (read_series memory 9 tt)
        (λ k. false)
        9
        a_series
        (pos 0)
        (pos 100)
        (pos 0)
        true
        2)
read_database-Spread_example =
    read_database-Spread (read_series memory 9 tt) (λ k. false)
      (read_series-Reading memory memory-ReadsWell 9 tt) 9 a_series (pos 0) (pos 100) (pos 0) true 2

IsForward-versions :
    (t : ℤ) (file : List Datapoint) → All IsForward file → All IsForward (versions t file)
IsForward-versions t [] f = tt
IsForward-versions t (p ∷ ps) f = elim (Bool-cases (eqb_ℤ p.timestamp t)) [
  | inl e ↦ rw e (f.0, IsForward-versions t ps f.1)
  | inr e ↦ rw e (IsForward-versions t ps f.1)
]

IsForward-points :
    (file points : List Datapoint)
    → All IsForward file
    → All (LatestVersion file) points
    → All IsForward points
IsForward-points file [] f l = tt
IsForward-points file (q ∷ qs) f l =
    let (original, updates, same, last) = l.0 in
    let forward : All IsForward (original ∷ updates) =
      rw same at (IsForward-versions q.timestamp file f) in
    (rw last.3 forward.0, IsForward-points file qs f l.1)

Forward-read :
    (file points before : List Datapoint)
    → All IsForward before
    → All IsForward file
    → All (LatestVersion file) points
    → All IsForward (before ++ points)
Forward-read file points [] b f l = IsForward-points file points f l
Forward-read file points (p ∷ ps) b f l = (b.0, Forward-read file points ps b.1 f l)

memory_file-kept :
    (op : ReadOperation)
    → All IsForward op.buffer
    → All IsForward (read_datapoints three_points op).buffer
memory_file-kept op before =
    let (points, added, latest_only) = read_datapoints-LatestVersion three_points op in
    rw added (
      Forward-read three_points points op.buffer before
        (omega arith, (omega arith, (omega arith, tt))) latest_only)

a_series-IsFine : IsFine memory tt memory_file memory_file-kept a_series
unfolding sort values values_from value_at stable_sort
a_series-IsFine = record { known = refl; forward = (omega arith, (omega arith, tt)) }

-- A series with a sparse file and two datapoints in its write buffer.
read_database-one_file_example : Halts (
    read_database
      (read_series memory 2 tt)
      (λ k. false)
      200
      a_series
      (pos 0)
      (pos 100)
      (pos 0)
      true
      2)
unfolding ◌+ℤ◌
read_database-one_file_example =
    read_database-one_file memory tt memory_file memory_file-kept (λ k. false) 0 200 100 a_series
      (pos 0) (pos 100) (pos 0) true 2 memory-ReadsWell a_series-IsFine (omega arith) (omega arith)

abbrev a_dense_file : DenseFile
a_dense_file = record { min_timestamp = pos 10; max_timestamp = pos 40; duration = pos 10 }

-- The bit pattern of a NAN.
abbrev a_nan : ℕ
a_nan = 4095 * 2 ^ 51

-- The value 7 stands at time 20 of the file, and is read as one for time 10.
dense_read_test :
    dense_read a_dense_file (some (a_nan ∷ 7 ∷ 8 ∷ [])) (record wide_read { next_time = pos 10 })
    ≡ some (
        returned
          (record wide_read { next_time = pos 30; buffer = point 10 7 10 ∷ point 20 8 10 ∷ [] }))
unfolding dense_read dense_loop align to_int isnan ◌%ℤ◌ ◌/ℤ◌ ◌-ℤ◌ ◌+ℤ◌
dense_read_test = refl

dense_read-consecutive_example :
    let op : ReadOperation = record wide_read { next_time = pos 10 } in
    let part : List ℕ = wanted_part a_dense_file (a_nan ∷ 7 ∷ 8 ∷ []) (align (pos 10) op) 10 in
    (HasRoom part op
      × (after : ReadOperation) × (dense_read a_dense_file (some (a_nan ∷ 7 ∷ 8 ∷ [])) op
          ≡ some (returned after))
      × (after.buffer ≡ op.buffer ++ consecutive 10 (align (pos 10) op).next_time (numbers part)))
    ⊎ (¬ HasRoom part op × (dense_read a_dense_file (some (a_nan ∷ 7 ∷ 8 ∷ [])) op ≡ none))
unfolding align ◌%ℤ◌ ◌/ℤ◌ ◌-ℤ◌ ◌+ℤ◌
dense_read-consecutive_example =
    dense_read-consecutive a_dense_file (a_nan ∷ 7 ∷ 8 ∷ [])
      (record wide_read { next_time = pos 10 }) 10 (omega arith) refl (omega arith) (omega arith)
      (omega arith) (omega arith) (omega arith)

-- The third value has no room in a buffer for two datapoints.
dense_overrun_test :
    dense_read a_dense_file (some (6 ∷ 7 ∷ 8 ∷ [])) (record wide_read { next_time = pos 10 }) ≡ none
unfolding dense_read dense_loop align to_int isnan ◌%ℤ◌ ◌/ℤ◌ ◌-ℤ◌ ◌+ℤ◌
dense_overrun_test = refl
