-- ===== src/Tests/Flushes.antt =====
-- The flush of a series, in turn with writes to it and at once with one, and the rounds of the flusher.
use mathlib.Core.List.{Perm}
use vqro.Base.{
  inr, pos, ℤ, List, [], ◌∷◌, ◌++◌, none, some, true, false, returned, ◌≡◌, refl, ◌-ℤ◌, arith, ℕ,
  Outcome, ◌+◌,
}
use vqro.Db.Datapoint.{Datapoint, isnan}
use vqro.Db.WriteBuffer.{values, is_empty}
use vqro.Db.WriteBuffer.Laws.{IsValid}
use vqro.Db.FileSystem.{FileSystem, directory}
use vqro.Db.Directory.Files.{DatapointFile}
use vqro.Db.Flush.Series.{OnDisk, Command, write, flush, perform, perform_all, write_points}
use vqro.Db.Flush.Series.Conserved.{Conserved, AllWriteOut, all_points, perform_all-Conserved}
use vqro.Db.Flush.Series.Race.{Racing, Reach, idle, racing_write-lost}
use vqro.Db.Flush.Rounds.{flush_round}
use vqro.Db.Flush.Rounds.Laws.{
  IfReturned, AllFlushed, AtMostFifty, flush_round-AllFlushed, flush_round-AtMostFifty,
}
use vqro.Tests.{point, three_points}
use vqro.Db.FileName.{SparseFile, sparse_name}
use vqro.Db.Decimal.{to_string}
use vqro.Db.SparseFile.Write.Names.{path_discrete}
use native.Mathlib.Decide.{ℕ_discrete}
use vqro.Db.Directory.Write.Whole.{sparse_writer}
use vqro.Tests.Disks.{vector_of_op, Disk, named_disk, all_at_once, on_disk, set_name}
use vqro.Tests.Writes.{one_by_one}

-- The directory is there, and holds no files yet.
abbrev ready_disk : FileSystem (List Datapoint)
ready_disk = record {
  stat = λ d path. directory 0;
  open_file = λ d path. some d;
  append_vector = λ d path bytes. returned d;
  write_values_at = λ d path offset values. returned d;
  rename = λ d old new. none;
  unlink = λ d path. none;
  mkdir = λ d path. none;
  is_missing_parent = λ d path. false;
}

abbrev no_files : DatapointFile (List Datapoint) ℤ
no_files = record {
  min_timestamp = λ f. f;
  max_timestamp = λ f. f;
  read = λ d f op. returned op;
  constant_from_filename = λ d name. none;
  dense_from_filename = λ d name. none;
  sparse_from_filename = λ d name. none;
  entries = λ d. some [];
}

-- Two datapoints to an allocation; one is on disk.
abbrev new_series : OnDisk (List Datapoint) ℤ
new_series = record {
  write_buffer = record {
    datapoints_per_alloc = 2;
    allocs = [];
    num_datapoints = 0;
    sorted = true;
  };
  data_dir = record { filenames_read = false; datapoint_files = [] };
  disk = point 1 9 1 ∷ [];
}

abbrev empty_buffer-IsValid : IsValid new_series.write_buffer
empty_buffer-IsValid = record { positive = omega arith; blocks = tt; room = omega arith }

abbrev two_flushes : List Command
two_flushes = write three_points ∷ flush ∷ write (point 15 4 1 ∷ []) ∷ flush ∷ []

-- The later datapoint that goes back in time is in a second flush.
two_flushes_test :
    perform_all
      (one_by_one (some 4))
      no_files
      ready_disk
      1
      9
      (b'd' ∷ [])
      (point 0 0 0)
      two_flushes
      new_series
    ≡ returned (record {
      write_buffer = record {
        datapoints_per_alloc = 2;
        allocs = [];
        num_datapoints = 0;
        sorted = true;
      };
      data_dir = record { filenames_read = true; datapoint_files = pos 10 ∷ pos 20 ∷ pos 20 ∷ [] };
      disk = (point 1 9 1 ∷ []) ++ three_points ++ point 15 4 1 ∷ [];
    })
unfolding perform_all ◌-ℤ◌
two_flushes_test = refl

-- A directory of sparse files, on a disk that makes any directory.
abbrev sparse_disk : FileSystem Disk
sparse_disk = record named_disk { mkdir = λ d path. some d }

abbrev no_sparse_files : DatapointFile Disk SparseFile
no_sparse_files = record {
  min_timestamp = λ f. f.min_timestamp;
  max_timestamp = λ f. f.max_timestamp;
  read = λ d f op. returned op;
  constant_from_filename = λ d name. none;
  dense_from_filename = λ d name. none;
  sparse_from_filename = λ d name. none;
  entries = λ d. some [];
}

abbrev sparse_series : OnDisk Disk SparseFile
sparse_series = record {
  write_buffer = new_series.write_buffer;
  data_dir = record { filenames_read = false; datapoint_files = [] };
  disk = (λ path. false, []);
}

two_flushes-AllWriteOut :
    AllWriteOut
      (sparse_writer sparse_disk all_at_once 5)
      no_sparse_files
      sparse_disk
      on_disk
      1
      9
      (b'd' ∷ [])
      (point 0 0 0)
      two_flushes
      sparse_series
unfolding is_empty sparse_writer write_points perform path_discrete ℕ_discrete sparse_name to_string
    set_name ◌-ℤ◌ vector_of_op
two_flushes-AllWriteOut = (tt, (inr refl, (tt, (inr refl, tt))))

perform_all-Conserved_example :
    Conserved
      (sparse_writer sparse_disk all_at_once 5)
      no_sparse_files
      sparse_disk
      on_disk
      1
      9
      (b'd' ∷ [])
      (point 0 0 0)
      two_flushes
      sparse_series
      (perform_all
        (sparse_writer sparse_disk all_at_once 5)
        no_sparse_files
        sparse_disk
        1
        9
        (b'd' ∷ [])
        (point 0 0 0)
        two_flushes
        sparse_series)
perform_all-Conserved_example =
    perform_all-Conserved (sparse_writer sparse_disk all_at_once 5) no_sparse_files sparse_disk
      on_disk 1 9 (b'd' ∷ []) (point 0 0 0) two_flushes sparse_series empty_buffer-IsValid
      two_flushes-AllWriteOut

-- One datapoint waits in the buffer.
abbrev waiting_series : OnDisk (List Datapoint) ℤ
waiting_series = record new_series {
  write_buffer = record {
    datapoints_per_alloc = 2;
    allocs = (point 10 1 1 ∷ point 0 0 0 ∷ []) ∷ [];
    num_datapoints = 1;
    sorted = true;
  };
}

waiting_buffer-IsValid : IsValid waiting_series.write_buffer
waiting_buffer-IsValid = record { positive = omega arith; blocks = (refl, tt); room = omega arith }

waiting_written :
    write_points
      (one_by_one (some 4))
      no_files
      ready_disk
      1
      9
      (b'd' ∷ [])
      (point 0 0 0)
      (point 10 1 1 ∷ [])
      (waiting_series.data_dir, waiting_series.disk)
    ≡ returned (
      record { filenames_read = true; datapoint_files = pos 10 ∷ [] },
      point 1 9 1 ∷ point 10 1 1 ∷ [],
    )
unfolding write_points ◌-ℤ◌
waiting_written = refl

racing_write-lost_example :
    (t : Racing (List Datapoint) ℤ) × Reach
      (one_by_one (some 4))
      no_files
      ready_disk
      1
      9
      (b'd' ∷ [])
      (point 0 0 0)
      (record { series = waiting_series; phase = idle })
      (point 11 2 1 ∷ [])
      t
    × (t.phase ≡ idle)
    × Perm (all_points (λ d. d) t.series) (all_points (λ d. d) waiting_series)
    × ¬ Perm
        (all_points (λ d. d) t.series)
        (all_points (λ d. d) waiting_series ++ point 11 2 1 ∷ [])
unfolding isnan values is_empty
racing_write-lost_example =
    racing_write-lost (one_by_one (some 4)) no_files ready_disk 1 9 (b'd' ∷ []) (point 0 0 0)
      (λ d. d) waiting_series _ (point 11 2 1 ∷ []) waiting_buffer-IsValid refl waiting_written refl
      (omega arith)

-- A series is the number of its datapoints, and the disk counts what is flushed.
abbrev flush_number : ℕ → ℕ → Outcome (ℕ × ℕ)
flush_number s d = returned (0, d + s)

flush_round_test :
    flush_round (λ s. s) flush_number (pos 5000) 0 (pos 100) [] (3 ∷ 0 ∷ 4 ∷ [])
    ≡ returned (record {
      disk = 7;
      passed = 0 ∷ 0 ∷ 0 ∷ [];
      flushed = 2;
      resort_deadline = pos 100;
      clock = [];
    })
unfolding flush_round
flush_round_test = refl

flush_round-AllFlushed_example :
    IfReturned
      (λ s. s)
      flush_number
      (pos 5000)
      (AllFlushed (λ s. s) flush_number (pos 5000) 3 (pos 100))
      (flush_round (λ s. s) flush_number (pos 5000) 0 (pos 100) (pos 99 ∷ []) (3 ∷ 0 ∷ 4 ∷ []))
flush_round-AllFlushed_example =
    flush_round-AllFlushed (λ s. s) flush_number (pos 5000) (λ s d. refl) 0 (pos 100) (pos 99 ∷ [])
      (3 ∷ 0 ∷ 4 ∷ []) (omega arith, tt)

flush_round-AtMostFifty_example :
    IfReturned
      (λ s. s)
      flush_number
      (pos 5000)
      (AtMostFifty (λ s. s) flush_number (pos 5000) (pos 100))
      (flush_round (λ s. s) flush_number (pos 5000) 0 (pos 100) (pos 200 ∷ []) (3 ∷ 0 ∷ 4 ∷ []))
flush_round-AtMostFifty_example =
    flush_round-AtMostFifty (λ s. s) flush_number (pos 5000) 0 (pos 100) (pos 200) []
      (3 ∷ 0 ∷ 4 ∷ []) (omega arith)
