-- ===== src/Db/Directory/Write/Whole.antt =====
-- DatapointDirectory: the constructor, and Write as a whole. Also a sparse file as the directory's
-- Write sees it.
use vqro.Base.{
  ℕ, List, [], ◌∷◌, ◌==◌, Option, none, some, true, false, map, Outcome, returned, thrown, running,
  and_then, if◌then◌else◌, refl,
}
use vqro.Db.Datapoint.{Datapoint}
use vqro.Db.WriteOp.{WriteOperation}
use vqro.Db.FileName.{SparseFile}
use vqro.Db.FileSystem.{FileSystem}
use vqro.Db.FileSystem.Directories.{create_directory}
use vqro.Db.SparseFile.Write.{SparseEnv, sparse_write, remaining_writable_datapoints}
use vqro.Db.SparseFile.Write.Laws.{Covers, sparse_write-Covers}
use vqro.Db.Directory.Files.{DatapointFile, read_filenames}
use vqro.Db.Directory.Find.{Search, found, out_of_bounds, searching, find_first_potential_file}
use vqro.Db.Directory.Read.{Directory}
use vqro.Db.Directory.Write.{FileWriter, Writing, write_loop, time_at_cursor}
use vqro.Db.Directory.Write.Ordered.{KeepsStart, SameStart}

-- The path without the slashes at its end.
unfoldable pub strip_slashes : List ℕ → List ℕ
strip_slashes [] = []
strip_slashes (c ∷ cs) = elim (strip_slashes cs) [
  | [] ↦ if c == b'/' then [] else c ∷ []
  | d ∷ ds ↦ c ∷ d ∷ ds
]

abbrev new_directory_at : {F : Type 0} → List ℕ → Option (List ℕ × Directory F)
new_directory_at [] = none
new_directory_at (c ∷ cs) = some ((c ∷ cs), record { filenames_read = false; datapoint_files = [] })

-- The constructor, with the path; `none` is the logic_error.
unfoldable pub new_directory : {F : Type 0} → List ℕ → Option (List ℕ × Directory F)
unfolding strip_slashes
new_directory path = new_directory_at (strip_slashes path)

module _ {D F : Type 0} (file : FileWriter D F) (reader : DatapointFile D F)
    (fs : FileSystem D) where
  -- The disk, the directory and the operation.
  abbrev pub State : Type 0
  State = D × Directory F × WriteOperation

  abbrev pub after_loop : Writing D F → State
  after_loop w =
      (w.disk, record { filenames_read = true; datapoint_files = w.datapoint_files }, w.write_op)

  abbrev pub write_from_file : ℕ → D → List F → WriteOperation → Search → Outcome State
  write_from_file rounds d files op (found i) =
      and_then
        (write_loop file rounds
          (record { disk = d; datapoint_files = files; file_it = i; write_op = op }))
        (λ w. returned (after_loop w)) after_loop
  write_from_file rounds d files op out_of_bounds = running
  write_from_file rounds d files op searching = running

  -- The search is by the timestamp at the cursor; a complete operation has none.
  abbrev pub write_known : ℕ → D → List F → WriteOperation → Option Datapoint → Outcome State
  write_known rounds d files op none = running
  write_known rounds d files op (some p) =
      write_from_file rounds d files op
        (find_first_potential_file rounds (map reader.min_timestamp files) p.timestamp)

  abbrev pub write_scanned : ℕ → D → Directory F → WriteOperation → Option (List F) → Outcome State
  write_scanned rounds d dir op none = thrown (d, dir, op)
  write_scanned rounds d dir op (some files) =
      write_known rounds d files op (time_at_cursor file op)

  -- `depth` bounds CreateDirectory, `rounds` the search and the loop.
  unfoldable pub write_directory : ℕ → ℕ → List ℕ → D → Directory F → WriteOperation → Outcome State
  unfolding create_directory read_filenames find_first_potential_file write_loop
  write_directory depth rounds path d dir op =
      and_then (create_directory fs depth d path)
        (λ d'.
          if dir.filenames_read
          then write_known rounds d' dir.datapoint_files op (time_at_cursor file op)
          else write_scanned rounds d' dir op (read_filenames reader d'))
        (λ d'. (d', dir, op))

module _ {D : Type 0} (fs : FileSystem D) (env : SparseEnv D) (sparse_capacity : ℕ) where
  -- A directory of sparse files.
  unfoldable pub sparse_writer : FileWriter D SparseFile
  unfolding sparse_write remaining_writable_datapoints
  sparse_writer = record {
    min_timestamp = λ f. f.min_timestamp;
    remaining_writable = remaining_writable_datapoints fs env;
    write = sparse_write fs env;
    new_sparse = λ t. record { min_timestamp = t; max_timestamp = t; optimized = false };
    sparse_capacity = sparse_capacity;
  }

  same_start :
      (f : SparseFile) (op : WriteOperation) (o : Outcome (D × SparseFile × ℕ))
      → Covers f op o
      → SameStart sparse_writer f o
  unfolding sparse_writer
  same_start f op (returned (d, g, n)) h = h.0.0
  same_start f op (thrown (d, g, n)) h = h.0
  same_start f op running h = tt

  -- SparseFile::Write keeps what the order of a directory's files rests on.
  pub sparse_writer-KeepsStart : KeepsStart sparse_writer
  unfolding sparse_writer
  sparse_writer-KeepsStart = record {
    same_start = λ d f op. same_start f op _ (sparse_write-Covers fs env f op d);
    new_start = λ t. refl;
  }
