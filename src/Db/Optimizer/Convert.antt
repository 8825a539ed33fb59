-- ===== src/Db/Optimizer/Convert.antt =====
-- StorageOptimizer: HandleSparseFileTooBig with its two conversions.
use vqro.Base.{
  ℕ, pos, ◌+ℤ◌, ◌*ℤ◌, List, [], ◌∷◌, ◌++◌, Bool, true, false, Option, none, some, Outcome, returned,
  thrown, running, and_then, int64_min, int64_max, ◌≡◌, ◌≢◌, refl, ◌==◌, if◌then◌else◌,
}
use vqro.Db.Datapoint.{Datapoint}
use vqro.Db.ReadOp.{read_operation}
use vqro.Db.WriteOp.{WriteOperation, write_operation, writable_datapoints}
use vqro.Db.FileName.{SparseFile, ConstantFile, DenseFile, new_constant, constant_name, new_dense}
use vqro.Db.FileSystem.{FileSystem, absent}
use vqro.Db.SparseFile.Read.{read_datapoints}
use vqro.Db.SparseFile.Write.{sparse_path}
use vqro.Db.DenseFile.Write.{dense_write, open_dense, dense_path}
use vqro.Db.Optimizer.{Format, sparse, dense, constant, Limits, choose_format}

-- `D` is what the disk and the object of the directory hold. `read_filenames` is the directory's
-- ReadFilenames.
module _ {D : Type 0} (fs : FileSystem D) (read_filenames : D → Outcome D) (dir : List ℕ)
    (max_dense_nan_gap behind : ℕ) where
  abbrev pub constant_path : ConstantFile → List ℕ
  unfolding constant_name
  constant_path f = dir ++ b'/' ∷ constant_name f

  -- An unlink that fails is logged only.
  abbrev pub unlinked : D → Option D → D
  unlinked d none = d
  unlinked d (some d') = d'

  abbrev pub remove_sparse : SparseFile → D → Outcome D
  remove_sparse f d = read_filenames (unlinked d (fs.unlink d (sparse_path dir f)))

  -- The Write of a constant file renames it and does nothing else to the disk.
  abbrev pub written_constant : D → ConstantFile → WriteOperation → Option D → ℕ → Outcome D
  written_constant d f op none n = thrown d
  written_constant d f op (some d') n = returned d'

  abbrev pub grown : ConstantFile → ℕ → ConstantFile
  grown f n = record f {
    count = f.count +ℤ pos n;
    max_timestamp = f.min_timestamp +ℤ (f.count +ℤ pos n) *ℤ f.duration;
  }

  abbrev pub write_constant : D → ConstantFile → WriteOperation → Outcome D
  write_constant d f op =
      let n : ℕ = writable_datapoints op in
      if n == 0
      then returned d
      else written_constant d f op (fs.rename d (constant_path f) (constant_path (grown f n))) n

  -- The count of a new file begins at 0.
  unfoldable pub convert_sparse_to_constant : D → SparseFile → List Datapoint → Outcome D
  unfolding constant_path writable_datapoints write_operation
  convert_sparse_to_constant d f [] = running
  convert_sparse_to_constant d f (p ∷ ps) =
      and_then
        (write_constant d (new_constant f.min_timestamp p.duration (pos 0) p.value)
          (write_operation (p ∷ ps)))
        (remove_sparse f) (λ d'. d')

  abbrev pub written_dense : D → SparseFile → List Datapoint → Option DenseFile → Outcome D
  written_dense d f points none = thrown d
  written_dense d f points (some g) =
      and_then (dense_write fs dir max_dense_nan_gap behind d g (write_operation points))
        (λ r. remove_sparse f r.0) (λ r. r.0)

  unfoldable pub convert_sparse_to_dense : D → SparseFile → List Datapoint → Outcome D
  unfolding open_dense dense_write write_operation
  convert_sparse_to_dense d f [] = running
  convert_sparse_to_dense d f (p ∷ ps) =
      written_dense d f (p ∷ ps) (open_dense fs d dir f.min_timestamp p.duration)

  abbrev pub convert : D → SparseFile → List Datapoint → Format → Outcome D
  convert d f points sparse = returned d
  convert d f points dense = convert_sparse_to_dense d f points
  convert d f points constant = convert_sparse_to_constant d f points

  -- `points` are the datapoints of the sparse file; `near` is as for choose_format.
  unfoldable pub handle_sparse_file_too_big :
      (ℕ → ℕ → Bool) → Limits → D → SparseFile → List Datapoint → Outcome D
  unfolding convert_sparse_to_dense convert_sparse_to_constant choose_format read_datapoints
      read_operation
  handle_sparse_file_too_big near limits d f points =
      let read : List Datapoint =
        (read_datapoints points
          (read_operation int64_min int64_max int64_max true limits.read_buffer_size)).buffer in
      convert d f read (choose_format near limits read)

  -- Where stat finds neither a dense nor a constant file under the name of the new one, and rename
  -- fails on a name that stat does not find: whenever the datapoints of a sparse file are to be
  -- converted, and the Write of the new file has something to write, HandleSparseFileTooBig throws
  -- and leaves the disk as it was.
  pub handle_sparse_file_too_big-thrown :
      (near : ℕ → ℕ → Bool) (limits : Limits) (d : D) (f : SparseFile) (points ps : List Datapoint)
      (p : Datapoint)
      → ((old new : List ℕ) → fs.stat d old ≡ absent → fs.rename d old new ≡ none)
      → (read_datapoints points
          (read_operation int64_min int64_max int64_max true limits.read_buffer_size)).buffer
        ≡ p ∷ ps
      → choose_format near limits (p ∷ ps) ≢ sparse
      → (writable_datapoints (write_operation (p ∷ ps)) == 0) ≡ false
      → fs.stat d (dense_path dir (new_dense f.min_timestamp p.duration 0)) ≡ absent
      → fs.stat d (constant_path (new_constant f.min_timestamp p.duration (pos 0) p.value)) ≡ absent
      → handle_sparse_file_too_big near limits d f points ≡ thrown d
  unfolding handle_sparse_file_too_big convert_sparse_to_dense convert_sparse_to_constant open_dense
  handle_sparse_file_too_big-thrown near limits d f points ps p missing e differs some_written
        no_dense no_constant =
      rw e (by_format (choose_format near limits (p ∷ ps)) differs)
    where
      by_format : (g : Format) → g ≢ sparse → convert d f (p ∷ ps) g ≡ thrown d
      by_format sparse h = absurd (h refl)
      by_format dense h = rw (open_dense, no_dense) refl
      by_format constant h = rw (some_written, missing _ _ no_constant) refl
