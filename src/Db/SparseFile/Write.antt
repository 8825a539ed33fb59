-- ===== src/Db/SparseFile/Write.antt =====
-- SparseFile::Write, RemainingWritableDatapoints and FileIsTooBig.
pub mod Laws
pub mod Names
pub mod Stored
use vqro.Base.{
  ℕ, ◌-◌, ◌/◌, ltb, ℤ, ltb_ℤ, min_ℤ, List, [], ◌∷◌, ◌++◌, ◌==◌, Option, none, some, Bool, true,
  Outcome, returned, thrown, running, and_then, if◌then◌else◌,
}
use vqro.Db.Datapoint.{Datapoint}
use vqro.Db.WriteOp.{WriteOperation, remaining}
use vqro.Db.FileName.{SparseFile, sparse_name}
use vqro.Db.FileSystem.{FileSystem, get_file_size}

-- GetPath.
abbrev pub sparse_path : List ℕ → SparseFile → List ℕ
sparse_path dir f = dir ++ b'/' ∷ sparse_name f

-- The loop over all that is left of the buffer, also what is too late or too much for the file.
unfoldable pub buffer_max_timestamp : ℤ → ℤ → List Datapoint → ℤ
buffer_max_timestamp cap max [] = max
buffer_max_timestamp cap max (p ∷ ps) =
    buffer_max_timestamp cap (if ltb_ℤ max p.timestamp then min_ℤ p.timestamp cap else max) ps

-- The flags, and what the file calls. GetIOVector is a virtual method of the operation's buffer, that
-- of Db/WriteBuffer/Vector for a write buffer and that of Db/RawBuffer for a raw one; it gives what
-- the places of the vector point to and the number of datapoints. SparseFileTooBig is that of the
-- storage optimizer, which hands a task to a worker and may throw.
pub record SparseEnv (D : Type 0) : Type 0 where
  pub dir : List ℕ
  pub sparse_file_optimize_size : ℕ
  pub sparse_file_max_size : ℕ
  pub get_iovector : WriteOperation → List (List ℕ) × ℕ
  pub sparse_file_too_big : D → SparseFile → Outcome D

module _ {D : Type 0} (fs : FileSystem D) (env : SparseEnv D) where
  open env use {
    dir, sparse_file_optimize_size, sparse_file_max_size, get_iovector, sparse_file_too_big,
  }

  -- `none` where GetFileSize throws. 24 is the size of a datapoint.
  unfoldable pub remaining_writable_datapoints : D → SparseFile → Option ℕ
  remaining_writable_datapoints d f = elim (get_file_size fs d (sparse_path dir f)) [
    | none ↦ none
    | some filesize ↦
        some
          (if ltb filesize sparse_file_max_size then (sparse_file_max_size - filesize) / 24 else 0)
  ]

  -- The disk, the file object and the number that is returned; with an error the number is 0.
  abbrev pub Written : Type 0
  Written = D × SparseFile × ℕ

  abbrev pub renamed : SparseFile → ℕ → D → Option D → Outcome Written
  renamed f n d none = thrown (d, f, 0)
  renamed f n d (some d') = returned (d', f, n)

  -- The file is already marked when its renaming fails.
  unfoldable pub file_is_too_big : ℕ → D → SparseFile → Outcome Written
  file_is_too_big n d f =
      and_then (sparse_file_too_big d f)
        (λ d'.
          renamed (record f { optimized = true }) n d'
            (fs.rename d' (sparse_path dir f) (sparse_path dir (record f { optimized = true }))))
        (λ d'. (d', f, 0))

  abbrev pub if_too_big : ℕ → D → SparseFile → Option ℕ → Outcome Written
  if_too_big n d f none = thrown (d, f, 0)
  if_too_big n d f (some filesize) =
      let too_big : Outcome Written = file_is_too_big n d f in
      if ltb sparse_file_optimize_size filesize then too_big else returned (d, f, n)

  abbrev pub check_size : Written → Outcome Written
  check_size (d, f, n) =
      let checked : Outcome Written = if_too_big n d f (get_file_size fs d (sparse_path dir f)) in
      if f.optimized then returned (d, f, n) else checked

  -- The file is given its new last timestamp before it is renamed, also where that fails.
  abbrev pub with_max : ℤ → ℕ → SparseFile → D → Outcome Written
  with_max new_max n f d =
      if ltb_ℤ f.max_timestamp new_max
      then renamed (record f { max_timestamp = new_max }) n d
          (fs.rename d (sparse_path dir f) (sparse_path dir (record f { max_timestamp = new_max })))
      else returned (d, f, n)

  abbrev pub append_all : WriteOperation → List ℕ → D → Outcome D
  append_all op path d =
      if (get_iovector op).1 == 0 then returned d else fs.append_vector d path (get_iovector op).0

  unfoldable pub write_opened : SparseFile → WriteOperation → D → Outcome Written
  unfolding file_is_too_big buffer_max_timestamp
  write_opened f op d =
      and_then (append_all op (sparse_path dir f) d)
        (λ d'.
          and_then
            (with_max
              (buffer_max_timestamp op.max_writable_timestamp f.max_timestamp (remaining op))
              (get_iovector op).1 f d')
            check_size (λ r. r))
        (λ d'. (d', f, 0))

  unfoldable pub sparse_write : D → SparseFile → WriteOperation → Outcome Written
  unfolding write_opened
  sparse_write d f op = elim (fs.open_file d (sparse_path dir f)) [
    | none ↦ thrown (d, f, 0)
    | some d' ↦ write_opened f op d'
  ]
