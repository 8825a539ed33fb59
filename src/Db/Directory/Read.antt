-- ===== src/Db/Directory/Read.antt =====
-- DatapointDirectory::Read.
pub mod Laws
use vqro.Base.{
  ℕ, ℤ, Option, none, some, List, [], ◌∷◌, Bool, true, false, not, ◌&&◌, leb_ℤ, ltb_ℤ,
  if◌then◌else◌, Outcome, returned, thrown, running, and_then, map, drop,
}
use vqro.Db.ReadOp.{ReadOperation, has_space, complete}
use vqro.Db.Directory.Files.{DatapointFile, read_filenames}
use vqro.Db.Directory.Find.{Search, found, out_of_bounds, searching, find_first_potential_file}

pub record Directory (F : Type 0) : Type 0 where
  pub filenames_read : Bool
  pub datapoint_files : List F

module _ {D F : Type 0} (file : DatapointFile D F) where
  open file use {min_timestamp, max_timestamp, read}

  -- The loop over the files from `file_it` on.
  unfoldable pub read_files : D → List F → ReadOperation → Outcome ReadOperation
  read_files d [] op = returned op
  read_files d (f ∷ fs) op =
      let skip : Outcome ReadOperation = read_files d fs op in
      let next : Outcome ReadOperation =
        and_then (read d f op) (λ op'. read_files d fs op') (λ op'. op') in
      if not (has_space op && not (complete op))
      then returned op
      else if ltb_ℤ (max_timestamp f) op.next_time
      then skip
      else if leb_ℤ op.end_time (min_timestamp f)
      then returned op
      else next

  -- The search never reads outside of the vector (find_first_potential_file-ne-out_of_bounds), so what
  -- is still running is a search.
  abbrev pub read_found : D → List F → ReadOperation → Search → Outcome ReadOperation
  read_found d files op (found i) = read_files d (drop i files) op
  read_found d files op out_of_bounds = running
  read_found d files op searching = running

  -- Read once the file names are known; `rounds` bounds the search for the first file.
  unfoldable pub read_known : ℕ → D → List F → ReadOperation → Outcome ReadOperation
  unfolding find_first_potential_file read_files
  read_known rounds d files op =
      read_found d files op
        (find_first_potential_file rounds (map min_timestamp files) op.next_time)

  -- The directory and the operation are changed in place, so both come back.
  abbrev pub read_in : ℕ → D → Directory F → ReadOperation → Outcome (Directory F × ReadOperation)
  read_in rounds d dir op =
      and_then (read_known rounds d dir.datapoint_files op) (λ op'. returned (dir, op'))
        (λ op'. (dir, op'))

  -- Go on after ReadFilenames, which leaves the directory as it was where it throws.
  abbrev scanned :
      ℕ → D → Directory F → ReadOperation → Option (List F) → Outcome (Directory F × ReadOperation)
  scanned rounds d dir op none = returned (dir, op)
  scanned rounds d dir op (some files) =
      read_in rounds d (record { filenames_read = true; datapoint_files = files }) op

  unfoldable pub read_directory :
      ℕ → D → Directory F → ReadOperation → Outcome (Directory F × ReadOperation)
  unfolding read_known read_filenames
  read_directory rounds d dir op =
      if dir.filenames_read
      then read_in rounds d dir op
      else scanned rounds d dir op (read_filenames file d)
