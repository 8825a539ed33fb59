-- ===== src/Db/Directory/Read/Laws.antt =====
-- DatapointDirectory::Read: what it does to the operation, and when it ends.
use vqro.Base.{
  if◌then◌else◌, ℕ, suc, ℤ, ◌<ℤ◌, ◌≤◌, ◌≡◌, refl, ap, none, some, List, [], ◌∷◌, true, false, Ends,
  returned, running, and_then-Ends, Ends-map, map, drop, All, length, arith,
}
use vqro.Db.ReadOp.{ReadOperation}
use vqro.Db.ReadOp.Chain.{Extends, Extends-refl, Extends-trans}
use vqro.Db.Directory.Files.{DatapointFile, read_filenames}
use vqro.Db.Directory.Find.Laws.{find_first_potential_file_diverges}
use vqro.Db.Directory.Find.{found, out_of_bounds, searching, find_first_potential_file}
use vqro.Db.Directory.Read.{
  Directory, read_files, read_known, read_directory, read_found, read_in, scanned,
}

-- What the Read of a file promises: it appends a chain of datapoints, also where it throws.
pub record ReadsWell {D F : Type 0} (file : DatapointFile D F) : Type 0 where
  pub extends : (d : D) (f : F) (op : ReadOperation) → Ends (Extends op) (file.read d f op)

module _ {D F : Type 0} (file : DatapointFile D F) where
  -- What each Read of a file keeps, the loop keeps.
  pub read_files-Ends :
      (P : ReadOperation → Type 0)
      → ((d : D) (f : F) (op : ReadOperation) → P op → Ends P (file.read d f op))
      → (d : D) (files : List F) (op : ReadOperation) → P op
      → Ends P (read_files file d files op)
  unfolding read_files
  read_files-Ends P keeps d [] op h = h
  read_files-Ends P keeps d (f ∷ fs) op h =
      let skip = read_files-Ends P keeps d fs op h in
      let next =
        and_then-Ends P P (file.read d f op) (λ op'. read_files file d fs op') (λ op'. op')
          (keeps d f op h) (λ op' k. read_files-Ends P keeps d fs op' k) (λ op' k. k) in
      ground (arith, skip, next)

  -- What holds of the operation after the loop from any file on holds after the search too.
  read_found-Ends :
      (P : ReadOperation → Type 0) (rounds : ℕ) (d : D) (files : List F) (op : ReadOperation)
      → ((fs : List F) → Ends P (read_files file d fs op))
      → Ends P (read_known file rounds d files op)
  unfolding read_known
  read_found-Ends P rounds d files op h =
      elim (find_first_potential_file rounds (map file.min_timestamp files) op.next_time)
        as (λ s. Ends P (read_found file d files op s)) [
          | found i ↦ h (drop i files)
          | out_of_bounds ↦ tt
          | searching ↦ tt
        ]

  abbrev On : (ReadOperation → Type 0) → Directory F × ReadOperation → Type 0
  On P r = P r.1

  read_in-Ends :
      (P : ReadOperation → Type 0) (rounds : ℕ) (d : D) (dir : Directory F) (op : ReadOperation)
      → Ends P (read_known file rounds d dir.datapoint_files op)
      → Ends (On P) (read_in file rounds d dir op)
  read_in-Ends P rounds d dir op h =
      and_then-Ends P (On P) _ (λ op'. returned (dir, op')) (λ op'. (dir, op')) h (λ op' k. k)
        (λ op' k. k)

  pub read_directory-Ends :
      (P : ReadOperation → Type 0) (rounds : ℕ) (d : D) (dir : Directory F) (op : ReadOperation)
      → P op
      → ((fs : List F) → Ends P (read_files file d fs op))
      → Ends (On P) (read_directory file rounds d dir op)
  unfolding read_directory
  read_directory-Ends P rounds d dir op p h =
      elim dir.filenames_read
        as (λ b. Ends (On P) (
          if b
          then read_in file rounds d dir op
          else scanned file rounds d dir op (read_filenames file d))) [
            | true ↦ read_in-Ends P rounds d dir op (read_found-Ends P rounds d _ op h)
            | false ↦
                elim (read_filenames file d)
                  as (λ o. Ends (On P) (scanned file rounds d dir op o)) [
                    | none ↦ p
                    | some files ↦
                        read_in-Ends P rounds d _ op (read_found-Ends P rounds d files op h)
                  ]
          ]

module _ {D F : Type 0} (file : DatapointFile D F) (well : ReadsWell file) where
  read_files-Extends :
      (d : D) (files : List F) (op : ReadOperation) → Ends (Extends op) (read_files file d files op)
  unfolding read_files
  read_files-Extends d [] op = Extends-refl op
  read_files-Extends d (f ∷ fs) op =
      let skip = read_files-Extends d fs op in
      let next =
        and_then-Ends (Extends op) (Extends op) (file.read d f op) (λ op'. read_files file d fs op')
          (λ op'. op') (well.extends d f op)
          (λ op' h.
            Ends-map (Extends op') (Extends op) (read_files file d fs op')
              (λ z x. Extends-trans h x) (read_files-Extends d fs op'))
          (λ op' h. h) in
      ground (arith, skip, next, Extends-refl op)

  -- Where the Read of each file appends a chain of datapoints of the wanted range, also where it
  -- throws, DatapointDirectory::Read does so too, whether it returns or throws within the rounds
  -- given.
  pub read_directory-Extends :
      (rounds : ℕ) (d : D) (dir : Directory F) (op : ReadOperation)
      → Ends (λ r. Extends op r.1) (read_directory file rounds d dir op)
  read_directory-Extends rounds d dir op =
      read_directory-Ends file (Extends op) rounds d dir op (Extends-refl op)
        (λ fs. read_files-Extends d fs op)

module _ {D F : Type 0} (file : DatapointFile D F) where
  map-All :
      (t : ℤ) (files : List F)
      → All (λ f. file.min_timestamp f <ℤ t) files
      → All (λ x. x <ℤ t) (map file.min_timestamp files)
  map-All t [] a = tt
  map-All t (f ∷ fs) a = (a.0, map-All t fs a.1)

  length-map : (files : List F) → length (map file.min_timestamp files) ≡ length files
  length-map [] = refl
  length-map (f ∷ fs) = ap suc (length-map fs)

  -- Where the directory has read its file names, and knows of three files or more, all of which
  -- begin before the time to read from, the read never ends, however many rounds its search is
  -- given.
  pub read_directory_hangs :
      (rounds : ℕ) (d : D) (dir : Directory F) (op : ReadOperation)
      → dir.filenames_read ≡ true
      → 3 ≤ length dir.datapoint_files
      → All (λ f. file.min_timestamp f <ℤ op.next_time) dir.datapoint_files
      → read_directory file rounds d dir op ≡ running
  unfolding read_directory
  read_directory_hangs rounds d dir op known three below = rw (
    known,
    find_first_potential_file_diverges rounds (map file.min_timestamp dir.datapoint_files)
        op.next_time (rw (length-map dir.datapoint_files) three)
        (map-All op.next_time dir.datapoint_files below),
  )
