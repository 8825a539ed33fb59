-- ===== src/Db/Directory/Write/OnDisk.antt =====
-- DatapointDirectory::Write as a whole: what is on disk after it.
use vqro.Base.{
  ℕ, zero, suc, List, ◌++◌, take, map, Outcome, returned, thrown, running, and_then, and_then-Ends,
  Ends, Ends-map, true, false, if◌then◌else◌, Option, none, some, ◌≡◌, refl, sym, ap, ◌∙◌,
  append-nil, Bool-cases, inl, inr,
}
use vqro.Db.Datapoint.{Datapoint}
use vqro.Db.WriteOp.{WriteOperation, remaining}
use vqro.Db.FileSystem.{FileSystem, absent, directory, regular_file}
use vqro.Db.FileSystem.Directories.{create_directory, created, from_parent, parent_dir}
use vqro.Db.Directory.Files.{DatapointFile, read_filenames}
use vqro.Db.Directory.Find.{found, out_of_bounds, searching, find_first_potential_file}
use vqro.Db.Directory.Read.{Directory}
use vqro.Db.Directory.Write.{FileWriter, Writing, write_loop, time_at_cursor}
use vqro.Db.Directory.Write.Stored.{Wrote, Stored, write_loop-Stored}
use vqro.Db.Directory.Write.Whole.{
  after_loop, write_from_file, write_known, write_scanned, write_directory,
}

module _ {D : Type 0} (fs : FileSystem D) (stored : D → List Datapoint) where
  -- Making directories leaves the datapoints on disk alone.
  abbrev pub MakesOnly : Type 0
  MakesOnly = (d d' : D) (path : List ℕ) → fs.mkdir d path ≡ some d' → stored d' ≡ stored d

  abbrev Keeps : D → Outcome D → Type 0
  Keeps d o = Ends (λ d'. stored d' ≡ stored d) o

  module _ (makes : MakesOnly) where
    from_parent-Keeps :
        (go : D → List ℕ → Outcome D) (d : D) (path : List ℕ) (parent : Option (List ℕ))
        → ((e : D) (p : List ℕ) → Keeps e (go e p))
        → Keeps d (from_parent fs go d path parent)
    from_parent-Keeps go d path none h = refl
    from_parent-Keeps go d path (some p) h = elim (Bool-cases (fs.is_missing_parent d path)) [
      | inl e ↦ rw e (
          and_then-Ends (λ d'. stored d' ≡ stored d) (λ d'. stored d' ≡ stored d) (go d p)
            (λ d'. go d' path) (λ d'. d') (h d p)
            (λ a k.
              Ends-map (λ d'. stored d' ≡ stored a) (λ d'. stored d' ≡ stored d) (go a path)
                (λ d' l. l ∙ k) (h a path))
            (λ d' k. k))
      | inr e ↦ rw e refl
    ]

    created-Keeps :
        (go : D → List ℕ → Outcome D) (d : D) (path : List ℕ) (o : Option D)
        → fs.mkdir d path ≡ o
        → ((e : D) (p : List ℕ) → Keeps e (go e p))
        → Keeps d (created fs go d path o)
    created-Keeps go d path (some d') e h = makes d d' path e
    created-Keeps go d path none e h = from_parent-Keeps go d path (parent_dir path) h

    create_directory-Keeps :
        (depth : ℕ) (d : D) (path : List ℕ) → Keeps d (create_directory fs depth d path)
    unfolding create_directory
    create_directory-Keeps zero d path = tt
    create_directory-Keeps (suc depth) d path =
        elim (fs.stat d path)
          as (λ s. Keeps d (elim s [
            | absent ↦ created fs (create_directory fs depth) d path (fs.mkdir d path)
            | directory n ↦ returned d
            | regular_file n ↦ thrown d
          ])) [
            | absent ↦
                created-Keeps (create_directory fs depth) d path (fs.mkdir d path) refl
                  (create_directory-Keeps depth)
            | directory n ↦ refl
            | regular_file n ↦ refl
          ]

module _ {D : Type 0} (stored : D → List Datapoint) where
  -- All that is written is on disk, once, or a first part of it where the code throws.
  abbrev pub OnDiskAfter : {A : Type 0} → (A → D) → D → List Datapoint → Outcome A → Type 0
  OnDiskAfter disk d points (returned a) = stored (disk a) ≡ stored d ++ points
  OnDiskAfter disk d points (thrown a) = (k : ℕ) × (stored (disk a) ≡ stored d ++ take k points)
  OnDiskAfter disk d points running = Unit

  pub OnDiskAfter-map :
      {A B : Type 0} (f : A → D) (g : B → D) (h : A → B) (d : D) (points : List Datapoint)
      (o : Outcome A)
      → ((a : A) → g (h a) ≡ f a)
      → OnDiskAfter f d points o
      → OnDiskAfter g d points (and_then o (λ a. returned (h a)) h)
  OnDiskAfter-map f g h d points (returned a) same s = ap stored (same a) ∙ s
  OnDiskAfter-map f g h d points (thrown a) same s = (s.0, ap stored (same a) ∙ s.1)
  OnDiskAfter-map f g h d points running same s = tt

  pub OnDiskAfter-same :
      {A : Type 0} (f : A → D) (d d' : D) (points : List Datapoint) (o : Outcome A)
      → stored d' ≡ stored d
      → OnDiskAfter f d' points o
      → OnDiskAfter f d points o
  OnDiskAfter-same f d d' points (returned a) e s = s ∙ ap (λ (l : List Datapoint). l ++ points) e
  OnDiskAfter-same f d d' points (thrown a) e s =
      (s.0, s.1 ∙ ap (λ (l : List Datapoint). l ++ take s.0 points) e)
  OnDiskAfter-same f d d' points running e s = tt

module _ {D F : Type 0} (file : FileWriter D F) (reader : DatapointFile D F) (fs : FileSystem D)
    (stored : D → List Datapoint)
    (well : (d : D) (f : F) (op : WriteOperation) → Wrote file stored d op (file.write d f op))
    (makes : MakesOnly fs stored) where
  loop-OnDisk :
      (w : Writing D F) (o : Outcome (Writing D F))
      → Stored file stored w o
      → OnDiskAfter stored (λ v. v.disk) w.disk (remaining w.write_op) o
  loop-OnDisk w (returned v) s = s
  loop-OnDisk w (thrown v) s = s
  loop-OnDisk w running s = tt

  write_known-OnDisk :
      (rounds : ℕ) (d : D) (files : List F) (op : WriteOperation) (p : Option Datapoint)
      → OnDiskAfter stored
          (λ (s : D × Directory F × WriteOperation). s.0)
          d
          (remaining op)
          (write_known file reader fs rounds d files op p)
  write_known-OnDisk rounds d files op none = tt
  write_known-OnDisk rounds d files op (some p) =
      elim (find_first_potential_file rounds (map reader.min_timestamp files) p.timestamp)
        as (λ s.
          OnDiskAfter stored (λ (s : D × Directory F × WriteOperation). s.0) d (remaining op)
            (write_from_file file reader fs rounds d files op s)) [
              | found i ↦
                  let w : Writing D F = record {
                    disk = d;
                    datapoint_files = files;
                    file_it = i;
                    write_op = op;
                  } in
                  OnDiskAfter-map stored (λ (v : Writing D F). v.disk)
                    (λ (s : D × Directory F × WriteOperation). s.0) (after_loop file reader fs) d
                    (remaining op) (write_loop file rounds w) (λ v. refl)
                    (loop-OnDisk w (write_loop file rounds w)
                      (write_loop-Stored file stored well rounds w))
              | out_of_bounds ↦ tt
              | searching ↦ tt
            ]

  write_scanned-OnDisk :
      (rounds : ℕ) (d : D) (dir : Directory F) (op : WriteOperation) (files : Option (List F))
      → OnDiskAfter stored
          (λ (s : D × Directory F × WriteOperation). s.0)
          d
          (remaining op)
          (write_scanned file reader fs rounds d dir op files)
  write_scanned-OnDisk rounds d dir op none = (0, sym (append-nil (stored d)))
  write_scanned-OnDisk rounds d dir op (some files) =
      write_known-OnDisk rounds d files op (time_at_cursor file op)

  -- After the directory has been made.
  after_create :
      (rounds : ℕ) (d : D) (dir : Directory F) (op : WriteOperation) (o : Outcome D)
      → Ends (λ d'. stored d' ≡ stored d) o
      → OnDiskAfter stored
          (λ (s : D × Directory F × WriteOperation). s.0)
          d
          (remaining op)
          (and_then o
            (λ d'.
              if dir.filenames_read
              then write_known file reader fs rounds d' dir.datapoint_files op
                  (time_at_cursor file op)
              else write_scanned file reader fs rounds d' dir op (read_filenames reader d'))
            (λ d'. (d', dir, op)))
  after_create rounds d dir op (returned d') e =
      OnDiskAfter-same stored (λ (s : D × Directory F × WriteOperation). s.0) d d' (remaining op) _
        e
        (elim dir.filenames_read
          as (λ b.
            OnDiskAfter stored (λ (s : D × Directory F × WriteOperation). s.0) d' (remaining op)
              (if b
                then write_known file reader fs rounds d' dir.datapoint_files op
                    (time_at_cursor file op)
                else write_scanned file reader fs rounds d' dir op (read_filenames reader d'))) [
                  | true ↦
                      write_known-OnDisk rounds d' dir.datapoint_files op (time_at_cursor file op)
                  | false ↦ write_scanned-OnDisk rounds d' dir op (read_filenames reader d')
                ])
  after_create rounds d dir op (thrown d') e = (0, e ∙ sym (append-nil (stored d)))
  after_create rounds d dir op running e = tt

  -- The datapoints of the operation from the cursor on are on disk, once and in their order.
  pub write_directory-OnDisk :
      (depth rounds : ℕ) (path : List ℕ) (d : D) (dir : Directory F) (op : WriteOperation)
      → OnDiskAfter stored
          (λ (s : D × Directory F × WriteOperation). s.0)
          d
          (remaining op)
          (write_directory file reader fs depth rounds path d dir op)
  unfolding write_directory
  write_directory-OnDisk depth rounds path d dir op =
      after_create rounds d dir op (create_directory fs depth d path)
        (create_directory-Keeps fs stored makes depth d path)
