-- ===== src/Db/Directory/Files.antt =====
-- The interface of a datapoint file, and DatapointDirectory::ReadFilenames. `D` is what the disk
-- holds; `F` is an open file object, of any of the three classes.
use vqro.Base.{ℤ, Option, none, some, List, [], ◌∷◌, ◌++◌, Outcome, ltb_ℤ, if◌then◌else◌, ℕ}
use vqro.Db.ReadOp.{ReadOperation}

-- The kinds of directory entry that the code tells apart.
pub data EntryType : Type 0 where
  regular link unknown other : EntryType

pub record Entry : Type 0 where
  pub kind : EntryType
  pub name : List ℕ

-- class DatapointFile with the FromFilename of its three subclasses, and the directory's stream of
-- entries, `none` where opendir() fails.
pub record DatapointFile (D F : Type 0) : Type 0 where
  pub min_timestamp : F → ℤ
  pub max_timestamp : F → ℤ
  pub read : D → F → ReadOperation → Outcome ReadOperation
  pub constant_from_filename : D → List ℕ → Option F
  pub dense_from_filename : D → List ℕ → Option F
  pub sparse_from_filename : D → List ℕ → Option F
  pub entries : D → Option (List Entry)

module _ {D F : Type 0} (file : DatapointFile D F) where
  open file use {
    min_timestamp, constant_from_filename, dense_from_filename, sparse_from_filename, entries,
  }

  abbrev to_list : Option F → List F
  to_list none = []
  to_list (some f) = f ∷ []

  -- A dense file ends the round; the two other classes are both tried.
  abbrev unless_dense : Option F → Option F → List F
  unless_dense (some f) sparse = f ∷ []
  unless_dense none sparse = to_list sparse

  -- What one directory entry adds to `new_files`.
  pub files_of_name : D → List ℕ → List F
  files_of_name d name =
      to_list (constant_from_filename d name)
      ++ unless_dense (dense_from_filename d name) (sparse_from_filename d name)

  pub files_of_entry : D → EntryType → List ℕ → List F
  unfolding files_of_name
  files_of_entry d regular name = files_of_name d name
  files_of_entry d link name = files_of_name d name
  files_of_entry d unknown name = files_of_name d name
  files_of_entry d other name = []

  pub files_of_entries : D → List Entry → List F
  unfolding files_of_entry
  files_of_entries d [] = []
  files_of_entries d (e ∷ es) = files_of_entry d e.kind e.name ++ files_of_entries d es

  -- std::sort by operator<, that is, by the first timestamp.
  pub insert_file : F → List F → List F
  insert_file f [] = f ∷ []
  insert_file f (g ∷ gs) =
      if ltb_ℤ (min_timestamp g) (min_timestamp f) then g ∷ insert_file f gs else f ∷ g ∷ gs

  pub sort_files : List F → List F
  unfolding insert_file
  sort_files [] = []
  sort_files (f ∷ fs) = insert_file f (sort_files fs)

  -- `none` stands for the IOError.
  unfoldable pub read_filenames : D → Option (List F)
  unfolding sort_files files_of_entries
  read_filenames d = elim (entries d) [
    | none ↦ none
    | some es ↦ some (sort_files (files_of_entries d es))
  ]
