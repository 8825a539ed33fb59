-- ===== src/Db/FileSystem.antt =====
-- What the datapoint files ask of the operating system, as an interface, and what vqro/base/fileutil.cc
-- makes of stat and mkdir. `D` is what the disk holds. Paths are lists of bytes.
pub mod Directories
use vqro.Base.{ℕ, List, Option, none, some, Outcome, Bool, true, false}

-- What stat says of a path, with st_size.
pub data Stat : Type 0 where
  absent : Stat
  directory : ℕ → Stat
  regular_file : ℕ → Stat

pub record FileSystem (D : Type 0) : Type 0 where
  pub stat : D → List ℕ → Stat
  -- open with O_CREAT, for writing; `none` where it fails.
  pub open_file : D → List ℕ → Option D
  -- WriteVector at the end of a file, and WriteValues at a position.
  pub append_vector : D → List ℕ → List (List ℕ) → Outcome D
  pub write_values_at : D → List ℕ → ℕ → List ℕ → Outcome D
  pub rename : D → List ℕ → List ℕ → Option D
  pub unlink : D → List ℕ → Option D
  -- mkdir, and whether its errno is ENOENT where it fails.
  pub mkdir : D → List ℕ → Option D
  pub is_missing_parent : D → List ℕ → Bool

-- GetFileSize, `none` where it throws.
abbrev pub size_of : Stat → Option ℕ
size_of absent = none
size_of (directory n) = some n
size_of (regular_file n) = some n

abbrev pub get_file_size : {D : Type 0} → FileSystem D → D → List ℕ → Option ℕ
get_file_size fs d path = size_of (fs.stat d path)

-- FileExists.
abbrev is_there : Stat → Bool
is_there absent = false
is_there (directory n) = true
is_there (regular_file n) = true

unfoldable pub file_exists : {D : Type 0} → FileSystem D → D → List ℕ → Bool
file_exists fs d path = is_there (fs.stat d path)
