-- ===== src/Db/FileSystem/Directories.antt =====
-- CreateDirectory.
use vqro.Base.{
  ℕ, zero, suc, List, [], ◌∷◌, Option, none, some, Outcome, returned, thrown, running, and_then,
  ◌==◌, if◌then◌else◌,
}
use vqro.Db.FileSystem.{FileSystem, absent, directory, regular_file}

-- What stands in front of the last slash, where there is one.
unfoldable pub parent_dir : List ℕ → Option (List ℕ)
parent_dir [] = none
parent_dir (c ∷ cs) =
    let here : Option (List ℕ) = if c == b'/' then some [] else none in
    elim (parent_dir cs) [ none ↦ here | some p ↦ some (c ∷ p) ]

module _ {D : Type 0} (fs : FileSystem D) where
  open fs use {stat, mkdir, is_missing_parent}

  -- The parent first, and then again.
  abbrev pub from_parent : (D → List ℕ → Outcome D) → D → List ℕ → Option (List ℕ) → Outcome D
  from_parent go d path none = thrown d
  from_parent go d path (some parent) =
      if is_missing_parent d path
      then and_then (go d parent) (λ d'. go d' path) (λ d'. d')
      else thrown d

  abbrev pub created : (D → List ℕ → Outcome D) → D → List ℕ → Option D → Outcome D
  created go d path (some d') = returned d'
  created go d path none = from_parent go d path (parent_dir path)

  -- `depth` bounds the calls of CreateDirectory in each other.
  unfoldable pub create_directory : ℕ → D → List ℕ → Outcome D
  unfolding parent_dir
  create_directory zero d path = running
  create_directory (suc depth) d path =
      let make : Outcome D = created (create_directory depth) d path (mkdir d path) in
      elim (stat d path) [ absent ↦ make | directory n ↦ returned d | regular_file n ↦ thrown d ]
