-- ===== src/Db/Directory/Write/Ordered.antt =====
-- DatapointDirectory::Write: the order of the files by their first timestamps.
use vqro.Base.{ℕ, ℤ, ◌≤ℤ◌, List, [], ◌∷◌, Outcome, returned, thrown, running, ◌≡◌}
use vqro.Db.WriteOp.{WriteOperation}
use vqro.Db.Directory.Write.{FileWriter}

module _ {D F : Type 0} (file : FileWriter D F) where
  open file use {min_timestamp}

  -- No file begins before `lo`, and none before the one in front of it.
  abbrev pub OrderedFrom : ℤ → List F → Type 0
  OrderedFrom lo [] = Unit
  OrderedFrom lo (f ∷ fs) = (lo ≤ℤ min_timestamp f) × OrderedFrom (min_timestamp f) fs

  -- What is asked of the Write of files: the first timestamp of a file stays, and that of a new file
  -- is the one that it was made with.
  abbrev pub SameStart : F → Outcome (D × F × ℕ) → Type 0
  SameStart f (returned (d, g, n)) = min_timestamp g ≡ min_timestamp f
  SameStart f (thrown (d, g, n)) = min_timestamp g ≡ min_timestamp f
  SameStart f running = Unit

  pub record KeepsStart : Type 0 where
    pub same_start : (d : D) (f : F) (op : WriteOperation) → SameStart f (file.write d f op)
    pub new_start : (t : ℤ) → min_timestamp (file.new_sparse t) ≡ t
