-- ===== src/Db/SparseFile/Write/Names.antt =====
-- What SparseFile::Write asks of the file system, and the names that stay free for the file.
use native.Mathlib.Decide.{ℕ_discrete}
use vqro.Base.{ℕ, List, some, ◌⊎◌, inl, inr, Ends, ◌≡◌, sym, ap, ◌∙◌}
use vqro.Db.Datapoint.{Datapoint}
use vqro.Db.FileName.{SparseFile}
use vqro.Db.FileSystem.{FileSystem, absent}
use vqro.Db.Directory.Write.OnDisk.{OnDiskAfter}
use vqro.Db.SparseFile.Write.{SparseEnv, sparse_path}

-- Paths can be compared.
unfoldable pub path_discrete : Discrete (List ℕ)
path_discrete = hlevel ℕ_discrete

module _ {D : Type 0} (fs : FileSystem D) (env : SparseEnv D) (stored : D → List Datapoint)
    (points_of : List (List ℕ) → List Datapoint) where
  -- All names but `path` are as they were.
  abbrev pub SameOthers : List ℕ → D → D → Type 0
  SameOthers path d d' = (q : List ℕ) → ¬ (q ≡ path) → fs.stat d' q ≡ fs.stat d q

  -- What the write asks of the file system. A rename destroys the file that has the
  -- new name, so nothing is said of one to a name that another file has. A vector is written whole, or
  -- up to the end of a datapoint where that fails.
  pub record StoresWell : Type 0 where
    pub opened :
        (d d' : D) (path : List ℕ)
        → fs.open_file d path ≡ some d'
        → (stored d' ≡ stored d) × SameOthers path d d'
    pub appended :
        (d : D) (path : List ℕ) (v : List (List ℕ))
        → OnDiskAfter stored (λ d'. d') d (points_of v) (fs.append_vector d path v)
          × Ends (SameOthers path d) (fs.append_vector d path v)
    pub renamed_to :
        (d d' : D) (path new : List ℕ)
        → fs.rename d path new ≡ some d'
        → (path ≡ new) ⊎ (fs.stat d new ≡ absent)
        → stored d' ≡ stored d
    pub renamed_from :
        (d d' : D) (path new : List ℕ)
        → fs.rename d path new ≡ some d'
        → ¬ (path ≡ new)
        → fs.stat d' path ≡ absent
    pub renamed_others :
        (d d' : D) (path new : List ℕ)
        → fs.rename d path new ≡ some d'
        → (q : List ℕ) → ¬ (q ≡ path)
        → ¬ (q ≡ new)
        → fs.stat d' q ≡ fs.stat d q
    pub queued :
        (d : D) (f : SparseFile)
        → Ends
            (λ d'. (stored d' ≡ stored d) × ((q : List ℕ) → fs.stat d' q ≡ fs.stat d q))
            (env.sparse_file_too_big d f)

  -- The other names of sparse files that begin where `f` does are free.
  abbrev pub IsAlone : SparseFile → D → Type 0
  IsAlone f d =
      (g : SparseFile)
      → g.min_timestamp ≡ f.min_timestamp
      → ¬ (sparse_path env.dir g ≡ sparse_path env.dir f)
      → fs.stat d (sparse_path env.dir g) ≡ absent

  module _ (well : StoresWell) where
    pub IsAlone-others :
        (f : SparseFile) (d d' : D)
        → SameOthers (sparse_path env.dir f) d d'
        → IsAlone f d
        → IsAlone f d'
    IsAlone-others f d d' same alone g m ne = same (sparse_path env.dir g) ne ∙ alone g m ne

    -- A file that is given another end or another suffix.
    pub rename-IsAlone :
        (f g : SparseFile) (d d' : D)
        → g.min_timestamp ≡ f.min_timestamp
        → fs.rename d (sparse_path env.dir f) (sparse_path env.dir g) ≡ some d'
        → IsAlone f d
        → (stored d' ≡ stored d) × IsAlone g d'
    rename-IsAlone f g d d' same e alone =
        let old : List ℕ = sparse_path env.dir f in
        let new : List ℕ = sparse_path env.dir g in
        elim (path_discrete new old) [
          | yes k ↦ (
            well.renamed_to d d' old new e (inl (sym k)),
            λ h m ne.
                well.renamed_others d d' old new e (sparse_path env.dir h) (λ l. ne (l ∙ sym k)) ne
                ∙ alone h (m ∙ same) (λ l. ne (l ∙ sym k)),
          )
          | no other ↦ (
            well.renamed_to d d' old new e (inr (alone g same other)),
            λ h m ne. elim (path_discrete (sparse_path env.dir h) old) [
              | yes l ↦ ap (fs.stat d') l ∙ well.renamed_from d d' old new e (λ r. other (sym r))
              | no apart ↦
                  well.renamed_others d d' old new e (sparse_path env.dir h) apart ne
                  ∙ alone h (m ∙ same) apart
            ],
          )
        ]
