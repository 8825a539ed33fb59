-- ===== src/Db/Directory/Write/FullFile.antt =====
-- DatapointDirectory::Write at a full file that begins later.
use vqro.Base.{
  ℕ, ℤ, ◌<ℤ◌, some, [], ◌∷◌, Outcome, returned, thrown, running, and_then, ◌≡◌, ◌∙◌, arith,
}
use vqro.Db.WriteOp.{WriteOperation}
use vqro.Db.Directory.Write.{FileWriter, Writing, write_round, write_new, inserted}
use vqro.Db.Directory.Write.Ordered.{OrderedFrom, KeepsStart, SameStart}

module _ {D F : Type 0} (file : FileWriter D F) where
  -- The files are not in order when a round returns.
  abbrev pub Disordered : Outcome (Writing D F) → Type 0
  Disordered (returned v) = (lo : ℤ) → OrderedFrom file lo v.datapoint_files → ⊥
  Disordered (thrown v) = Unit
  Disordered running = Unit

  module _ (well : KeepsStart file) (d : D) (f : F) (t : ℤ) (op : WriteOperation)
      (later : t <ℤ file.min_timestamp f) where
    -- The operation and the state when the full file has been passed.
    abbrev after_full : Writing D F
    after_full = record {
      disk = d;
      datapoint_files = f ∷ [];
      file_it = 1;
      write_op = record op { max_writable_datapoints = 0 };
    }

    inserted-Disordered :
        (o : Outcome (D × F × ℕ)) (op' : WriteOperation)
        → SameStart file (file.new_sparse t) o
        → Disordered (
            and_then o
              (λ r. returned (inserted file after_full op' r))
              (λ r. record after_full { disk = r.0; write_op = op' }))
    inserted-Disordered (returned (d', g, n)) op' same =
        λ lo o. absurd (cross lo g (same ∙ well.new_start t) o)
      where
        cross : (lo : ℤ) (g : F) → file.min_timestamp g ≡ t → OrderedFrom file lo (f ∷ g ∷ []) → ⊥
        cross lo g start o = absurd (omega (arith, later, o.1.0, rw start at o.1.0))
    inserted-Disordered (thrown r) op' same = tt
    inserted-Disordered running op' same = tt

    -- Where files keep their first timestamps, and the one file of a directory is full and begins
    -- after the datapoint at the cursor: if the first two rounds of DatapointDirectory::Write
    -- return, the files are out of order, since the new file for the datapoint stands behind the
    -- full one.
    pub full_file-Disordered :
        file.remaining_writable d f ≡ some 0
        → Disordered (
            and_then
              (write_round file t
                (record { disk = d; datapoint_files = f ∷ []; file_it = 0; write_op = op }))
              (write_round file t)
              (λ v. v))
    unfolding write_round write_new
    full_file-Disordered full =
        rw full (inserted-Disordered (file.write d (file.new_sparse t) _) _ (well.same_start _ _ _))
