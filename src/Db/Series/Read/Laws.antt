-- ===== src/Db/Series/Read/Laws.antt =====
-- Series::Read: what it returns, and that it makes headway.
use vqro.Base.{
  ℕ, List, [], ◌∷◌, not, ◌||◌, if◌then◌else◌, Ends, returned, and_then-Ends, Bool-cases, inl, inr,
  arith,
}
use vqro.Db.Datapoint.{Datapoint}
use vqro.Db.ReadOp.{ReadOperation, append, has_space, complete}
use vqro.Db.ReadOp.Chain.{
  Extends, Extends-refl, Extends-trans, append-Extends, Chain-Spread, Reading, Extends-Reading,
}
use vqro.Db.WriteBuffer.{values}
use vqro.Db.Directory.Files.{DatapointFile}
use vqro.Db.Directory.Read.Laws.{ReadsWell, read_directory-Extends}
use vqro.Db.Series.Read.{
  Series, merge, in_range, force_completion, read_series, merge_buffered, sort_if_needed,
}

one-Extends :
    (p : Datapoint) (op : ReadOperation) → Extends op (if in_range p op then append op p else op)
one-Extends p op = elim (Bool-cases (in_range p op)) [
  | inl e ↦ rw e (append-Extends op p (ground arith) (ground arith))
  | inr e ↦ rw e (Extends-refl op)
]

merge-Extends : (ps : List Datapoint) (op : ReadOperation) → Extends op (merge ps op)
unfolding merge
merge-Extends [] op = Extends-refl op
merge-Extends (p ∷ ps) op = elim (Bool-cases (complete op || not (has_space op))) [
  | inl e ↦ rw e (Extends-refl op)
  | inr e ↦ rw e (Extends-trans (one-Extends p op) (merge-Extends ps _))
]

force_completion-Reading :
    (before op : ReadOperation) → Extends before op → Reading before (force_completion op)
force_completion-Reading before op x = elim (Bool-cases (has_space op)) [
  | inl e ↦ rw e (record {
    points = x.points;
    appended = x.appended;
    spread = Chain-Spread before.next_time before.end_time x.points op.next_time x.chain;
    onward = inr (ground arith);
    same_end = x.same_end;
    same_size = x.same_size;
  })
  | inr e ↦ rw e (Extends-Reading x)
]

module _ {D F : Type 0} (file : DatapointFile D F) (well : ReadsWell file) where
  -- Where the Read of each file appends a chain of datapoints of the wanted range, Series::Read appends datapoints of what is left of the range, none
  -- overlapping the one before; afterwards `next_time` is
  -- where the last one is over, or the operation is complete. This holds where the directory
  -- throws, too, and as long as the search ends in the rounds given.
  pub read_series-Reading :
      (rounds : ℕ) (d : D) (s : Series F) (op : ReadOperation)
      → Ends (λ r. Reading op r.1) (read_series file rounds d s op)
  unfolding read_series
  read_series-Reading rounds d s op =
      and_then-Ends (λ r. Extends op r.1) (λ r. Reading op r.1) _
        (λ r. returned (merge_buffered file s r.0 r.1)) (λ r. (record s { data_dir = r.0 }, r.1))
        (read_directory-Extends file well rounds d s.data_dir op)
        (λ r h.
          force_completion-Reading op _
            (Extends-trans h (merge-Extends (values (sort_if_needed s.write_buffer)) r.1)))
        (λ r h. Extends-Reading h)
