-- ===== src/Db/Flush/Series/Conserved.antt =====
-- A series neither loses a datapoint nor stores one twice.
use mathlib.Core.List.Perm
use mathlib.Core.List.{Perm}
use vqro.Base.{
  ◌⊎◌, inl, inr, Bool-cases, ℕ, List, [], ◌∷◌, ◌++◌, take, drop, take-drop_append, Outcome,
  returned, thrown, running, and_then, ◌≡◌, refl, sym, ap, subst, append_assoc, append-nil, true,
}
use vqro.Db.Datapoint.{Datapoint}
use vqro.Db.WriteBuffer.{WriteBuffer, values, clear, is_empty}
use vqro.Db.WriteBuffer.Laws.{
  IsValid, contents, without_nan, append-contents, append-IsValid, clear-IsValid,
}
use vqro.Db.WriteBuffer.Sorting.{values-contents, sort_if_needed-Perm}
use vqro.Db.Series.Read.{sort_if_needed}
use vqro.Db.FileSystem.{FileSystem}
use vqro.Db.Directory.Files.{DatapointFile}
use vqro.Db.Directory.Read.{Directory}
use vqro.Db.Directory.Write.{FileWriter}
use vqro.Db.Directory.Write.OnDisk.{OnDiskAfter}
use vqro.Db.Flush.{flush_buffered}
use vqro.Db.Flush.Series.{
  OnDisk, Command, write, flush, write_points, flush_series, with_parts, perform, perform_all,
}

-- The datapoints that the commands hand over, without those that are NAN.
abbrev pub handed_over : List Command → List Datapoint
handed_over [] = []
handed_over (write points ∷ cs) = without_nan points ++ handed_over cs
handed_over (flush ∷ cs) = handed_over cs

handed_over-cons :
    (c : Command) (cs : List Command)
    → handed_over (c ∷ cs) ≡ handed_over (c ∷ []) ++ handed_over cs
handed_over-cons (write points) cs =
    ap (λ (l : List Datapoint). l ++ handed_over cs) (sym (append-nil (without_nan points)))
handed_over-cons flush cs = refl

module _ {D F : Type 0} (stored : D → List Datapoint) where
  -- The datapoints on disk, and behind them those of the buffer.
  abbrev pub all_points : OnDisk D F → List Datapoint
  all_points s = stored s.disk ++ contents s.write_buffer

module _ {D F : Type 0} (file : FileWriter D F) (reader : DatapointFile D F) (fs : FileSystem D)
    (stored : D → List Datapoint) (depth rounds : ℕ) (path : List ℕ) (fresh : Datapoint) where
  abbrev written_to : Directory F × D → D
  written_to s = s.1

  -- What a flush asks of the Write of the directory, if it calls it: that it puts the datapoints of
  -- the sorted buffer on disk, each once, and a first part of them where it throws.
  abbrev pub WritesOut : Command → OnDisk D F → Type 0
  WritesOut (write points) s = Unit
  WritesOut flush s =
      let points : List Datapoint = values (sort_if_needed s.write_buffer) in
      (is_empty s.write_buffer ≡ true)
      ⊎ OnDiskAfter stored written_to s.disk points
          (write_points file reader fs depth rounds path fresh points (s.data_dir, s.disk))

  abbrev IfReturned : (OnDisk D F → Type 0) → Outcome (OnDisk D F) → Type 0
  IfReturned P (returned t) = P t
  IfReturned P (thrown t) = Unit
  IfReturned P running = Unit

  -- Each Write of the directory that these commands come to does so.
  abbrev pub AllWriteOut : List Command → OnDisk D F → Type 0
  AllWriteOut [] s = Unit
  AllWriteOut (c ∷ cs) s =
      WritesOut c s
      × IfReturned (λ t. AllWriteOut cs t) (perform file reader fs depth rounds path fresh c s)

  -- What becomes of the datapoints of `s` and of the commands. Where they return, each is on disk or
  -- in the buffer, once. Where they throw, that is a flush, the commands behind it are not begun, and
  -- all datapoints from before it are still there: the first `k` of the buffer are on disk, too, and
  -- the disk and the rest of the buffer have each datapoint once.
  abbrev pub Conserved : List Command → OnDisk D F → Outcome (OnDisk D F) → Type 0
  Conserved cs s (returned t) =
      IsValid t.write_buffer × Perm (all_points stored t) (all_points stored s ++ handed_over cs)
  Conserved cs s (thrown t) =
      (done : List Command) × (rest : List Command) × (k : ℕ) × (cs ≡ done ++ flush ∷ rest)
      × Perm (stored t.disk ++ drop k (contents t.write_buffer))
          (all_points stored s ++ handed_over done)
  Conserved cs s running = Unit

  handed_over-step :
      (c : Command) (cs : List Command) (s t : OnDisk D F)
      → Perm (all_points stored t) (all_points stored s ++ handed_over (c ∷ []))
      → Perm (all_points stored t ++ handed_over cs) (all_points stored s ++ handed_over (c ∷ cs))
  handed_over-step c cs s t p =
      rw
        (
          handed_over-cons c cs,
          ← append_assoc (all_points stored s) (handed_over (c ∷ [])) (handed_over cs),
        )
        (Perm.append_right (handed_over cs) p)

  -- A command that returns, and those behind it.
  Conserved-cons :
      (c : Command) (cs : List Command) (s t : OnDisk D F) (o : Outcome (OnDisk D F))
      → Perm (all_points stored t) (all_points stored s ++ handed_over (c ∷ []))
      → Conserved cs t o
      → Conserved (c ∷ cs) s o
  Conserved-cons c cs s t (returned u) p h = (h.0, Perm.trans h.1 (handed_over-step c cs s t p))
  Conserved-cons c cs s t (thrown u) p (done, rest, k, e, h) = (
    c ∷ done,
    rest,
    k,
    ap (λ (l : List Command). c ∷ l) e,
    Perm.trans h (handed_over-step c done s t p),
  )
  Conserved-cons c cs s t running p h = tt

  -- One command: where it throws, it is a flush.
  abbrev One : Command → OnDisk D F → Outcome (OnDisk D F) → Type 0
  One c s (returned t) =
      IsValid t.write_buffer
      × Perm (all_points stored t) (all_points stored s ++ handed_over (c ∷ []))
  One c s (thrown t) =
      (k : ℕ) × (c ≡ flush)
      × Perm (stored t.disk ++ drop k (contents t.write_buffer)) (all_points stored s)
  One c s running = Unit

  One-then :
      (c : Command) (cs : List Command) (s : OnDisk D F) (o : Outcome (OnDisk D F))
      (next : OnDisk D F → Outcome (OnDisk D F))
      → One c s o
      → IfReturned (λ t. AllWriteOut cs t) o
      → ((t : OnDisk D F) → IsValid t.write_buffer → AllWriteOut cs t → Conserved cs t (next t))
      → Conserved (c ∷ cs) s (and_then o next (λ t. t))
  One-then c cs s (returned t) next h w more = Conserved-cons c cs s t (next t) h.1 (more t h.0 w)
  One-then c cs s (thrown t) next (k, e, h) w more =
      ([], cs, k, ap (λ (d : Command). d ∷ cs) e, rw (append-nil (all_points stored s)) h)
  One-then c cs s running next h w more = tt

  -- What the write of the directory made of the buffer's datapoints.
  flushed-One :
      (s : OnDisk D F) (o : Outcome (Directory F × D))
      → IsValid s.write_buffer
      → OnDiskAfter stored written_to s.disk (contents (sort_if_needed s.write_buffer)) o
      → One flush s (
          and_then
            (and_then o
              (λ d. returned (clear (sort_if_needed s.write_buffer), d))
              (λ d. (sort_if_needed s.write_buffer, d)))
            (λ r. returned (with_parts file reader fs depth rounds path fresh r))
            (λ r. with_parts file reader fs depth rounds path fresh r))
  flushed-One s (returned r) v h =
      let (valid, same) = sort_if_needed-Perm s.write_buffer v in
      (
        clear-IsValid (sort_if_needed s.write_buffer) valid,
        unfold clear in
            rw (append-nil (stored r.1), append-nil (all_points stored s), h)
              (Perm.append_left (stored s.disk) same),
      )
  flushed-One s (thrown r) v h =
      let (valid, same) = sort_if_needed-Perm s.write_buffer v in
      let points : List Datapoint = contents (sort_if_needed s.write_buffer) in
      let first : List Datapoint = take h.0 points in
      (
        h.0,
        refl,
        rw (h.1, append_assoc (stored s.disk) first (drop h.0 points), take-drop_append h.0 points)
            (Perm.append_left (stored s.disk) same),
      )
  flushed-One s running v h = tt

  flush_series-One :
      (s : OnDisk D F)
      → IsValid s.write_buffer
      → WritesOut flush s
      → One flush s (flush_series file reader fs depth rounds path fresh s)
  unfolding flush_series flush_buffered
  flush_series-One s v (inl empty) =
      rw empty (v, rw (append-nil (all_points stored s)) (Perm.refl (all_points stored s)))
  flush_series-One s v (inr out) =
      let ready : WriteBuffer = sort_if_needed s.write_buffer in
      let valid = (sort_if_needed-Perm s.write_buffer v).0 in
      let points = write_points file reader fs depth rounds path fresh in
      elim (Bool-cases (is_empty s.write_buffer)) [
        | inl empty ↦
            rw empty (v, rw (append-nil (all_points stored s)) (Perm.refl (all_points stored s)))
        | inr some_in ↦ rw some_in (
            flushed-One s (points (values ready) (s.data_dir, s.disk)) v (
              subst
                (λ l.
                  OnDiskAfter stored written_to s.disk l
                    (points (values ready) (s.data_dir, s.disk)))
                (values-contents ready valid) out))
      ]

  perform-One :
      (c : Command) (s : OnDisk D F)
      → IsValid s.write_buffer
      → WritesOut c s
      → One c s (perform file reader fs depth rounds path fresh c s)
  unfolding perform
  perform-One (write points) s v w = (
    append-IsValid fresh s.write_buffer points v,
    rw
        (
          append-contents fresh s.write_buffer points v,
          append-nil (without_nan points),
          append_assoc (stored s.disk) (contents s.write_buffer) (without_nan points),
        )
        (Perm.refl _),
  )
  perform-One flush s v w = flush_series-One s v w

  -- Where the allocations of the buffer are valid and each Write of the directory that the commands
  -- come to puts the datapoints that it is given on disk, or a first part of them where it throws:
  -- after any sequence of writes to a series and flushes of it that returns, each datapoint that was
  -- on disk, in the buffer or in a request, and not NAN in a request, is on disk or in the buffer,
  -- once. A sequence that throws has come to a flush of it, and has begun nothing behind that: all
  -- datapoints from before that flush are still there, those of a first part of the buffer on disk and
  -- in the buffer, and each other one once.
  pub perform_all-Conserved :
      (cs : List Command) (s : OnDisk D F)
      → IsValid s.write_buffer
      → AllWriteOut cs s
      → Conserved cs s (perform_all file reader fs depth rounds path fresh cs s)
  unfolding perform_all
  perform_all-Conserved [] s v w =
      (v, rw (append-nil (all_points stored s)) (Perm.refl (all_points stored s)))
  perform_all-Conserved (c ∷ cs) s v w =
      One-then c cs s (perform file reader fs depth rounds path fresh c s)
        (perform_all file reader fs depth rounds path fresh cs) (perform-One c s v w.0) w.1
        (perform_all-Conserved cs)
