-- ===== src/Db/Flush/Series/Race.antt =====
-- The flusher's thread calls Series::FlushBufferedDatapoints while the worker calls Series::Write,
-- with no lock on the buffer. The steps of the two in any order, each call of the buffer and of the
-- directory being one step.
use mathlib.Core.List.Perm
use mathlib.Core.List.{Perm, perm-append_left_iff}
use vqro.Base.{
  ℕ, ◌<◌, List, [], ◌++◌, length, returned, ◌≡◌, refl, ap, append-nil, false, arith, sym, subst,
}
use vqro.Db.Datapoint.{Datapoint}
use vqro.Db.WriteBuffer.{append, values, clear, is_empty}
use vqro.Db.WriteBuffer.Laws.{IsValid, without_nan}
use vqro.Db.WriteBuffer.Sorting.{values-contents, sort_if_needed-Perm}
use vqro.Db.Series.Read.{sort_if_needed}
use vqro.Db.FileSystem.{FileSystem}
use vqro.Db.Directory.Files.{DatapointFile}
use vqro.Db.Directory.Read.{Directory}
use vqro.Db.Directory.Write.{FileWriter}
use vqro.Db.Flush.Series.{OnDisk, write_points}
use vqro.Db.Flush.Series.Conserved.{all_points}

-- Where the flusher stands: outside of the flush, before the Write of the directory, before Clear.
pub data Phase : Type 0 where
  idle writing clearing : Phase

pub record Racing (D F : Type 0) : Type 0 where
  pub series : OnDisk D F
  pub phase : Phase

not_empty : (ps : List Datapoint) → 0 < length ps → (xs : List Datapoint) → ¬ Perm xs (xs ++ ps)
not_empty ps more xs p =
    let none_left : [] ≡ ps =
      Perm.nil-eq
        ((perm-append_left_iff xs).0 (subst (λ l. Perm l (xs ++ ps)) (sym (append-nil xs)) p)) in
    omega (arith, ap length none_left)

module _ {D F : Type 0} (file : FileWriter D F) (reader : DatapointFile D F) (fs : FileSystem D)
    (depth rounds : ℕ) (path : List ℕ) (fresh : Datapoint) where
  unfoldable pub worker_writes : List Datapoint → Racing D F → Racing D F
  unfolding append
  worker_writes points r = record r {
    series = record r.series { write_buffer = append fresh r.series.write_buffer points };
  }

  -- The test for an empty buffer, and Sort.
  unfoldable pub start_flush : Racing D F → Racing D F
  start_flush r = record {
    series = record r.series { write_buffer = sort_if_needed r.series.write_buffer };
    phase = writing;
  }

  unfoldable pub written_out : Directory F × D → Racing D F → Racing D F
  written_out kept r = record {
    series = record r.series { data_dir = kept.0; disk = kept.1 };
    phase = clearing;
  }

  unfoldable pub clear_flushed : Racing D F → Racing D F
  unfolding clear
  clear_flushed r = record {
    series = record r.series { write_buffer = clear r.series.write_buffer };
    phase = idle;
  }

  -- Each step, with the datapoints that it hands over.
  pub data Step (r : Racing D F) : List Datapoint → Racing D F → Type 0 where
    writes : (points : List Datapoint) → Step r points (worker_writes points r)
    starts : r.phase ≡ idle → is_empty r.series.write_buffer ≡ false → Step r [] (start_flush r)
    stores :
        (kept : Directory F × D)
        → r.phase ≡ writing
        → write_points file reader fs depth rounds path fresh
            (values r.series.write_buffer)
            (r.series.data_dir, r.series.disk)
          ≡ returned kept
        → Step r [] (written_out kept r)
    clears : r.phase ≡ clearing → Step r [] (clear_flushed r)

  -- The second argument is all that was handed over on the way.
  pub data Reach (r : Racing D F) : List Datapoint → Racing D F → Type 0 where
    here : Reach r [] r
    next :
        {before points : List Datapoint} {t u : Racing D F}
        → Reach r before t
        → Step t points u
        → Reach r (before ++ points) u

  module _ (stored : D → List Datapoint) where
    -- What the flusher and the worker leave where a Write comes between the Write of the directory
    -- and the Clear.
    after_race : OnDisk D F → Directory F × D → List Datapoint → Racing D F
    after_race s kept points = clear_flushed (
        worker_writes points (written_out kept (start_flush (record { series = s; phase = idle }))))

    after_race-Reach :
        (s : OnDisk D F) (kept : Directory F × D) (points : List Datapoint)
        → is_empty s.write_buffer ≡ false
        → write_points file reader fs depth rounds path fresh
            (values (sort_if_needed s.write_buffer))
            (s.data_dir, s.disk)
          ≡ returned kept
        → Reach (record { series = s; phase = idle }) points (after_race s kept points)
    unfolding after_race start_flush written_out worker_writes
    after_race-Reach s kept points some_in written =
        let start : Racing D F = record { series = s; phase = idle } in
        subst (λ l. Reach start l (after_race s kept points)) (append-nil points)
          (next
            (next (next (next here (starts refl some_in)) (stores kept refl written))
              (writes points))
            (clears refl))

    after_race-points :
        (s : OnDisk D F) (kept : Directory F × D) (points : List Datapoint)
        → all_points stored (after_race s kept points).series ≡ stored kept.1
    unfolding after_race clear_flushed worker_writes written_out clear
    after_race-points s kept points = append-nil (stored kept.1)

    -- A race that loses datapoints: where the flusher finds a buffer that is not empty, and the Write
    -- of the directory returns and has put the buffer's datapoints on disk, a request of the worker
    -- that comes before the Clear is lost. There are steps in which just that request is handed over
    -- and after which the flush is over; the disk and the buffer then hold what they held before the
    -- steps, and if the request has a datapoint that is not NAN, not that and the request.
    pub racing_write-lost :
        (s : OnDisk D F) (kept : Directory F × D) (points : List Datapoint)
        → IsValid s.write_buffer
        → is_empty s.write_buffer ≡ false
        → write_points file reader fs depth rounds path fresh
            (values (sort_if_needed s.write_buffer))
            (s.data_dir, s.disk)
          ≡ returned kept
        → stored kept.1 ≡ stored s.disk ++ values (sort_if_needed s.write_buffer)
        → 0 < length (without_nan points)
        → (t : Racing D F) × Reach (record { series = s; phase = idle }) points t
          × (t.phase ≡ idle)
          × Perm (all_points stored t.series) (all_points stored s)
          × ¬ Perm (all_points stored t.series) (all_points stored s ++ without_nan points)
    racing_write-lost s kept points v some_in written on_disk more =
        let (valid, same) = sort_if_needed-Perm s.write_buffer v in
        let kept_points : Perm (all_points stored (after_race s kept points).series)
            (all_points stored s) =
          rw
            (
              after_race-points s kept points,
              on_disk,
              values-contents (sort_if_needed s.write_buffer) valid,
            )
            (Perm.append_left (stored s.disk) same) in
        (
          after_race s kept points,
          after_race-Reach s kept points some_in written,
          unfold after_race clear_flushed in refl,
          kept_points,
          λ all.
              not_empty (without_nan points) more (all_points stored s)
                (Perm.trans (Perm.symm kept_points) all),
        )
