-- ===== src/Db/Flush.antt =====
-- Series::FlushBufferedDatapoints (vqro/db/series.cc), and GetWorker (vqro/db/db.cc). `write` is the
-- Write of a series' directory, which is given the datapoints of the buffer in order.
pub mod Laws
pub mod Series
pub mod Rounds
use vqro.Base.{
  ℕ, zero, suc, ◌%◌, ◌+◌, ltb, leb, leb_ℤ, ◌==◌, ℤ, List, [], ◌∷◌, Bool, if◌then◌else◌, Outcome,
  returned, thrown, running, and_then,
}
use vqro.Db.Datapoint.{Datapoint}
use vqro.Db.WriteBuffer.{WriteBuffer, size, is_empty, sort, clear, values}
use vqro.Db.Series.Read.{sort_if_needed}

-- The number of the worker of a series.
unfoldable pub get_worker : ℕ → ℕ → ℕ
get_worker keyint workers = keyint % workers

module _ {D : Type 0} (write : List Datapoint → D → Outcome D) where
  -- The buffer is cleared only after the write.
  unfoldable pub flush_buffered : WriteBuffer → D → Outcome (WriteBuffer × D)
  unfolding sort clear values is_empty
  flush_buffered wb d =
      let ready : WriteBuffer = sort_if_needed wb in
      if is_empty wb
      then returned (wb, d)
      else and_then (write (values ready) d) (λ d'. returned (clear ready, d')) (λ d'. (ready, d'))
