-- ===== src/Db/Flush/Laws.antt =====
-- Flushing: what a flush leaves in the buffer.
use vqro.Base.{List, Outcome, returned, false, ◌≡◌, refl, ◌==◌}
use vqro.Db.Datapoint.{Datapoint}
use vqro.Db.WriteBuffer.{WriteBuffer, is_empty, clear, values}
use vqro.Db.Series.Read.{sort_if_needed}
use vqro.Db.Flush.{flush_buffered}

module _ {D : Type 0} (write : List Datapoint → D → Outcome D) where
  -- Where the directory's write returns, a flush of a buffer that is not empty returns too: the
  -- directory is what this write of the buffer's datapoints in order made of it, and the buffer is
  -- empty.
  flush_buffered-written :
      (wb : WriteBuffer) (d d' : D)
      → (wb.num_datapoints == 0) ≡ false
      → write (values (sort_if_needed wb)) d ≡ returned d'
      → (flush_buffered write wb d ≡ returned (clear (sort_if_needed wb), d'))
        × ((clear (sort_if_needed wb)).num_datapoints ≡ 0)
  unfolding flush_buffered is_empty clear
  flush_buffered-written wb d d' some_in written = (rw (some_in, written) refl, refl)
