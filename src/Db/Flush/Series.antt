-- ===== src/Db/Flush/Series.antt =====
-- Series::Write and Series::FlushBufferedDatapoints (vqro/db/series.cc) on the directory of the series,
-- and sequences of them. `depth` and `rounds` are those of DatapointDirectory::Write.
pub mod Conserved
pub mod Race
use vqro.Base.{ℕ, List, [], ◌∷◌, Outcome, returned, and_then}
use vqro.Db.Datapoint.{Datapoint}
use vqro.Db.WriteOp.{write_operation}
use vqro.Db.WriteBuffer.{WriteBuffer, append}
use vqro.Db.FileSystem.{FileSystem}
use vqro.Db.Directory.Files.{DatapointFile}
use vqro.Db.Directory.Read.{Directory}
use vqro.Db.Directory.Write.{FileWriter}
use vqro.Db.Directory.Write.Whole.{write_directory}
use vqro.Db.Flush.{flush_buffered}

-- A series, with the disk that it is stored on.
pub record OnDisk (D F : Type 0) : Type 0 where
  pub write_buffer : WriteBuffer
  pub data_dir : Directory F
  pub disk : D

-- What is asked of a series: to take the datapoints of a request, and to flush.
pub data Command : Type 0 where
  write : List Datapoint → Command
  flush : Command

module _ {D F : Type 0} (file : FileWriter D F) (reader : DatapointFile D F) (fs : FileSystem D)
    (depth rounds : ℕ) (path : List ℕ) (fresh : Datapoint) where
  -- The Write of the directory, with an operation over the buffer's datapoints.
  unfoldable pub write_points : List Datapoint → Directory F × D → Outcome (Directory F × D)
  unfolding write_directory write_operation
  write_points points (dir, d) =
      and_then (write_directory file reader fs depth rounds path d dir (write_operation points))
        (λ r. returned (r.1, r.0)) (λ r. (r.1, r.0))

  abbrev pub with_parts : WriteBuffer × (Directory F × D) → OnDisk D F
  with_parts (wb, kept) = record { write_buffer = wb; data_dir = kept.0; disk = kept.1 }

  unfoldable pub flush_series : OnDisk D F → Outcome (OnDisk D F)
  unfolding flush_buffered write_points
  flush_series s =
      and_then (flush_buffered write_points s.write_buffer (s.data_dir, s.disk))
        (λ r. returned (with_parts r)) (λ r. with_parts r)

  unfoldable pub perform : Command → OnDisk D F → Outcome (OnDisk D F)
  unfolding append flush_series
  perform (write points) s =
      returned (record s { write_buffer = append fresh s.write_buffer points })
  perform flush s = flush_series s

  -- One command after the other, up to the first that throws.
  unfoldable pub perform_all : List Command → OnDisk D F → Outcome (OnDisk D F)
  unfolding perform
  perform_all [] s = returned s
  perform_all (c ∷ cs) s = and_then (perform c s) (λ t. perform_all cs t) (λ t. t)
