-- ===== src/Db/Series/Read.antt =====
-- Series::Read.
pub mod Laws
pub mod Merging
use vqro.Base.{
  ℕ, ℤ, List, [], ◌∷◌, Bool, not, ◌&&◌, ◌||◌, leb_ℤ, ltb_ℤ, if◌then◌else◌, Outcome, returned,
  thrown, running, and_then,
}
use vqro.Db.Datapoint.{Datapoint}
use vqro.Db.ReadOp.{ReadOperation, append, has_space, complete}
use vqro.Db.WriteBuffer.{WriteBuffer, values, sort}
use vqro.Db.Directory.Files.{DatapointFile}
use vqro.Db.Directory.Read.{Directory, read_directory}

pub record Series (F : Type 0) : Type 0 where
  pub write_buffer : WriteBuffer
  pub data_dir : Directory F
  pub keystr : List ℕ
  pub keyint : ℕ
  pub is_indexed : Bool

-- A datapoint of the write buffer is merged in only if it lies in what is left of the range.
abbrev pub in_range : Datapoint → ReadOperation → Bool
in_range p op = leb_ℤ op.next_time p.timestamp && ltb_ℤ p.timestamp op.end_time

unfoldable pub merge : List Datapoint → ReadOperation → ReadOperation
merge [] op = op
merge (p ∷ ps) op =
    let rest : ReadOperation = merge ps (if in_range p op then append op p else op) in
    if complete op || not (has_space op) then op else rest

abbrev pub sort_if_needed : WriteBuffer → WriteBuffer
sort_if_needed wb = if wb.sorted then wb else sort wb

-- If the buffer was not filled, there is no more work to do.
abbrev pub force_completion : ReadOperation → ReadOperation
force_completion op = if has_space op then record op { next_time = op.end_time } else op

module _ {D F : Type 0} (file : DatapointFile D F) where
  -- Series::Read from the point where the directory has been read.
  abbrev pub merge_buffered : Series F → Directory F → ReadOperation → Series F × ReadOperation
  merge_buffered s dir op =
      let wb : WriteBuffer = sort_if_needed s.write_buffer in
      (record s { write_buffer = wb; data_dir = dir }, force_completion (merge (values wb) op))

  unfoldable pub read_series : ℕ → D → Series F → ReadOperation → Outcome (Series F × ReadOperation)
  unfolding read_directory merge sort values
  read_series rounds d s op =
      and_then (read_directory file rounds d s.data_dir op)
        (λ r. returned (merge_buffered s r.0 r.1)) (λ r. (record s { data_dir = r.0 }, r.1))
