-- ===== src/Db/Series/Read/Merging.antt =====
-- Series::Read: which datapoints of the write buffer it returns.
use mathlib.Core.List.{Mem}
use vqro.Base.{
  ℕ, ◌<◌, ◌≤ℤ◌, ◌<ℤ◌, List, ◌++◌, All, some, get_elem?, false, ◌⊎◌, ◌≡◌, Outcome, returned, thrown,
  running,
}
use vqro.Db.Datapoint.{Datapoint}
use vqro.Db.ReadOp.{ReadOperation, has_space, time_after}
use vqro.Db.ReadOp.Chain.{Reading}
use vqro.Db.WriteBuffer.{values}
use vqro.Db.Directory.Files.{DatapointFile}
use vqro.Db.Directory.Read.{Directory, read_directory}
use vqro.Db.Series.Read.{Series, sort_if_needed}

-- `p`, which stands at `i` of the buffered datapoints, is returned, or begins before a returned one in
-- front of it is over, or there is no space left for it.
abbrev pub Served : List Datapoint → List Datapoint → ReadOperation → ℕ → Datapoint → Type 0
Served buffered merged after i p =
    Mem p merged
    ⊎ (((j : ℕ) × (q : Datapoint) × (j < i)
          × (get_elem? buffered j ≡ some q)
          × Mem q merged
          × (p.timestamp <ℤ time_after q))
        ⊎ (has_space after ≡ false))

-- From `before` to `after`, datapoints of `buffered` were put behind the buffer: all that lie in what
-- was left of the range, but for those that overlap one of them, and as far as there was space.
pub record Merged (buffered : List Datapoint) (before after : ReadOperation) : Type 0 where
  pub merged : List Datapoint
  pub appended : after.buffer ≡ before.buffer ++ merged
  pub buffered_only : All (λ q. Mem q buffered) merged
  pub served :
      (i : ℕ) (p : Datapoint)
      → get_elem? buffered i ≡ some p
      → before.next_time ≤ℤ p.timestamp
      → p.timestamp <ℤ before.end_time
      → Served buffered merged after i p

module _ {D F : Type 0} (file : DatapointFile D F) (rounds : ℕ) (d : D) (s : Series F)
    (op : ReadOperation) where
  abbrev pub Collected : Outcome (Series F × ReadOperation) → Type 0
  Collected (returned (after, read)) =
      Reading op read
      × ((dir : Directory F) × (from_disk : ReadOperation) × (read_directory file rounds d
              s.data_dir op
            ≡ returned (dir, from_disk))
          × Merged (values (sort_if_needed s.write_buffer)) from_disk read)
  Collected (thrown (after, read)) = Reading op read
  Collected running = Unit
