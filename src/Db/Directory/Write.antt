-- ===== src/Db/Directory/Write.antt =====
-- DatapointDirectory::Write, over an interface of the files that it writes to.
pub mod Stored
pub mod Ordered
pub mod FullFile
pub mod Whole
pub mod OnDisk
use vqro.Base.{
  ℕ, zero, suc, ◌+◌, ℤ, pos, ◌-ℤ◌, ltb_ℤ, leb_ℤ, int64_max, Option, none, some, List, [], ◌∷◌, ◌==◌,
  Bool, if◌then◌else◌, Outcome, returned, thrown, running, and_then, get_elem?,
}
use vqro.Db.Datapoint.{Datapoint}
use vqro.Db.WriteOp.{WriteOperation, write_complete}

-- What the directory asks of a file. `D` is what the disk holds, `F` a file object. The Write of a
-- file changes both and returns how many datapoints it has written, from the cursor on.
pub record FileWriter (D F : Type 0) : Type 0 where
  pub min_timestamp : F → ℤ
  -- RemainingWritableDatapoints, `none` where it throws.
  pub remaining_writable : D → F → Option ℕ
  pub write : D → F → WriteOperation → Outcome (D × F × ℕ)
  -- The constructor of a sparse file whose first and last timestamp are the one given.
  pub new_sparse : ℤ → F
  -- sparse_file_max_size / datapoint_size.
  pub sparse_capacity : ℕ

-- What the loop works on.
pub record Writing (D F : Type 0) : Type 0 where
  pub disk : D
  pub datapoint_files : List F
  pub file_it : ℕ
  pub write_op : WriteOperation

module _ {F : Type 0} where
  -- vector::insert before a position, and the change of one element.
  abbrev pub insert_at : ℕ → F → List F → List F
  insert_at zero f fs = f ∷ fs
  insert_at (suc i) f [] = f ∷ []
  insert_at (suc i) f (g ∷ gs) = g ∷ insert_at i f gs

  abbrev pub set_at : ℕ → F → List F → List F
  set_at i f [] = []
  set_at zero f (g ∷ gs) = f ∷ gs
  set_at (suc i) f (g ∷ gs) = g ∷ set_at i f gs

module _ {D F : Type 0} (file : FileWriter D F) where
  open file use {min_timestamp, remaining_writable, write, new_sparse, sparse_capacity}

  -- The last timestamp before the file at an index, or the largest of all.
  abbrev pub time_before : Option F → ℤ
  time_before none = int64_max
  time_before (some f) = min_timestamp f -ℤ pos 1

  abbrev pub next_file : Writing D F → Writing D F
  next_file w = record w { file_it = suc w.file_it }

  abbrev pub with_limits : ℕ → ℤ → WriteOperation → WriteOperation
  with_limits count time op = record op {
    max_writable_datapoints = count;
    max_writable_timestamp = time;
  }

  abbrev pub advanced : ℕ → WriteOperation → WriteOperation
  advanced n op = record op { cursor = op.cursor + n }

  -- The new file has been written and is inserted.
  abbrev pub inserted : Writing D F → WriteOperation → D × F × ℕ → Writing D F
  inserted w op (d, f, n) = record {
    disk = d;
    datapoint_files = insert_at w.file_it f w.datapoint_files;
    file_it = suc w.file_it;
    write_op = advanced n op;
  }

  -- The end of a round: a new sparse file at the cursor's timestamp `t`. Where its Write throws it is
  -- not inserted.
  unfoldable pub write_new : ℤ → Writing D F → Outcome (Writing D F)
  write_new t w =
      let op : WriteOperation =
        with_limits sparse_capacity (time_before (get_elem? w.datapoint_files w.file_it))
          w.write_op in
      and_then (write w.disk (new_sparse t) op) (λ r. returned (inserted w op r))
        (λ r. record w { disk = r.0; write_op = op })

  -- An existing file has been written.
  abbrev pub written : Writing D F → WriteOperation → D × F × ℕ → Writing D F
  written w op (d, f, n) = record {
    disk = d;
    datapoint_files = set_at w.file_it f w.datapoint_files;
    file_it = suc w.file_it;
    write_op = advanced n op;
  }

  -- On to the next round if something was written, and to a new file otherwise.
  abbrev pub after_write : ℤ → Writing D F → ℕ → Outcome (Writing D F)
  after_write t w n =
      let new : Outcome (Writing D F) = write_new t w in if n == 0 then new else returned w

  abbrev pub write_existing : ℤ → Writing D F → F → WriteOperation → Outcome (Writing D F)
  write_existing t w f op =
      and_then (write w.disk f op) (λ r. after_write t (written w op r) r.2)
        (λ r. record (written w op r) { file_it = w.file_it; write_op = op })

  -- A round at a file with `count` datapoints of space, where the cursor's timestamp is `t`.
  abbrev pub write_at : ℤ → Writing D F → F → ℕ → Outcome (Writing D F)
  write_at t w f count =
      let limit : ℤ = time_before (get_elem? w.datapoint_files (suc w.file_it)) in
      let op : WriteOperation = with_limits count limit w.write_op in
      let limited : Writing D F = record w { write_op = op } in
      if count == 0
      then returned
          (next_file (record w { write_op = record w.write_op { max_writable_datapoints = 0 } }))
      else if ltb_ℤ limit t
      then returned (next_file limited)
      else if leb_ℤ (min_timestamp f) t
      then write_existing t limited f op
      else write_new t limited

  abbrev pub write_found : ℤ → Writing D F → Option F → Outcome (Writing D F)
  write_found t w none = write_new t w
  write_found t w (some f) = elim (remaining_writable w.disk f) [
    | none ↦ thrown w
    | some count ↦ write_at t w f count
  ]

  -- One round of the loop.
  unfoldable pub write_round : ℤ → Writing D F → Outcome (Writing D F)
  unfolding write_new
  write_round t w = write_found t w (get_elem? w.datapoint_files w.file_it)

  abbrev pub time_at_cursor : WriteOperation → Option Datapoint
  time_at_cursor op = get_elem? op.buffer op.cursor

  -- The loop. A cursor behind the end of the buffer, which has no datapoint to ask for a timestamp,
  -- counts as running.
  unfoldable pub write_loop : ℕ → Writing D F → Outcome (Writing D F)
  unfolding write_round write_complete
  write_loop zero w = running
  write_loop (suc rounds) w =
      let go : Datapoint → Outcome (Writing D F) =
        λ p. and_then (write_round p.timestamp w) (λ w'. write_loop rounds w') (λ w'. w') in
      if write_complete w.write_op
      then returned w
      else elim (time_at_cursor w.write_op) [ none ↦ running | some p ↦ go p ]
