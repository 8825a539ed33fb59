-- ===== src/Db/Database/Read.antt =====
-- Database::Read: the loop that reads a series buffer by buffer and hands each to the callback.
pub mod Laws
pub mod Ends
pub mod OneFile
use vqro.Base.{
  ℕ, zero, suc, ℤ, List, [], ◌∷◌, ◌++◌, Bool, if◌then◌else◌, ◌==◌, Outcome, returned, thrown,
  running,
}
use vqro.Db.Datapoint.{Datapoint}
use vqro.Db.ReadOp.{ReadOperation, read_operation, datapoints_in_buffer, clear_buffer, complete}

-- `S` is what Series::Read works on. `busy k` tells whether the worker turns the task of round `k`
-- down, that is, whether its Do throws.
module _ {S : Type 0} (read_series : S → ReadOperation → Outcome (S × ReadOperation))
    (busy : ℕ → Bool) where
  -- The state, the operation, and the buffers that the callback was given so far.
  abbrev pub Run : Type 0
  Run = S × ReadOperation × List (List Datapoint)

  -- From the end of the task on: without datapoints the loop is left, otherwise they are handed over
  -- and the buffer is cleared. `go` is the rest of the loop.
  abbrev hand_over :
      (S → ReadOperation → List (List Datapoint) → Outcome Run)
      → List (List Datapoint)
      → S × ReadOperation
      → Outcome Run
  hand_over go out r =
      let rest : Outcome Run = go r.0 (clear_buffer r.1) (out ++ r.1.buffer ∷ []) in
      if datapoints_in_buffer r.1 == 0 then returned (r.0, r.1, out) else rest

  -- An exception of the task stays in its future, so the loop goes on from what the task left.
  abbrev after_task :
      (S → ReadOperation → List (List Datapoint) → Outcome Run)
      → List (List Datapoint)
      → Outcome (S × ReadOperation)
      → Outcome Run
  after_task go out (returned r) = hand_over go out r
  after_task go out (thrown r) = hand_over go out r
  after_task go out running = running

  unfoldable pub read_loop : ℕ → ℕ → S → ReadOperation → List (List Datapoint) → Outcome Run
  read_loop zero k s op out = running
  read_loop (suc rounds) k s op out =
      let round : Outcome Run = after_task (read_loop rounds (suc k)) out (read_series s op) in
      if complete op then returned (s, op, out) else if busy k then thrown (s, op, out) else round

  unfoldable pub read_database : ℕ → S → ℤ → ℤ → ℤ → Bool → ℕ → Outcome Run
  unfolding read_loop read_operation clear_buffer
  read_database rounds s start end limit latest size =
      read_loop rounds 0 s (read_operation start end limit latest size) []
