-- ===== src/Rpc/Storage.antt =====
-- VaqueroStorageServiceImpl: WriteDatapoints and ReadDatapoints. The counters, which are only logged, do
-- not overflow here.
pub mod Laws
use vqro.Base.{
  ℕ, zero, ◌+◌, ℤ, List, [], ◌∷◌, ◌++◌, length, Bool, true, false, Option, none, some, Outcome,
  returned, thrown, running, and_then, if◌then◌else◌,
}
use vqro.Db.Search.{Sqlite}
use vqro.Db.Search.Query.{SeriesQuery}
use vqro.Db.Search.Batches.{search_series}

-- How Database::Write ends, with the database behind it.
pub data Answer (D : Type 0) : Type 0 where
  accepted : D → Answer D
  invalid_series_proto : D → Answer D
  other_error : D → Answer D

module _ {D O : Type 0} (write : D → O → Answer D) (datapoints_size : O → ℕ) where
  -- The loop over the stream of operations. The number is `written`; only an invalid series is caught.
  unfoldable pub write_datapoints : List O → D → ℕ → Outcome (D × ℕ)
  write_datapoints [] d written = returned (d, written)
  write_datapoints (op ∷ ops) d written =
      let go : D → ℕ → Outcome (D × ℕ) = write_datapoints ops in
      elim (write d op) [
        | accepted d' ↦ go d' (written + datapoints_size op)
        | invalid_series_proto d' ↦ go d' written
        | other_error d' ↦ thrown (d', written)
      ]

-- What ReadDatapoints has come to: the results written to the client, the two counters, and whether
-- Database::Read has thrown.
pub record Reading (M P : Type 0) : Type 0 where
  pub results : List (M × List P)
  pub matched_series : ℕ
  pub datapoints_read : ℕ
  pub failed : Bool

pub data Selector (M : Type 0) : Type 0 where
  query : SeriesQuery → Selector M
  list : List M → Selector M
  selector_not_set : Selector M

-- The status, or an exception that is not caught.
pub data Status : Type 0 where
  ok invalid_argument uncaught : Status

module _ {M P : Type 0} (read : M → List (List P) × Bool) where
  -- The inner lambda, which is given one buffer after the other.
  unfoldable pub respond : M → List (List P) → Reading M P → Reading M P
  respond m [] r = r
  respond m (points ∷ buffers) r = respond m buffers (record r {
    results = r.results ++ (m, points) ∷ [];
    datapoints_read = r.datapoints_read + length points;
  })

  -- One series: `read` gives its buffers, and whether Database::Read throws behind them.
  abbrev pub read_one : M → List (List P) × Bool → Reading M P → Reading M P
  unfolding respond
  read_one m (buffers, threw) r =
      record (respond m buffers (record r { matched_series = r.matched_series + 1 })) {
        failed = threw;
      }

  -- The outer lambda.
  unfoldable pub read_series : Reading M P → List M → Outcome (Reading M P)
  unfolding read_one
  read_series r [] = returned r
  read_series r (m ∷ ms) =
      let next : Reading M P = read_one m (read m) r in
      let rest : Outcome (Reading M P) = read_series next ms in
      if next.failed then thrown next else rest

  abbrev pub nothing_read : Reading M P
  nothing_read = record { results = []; matched_series = 0; datapoints_read = 0; failed = false }

  -- An SqliteError is caught; an error of Database::Read is not.
  abbrev pub caught : Outcome (Reading M P) → Reading M P × Status
  caught (returned r) = (r, ok)
  caught (thrown r) = (r, if r.failed then uncaught else ok)
  caught running = (nothing_read, ok)

  unfoldable pub read_datapoints :
      {C : Type 0} → Sqlite C → C → ℤ → (List ℕ → Option M) → Selector M → Reading M P × Status
  unfolding search_series read_series
  read_datapoints sqlite c batch_size parse (query q) =
      caught (search_series sqlite c batch_size parse read_series q nothing_read)
  read_datapoints sqlite c batch_size parse (list ms) = caught (read_series nothing_read ms)
  read_datapoints sqlite c batch_size parse selector_not_set = (nothing_read, invalid_argument)
