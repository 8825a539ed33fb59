-- ===== src/Tests.antt =====
-- Data for the tests, and tests of each part at concrete inputs.
pub mod Workers
pub mod Files
pub mod Buffers
pub mod Disks
pub mod Reads
pub mod Names
pub mod Writes
pub mod Searches
pub mod Clients
pub mod Keys
pub mod Flushes
pub mod Json
pub mod Servers
use vqro.Base.{ℕ, ℤ, pos, List, [], ◌∷◌, Outcome, returned, Option, none, some, true}
use vqro.Db.Datapoint.{Datapoint}
use vqro.Db.ReadOp.{ReadOperation}
use vqro.Db.Directory.Files.{DatapointFile, Entry}
use vqro.Db.SparseFile.Read.{read_datapoints}

abbrev pub point : ℕ → ℕ → ℕ → Datapoint
point time value duration = record { timestamp = pos time; value = value; duration = pos duration }

abbrev pub three_points : List Datapoint
three_points = point 10 1 5 ∷ point 20 2 5 ∷ point 20 3 5 ∷ []

-- A read of the times from 0 up to 100 into a buffer for two datapoints.
abbrev pub wide_read : ReadOperation
wide_read = record {
  start_time = pos 0;
  next_time = pos 0;
  end_time = pos 100;
  datapoint_limit = pos 0;
  prefer_latest = true;
  buffer = [];
  buffer_size = 2;
}

-- A sparse file in memory.
pub record MemoryFile : Type 0 where
  pub first : ℤ
  pub last : ℤ
  pub points : List Datapoint

abbrev pub memory : DatapointFile Unit MemoryFile
memory = record {
  min_timestamp = λ f. f.first;
  max_timestamp = λ f. f.last;
  read = λ d f op. returned (read_datapoints f.points op);
  constant_from_filename = λ d name. none;
  dense_from_filename = λ d name. none;
  sparse_from_filename = λ d name. none;
  entries = λ d. some [];
}

abbrev pub memory_file : MemoryFile
memory_file = record { first = pos 10; last = pos 20; points = three_points }
