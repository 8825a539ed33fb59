-- ===== src/Db/Search.antt =====
-- vqro/db/search_engine.cc and sql_statement.h. SQLite is an interface: what it answers is given by
-- its documentation, not by code of the repository. Texts are lists of bytes.
pub mod Statement
pub mod Query
pub mod Batches
pub mod Index
pub mod Open
use Prim.Native.String.{String}
use vqro.Base.{ℕ, ℤ, List, Option, none, some, [], Outcome, Bool, ◌&&◌, if◌then◌else◌}

-- A statement's text is put together from the literals of the source and texts that are computed.
pub data Piece : Type 0 where
  literal : String → Piece
  bytes : List ℕ → Piece

abbrev pub Sql : Type 0
Sql = List Piece

-- How sqlite3_step ends behind the last row: SQLITE_DONE, or an error.
pub data StepEnd : Type 0 where
  sqlite_done sqlite_error : StepEnd

-- What is bound to a question mark.
pub data SqlValue : Type 0 where
  text : List ℕ → SqlValue
  int64 : ℤ → SqlValue

-- The calls of SQLite. `C` is a connection with its database.
pub record Sqlite (C : Type 0) : Type 0 where
  -- sqlite3_snprintf with the format `"%w"`, into a buffer of a size.
  pub snprintf_w : ℕ → List ℕ → List ℕ
  -- sqlite3_prepare_v2 and the error that Prepare throws: whether the statement is accepted.
  pub prepares : C → Sql → Bool
  -- sqlite3_bind_text and sqlite3_bind_int64: whether all values are accepted.
  pub binds : C → Sql → List SqlValue → Bool
  -- The rows that the steps of a query yield, their first column, and how the steps end.
  pub rows : C → Sql → List SqlValue → List (List ℕ) × StepEnd
  -- One step of a statement, or sqlite3_exec: whether it ends well, and the connection behind it.
  pub step : C → Sql → List SqlValue → Outcome C
  pub last_insert_rowid : C → ℤ

-- Prepare, the bindings and the steps of a query: the rows, or `none` where Prepare or a binding
-- throws.
abbrev pub select :
    {C : Type 0} → Sqlite C → C → Sql → List SqlValue → Option (List (List ℕ) × StepEnd)
select sqlite c sql values =
    if sqlite.prepares c sql && sqlite.binds c sql values
    then some (sqlite.rows c sql values)
    else none
