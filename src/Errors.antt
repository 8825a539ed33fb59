-- ===== src/Errors.antt =====
-- The exceptions of the repository: vqro/base/base.h, vqro/base/worker.h, vqro/db/sql_statement.h and
-- vqro/db/db.h. Texts are lists of bytes.
pub mod Laws
use vqro.Base.{ℕ, ℤ, List, [], ◌∷◌, ◌++◌, Bool, true, false, Option, none, some, codes}
use vqro.Db.Decimal.{to_string}

pub data ErrorClass : Type 0 where
  error io_error worker_thread_too_busy sqlite_error database_error invalid_series_proto :
      ErrorClass

pub record Error : Type 0 where
  pub kind : ErrorClass
  pub message : List ℕ

abbrev pub generic_message : List ℕ
generic_message = codes "Generic vqro error"

-- What a class puts in front of a text that it is made of.
unfoldable pub prefix : ErrorClass → List ℕ
prefix error = []
prefix io_error = []
prefix worker_thread_too_busy = []
prefix sqlite_error = codes "SqliteError: "
prefix database_error = codes "DatabaseError: "
prefix invalid_series_proto = codes "DatabaseError: InvalidSeriesProto: "

-- The constructors. In the one without an argument, a class that is derived makes an Error with the
-- text that was meant, and drops it: what it is built on is Error().
unfoldable pub new_error : ErrorClass → Option (List ℕ) → Error
unfolding prefix
new_error kind none = record { kind = kind; message = generic_message }
new_error kind (some msg) = record { kind = kind; message = prefix kind ++ msg }

-- Whether a handler for the second class takes an exception of the first.
unfoldable pub is_a : ErrorClass → ErrorClass → Bool
is_a kind error = true
is_a io_error io_error = true
is_a worker_thread_too_busy worker_thread_too_busy = true
is_a sqlite_error sqlite_error = true
is_a database_error database_error = true
is_a invalid_series_proto database_error = true
is_a invalid_series_proto invalid_series_proto = true
is_a kind handler = false

-- IOErrorFromErrno; the text of strerror is an argument.
unfoldable pub io_error_from_errno : List ℕ → ℤ → List ℕ → Error
unfolding new_error to_string
io_error_from_errno msg errno text =
    new_error io_error
      (some (msg ++ codes " (errno=" ++ to_string errno ++ codes " " ++ text ++ codes ")"))

-- LogAndThrow throws a copy of its parameter, which has the parameter's type.
unfoldable pub log_and_throw : Error → Error
log_and_throw e = record { kind = error; message = e.message }
