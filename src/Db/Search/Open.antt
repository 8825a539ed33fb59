-- ===== src/Db/Search/Open.antt =====
-- The constructor of SearchEngine. `none` stands for an SqliteError; white space in the statements is
-- left out.
use vqro.Base.{ℕ, List, [], ◌∷◌, ◌++◌, Option, none, some, Outcome, returned, thrown, running}
use vqro.Db.Search.{Sqlite, Sql, literal, bytes, StepEnd, sqlite_done, sqlite_error}

-- sqlite3_open, and sqlite3_create_function_v2 for the function regexp.
pub record Opening (C : Type 0) : Type 0 where
  pub sqlite3_open : List ℕ → Option C
  pub create_regexp : C → Option C

pub record SearchFlags : Type 0 where
  pub search_db_file : List ℕ
  pub locking_mode : List ℕ
  pub journal_mode : List ℕ
  pub synchronous : List ℕ

-- The connection, and the names of the label tables.
abbrev pub Engine : Type 0 → Type 0
Engine C = C × List (List ℕ)

abbrev pub pragmas_sql : SearchFlags → Sql
pragmas_sql flags =
    literal "PRAGMA locking_mode="
    ∷ bytes flags.locking_mode
    ∷ literal ";PRAGMA journal_mode="
    ∷ bytes flags.journal_mode
    ∷ literal ";PRAGMA synchronous="
    ∷ bytes flags.synchronous
    ∷ literal ";"
    ∷ []

abbrev pub init_sql : Sql
init_sql =
    literal
      "CREATE TABLE IF NOT EXISTS \"vqro:series\" (series_id INTEGER PRIMARY KEY NOT NULL, key TEXT UNIQUE NOT NULL, protobuf BLOB NOT NULL);"
    ∷ []

abbrev pub scan_sql : Sql
scan_sql =
    literal "SELECT name FROM SQLITE_MASTER WHERE type='table' AND name NOT LIKE 'vqro:%';" ∷ []

-- What follows a call that may fail.
abbrev pub when_opened : {A B : Type 0} → Option A → (A → Option B) → Option B
when_opened none k = none
when_opened (some a) k = k a

-- sqlite3_exec of a statement.
abbrev pub ended_well : {C : Type 0} → Outcome C → Option C
ended_well (returned c) = some c
ended_well (thrown c) = none
ended_well running = none

-- Each row of the scan goes into the set of labels; names of tables are distinct.
abbrev pub scanned : {C : Type 0} → C → List (List ℕ) × StepEnd → Option (Engine C)
scanned c (names, sqlite_done) = some (c, names)
scanned c (names, sqlite_error) = none

unfoldable pub search_engine :
    {C : Type 0} → Sqlite C → Opening C → SearchFlags → List ℕ → Option (Engine C)
search_engine sqlite opening flags db_dir =
    when_opened (opening.sqlite3_open (db_dir ++ flags.search_db_file)) (λ c.
      when_opened (ended_well (sqlite.step c (pragmas_sql flags) [])) (λ c1.
        when_opened (opening.create_regexp c1) (λ c2.
          when_opened (ended_well (sqlite.step c2 init_sql []))
            (λ c3. scanned c3 (sqlite.rows c3 scan_sql [])))))
