-- ===== src/Db/Search/Statement.antt =====
-- vqro/db/sql_statement.h: SqlStatement as the owner of a prepared statement, which it finalizes. A
-- statement and a connection of SQLite are numbers.
use mathlib.Core.List.{Perm, perm_append_comm}
use vqro.Base.{ℕ, List, [], ◌∷◌, ◌++◌, Option, none, some, ◌≡◌, refl}

pub record SqlStatement : Type 0 where
  pub db : Option ℕ
  pub stmt : Option ℕ

-- The two constructors: without a statement, and with one.
unfoldable pub empty_statement : SqlStatement
empty_statement = record { db = none; stmt = none }

unfoldable pub new_statement : ℕ → ℕ → SqlStatement
new_statement sql_db sql_stmt = record { db = some sql_db; stmt = some sql_stmt }

-- The move assignment: what `this` and `other` are afterwards.
unfoldable pub move_assign : SqlStatement → SqlStatement → SqlStatement × SqlStatement
move_assign this other =
    (record { db = other.db; stmt = other.stmt }, record { db = this.db; stmt = this.stmt })

-- The move constructor, whose members are null before it.
unfoldable pub move_construct : SqlStatement → SqlStatement × SqlStatement
unfolding move_assign empty_statement
move_construct other = move_assign empty_statement other

-- The destructor, by the statements that it finalizes; a null pointer is none.
abbrev finalize : Option ℕ → List ℕ
finalize none = []
finalize (some stmt) = stmt ∷ []

unfoldable pub destroy_statement : SqlStatement → List ℕ
destroy_statement s = finalize s.stmt

-- Whatever is moved, the two destructors finalize the same statements, each as often as before.
move_assign-Perm :
    (this other : SqlStatement)
    → let moved = move_assign this other in
      Perm
        (destroy_statement moved.0 ++ destroy_statement moved.1)
        (destroy_statement this ++ destroy_statement other)
unfolding move_assign destroy_statement
move_assign-Perm this other = perm_append_comm (finalize other.stmt) (finalize this.stmt)

-- A statement that is moved into a new object is finalized once.
move_construct-once :
    (sql_db sql_stmt : ℕ)
    → let moved = move_construct (new_statement sql_db sql_stmt) in
      destroy_statement moved.0 ++ destroy_statement moved.1 ≡ sql_stmt ∷ []
unfolding move_construct destroy_statement new_statement
move_construct-once sql_db sql_stmt = refl
