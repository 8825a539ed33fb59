-- ===== src/Db/Database/Write.antt =====
-- Database: the directory of the constructor, and Write. A series is looked up, given the datapoints by
-- a task of its worker, and indexed if it has not been.
pub mod Laws
use vqro.Base.{
  ℕ, List, [], ◌∷◌, ◌++◌, ◌==◌, Bool, Outcome, returned, thrown, running, Option, none, some,
  if◌then◌else◌,
}
use vqro.Db.Database.GetSeries.{
  Label, Lookup, invalid_series_proto, series, get_series, series_key, text_eq,
}

-- A slash at the end, if there is none.
unfoldable pub with_slash : List ℕ → List ℕ
with_slash [] = b'/' ∷ []
with_slash (c ∷ []) = if c == b'/' then c ∷ [] else c ∷ b'/' ∷ []
with_slash (c ∷ (d ∷ cs)) = c ∷ with_slash (d ∷ cs)

-- `none` stands for the invalid_argument.
unfoldable pub root_dir : List ℕ → Option (List ℕ)
unfolding with_slash
root_dir [] = none
root_dir (c ∷ cs) = some (with_slash (c ∷ cs))

-- The table of the series, and the connection of the search engine.
pub data WriteResult (C S : Type 0) : Type 0 where
  wrote : List (List ℕ × S) → C → WriteResult C S
  invalid_series : WriteResult C S
  task_rejected : List (List ℕ × S) → C → WriteResult C S

module _ {S : Type 0} where
  -- The series under a key is changed where it stands.
  unfoldable pub update : List ℕ → S → List (List ℕ × S) → List (List ℕ × S)
  unfolding text_eq
  update key s [] = []
  update key s ((k, r) ∷ table) =
      if text_eq k key then (k, s) ∷ table else (k, r) ∷ update key s table

module _ {C S P : Type 0} (new_series : List Label → List ℕ → S) (append : S → List P → S)
    (is_indexed : S → Bool) (index_series : S → C → Outcome (C × S)) where
  -- An SqliteError is logged only, and IndexSeries throws nothing else. An outcome `running` does not occur.
  abbrev pub index_result : C → S → Outcome (C × S) → C × S
  index_result c s (returned r) = r
  index_result c s (thrown r) = r
  index_result c s running = (c, s)

  abbrev pub index_if_new : C → S → C × S
  index_if_new c s =
      let indexed : C × S = index_result c s (index_series s c) in
      if is_indexed s then (c, s) else indexed

  abbrev pub stored : List ℕ → List (List ℕ × S) → C × S → WriteResult C S
  stored key table (c, s) = wrote (update key s table) c

  -- The worker is busy where its Do throws.
  abbrev pub write_series : Bool → C → List ℕ → List P → Lookup S → WriteResult C S
  write_series busy c key points invalid_series_proto = invalid_series
  write_series busy c key points (series s table) =
      if busy then task_rejected table c else stored key table (index_if_new c (append s points))

  unfoldable pub write_database :
      Bool → List (List ℕ × S) → C → List Label → List P → WriteResult C S
  unfolding get_series update
  write_database busy table c labels points =
      write_series busy c (series_key labels) points (get_series new_series table labels)
