-- ===== src/Db/Search/Index.antt =====
-- SearchEngine::IndexSeries and IndexLabel, over the interface of SQLite.
use vqro.Base.{
  ℕ, ℤ, pos, eqb_ℤ, List, [], ◌∷◌, Option, none, some, Bool, true, ◌&&◌, Outcome, returned, thrown,
  and_then, if◌then◌else◌,
}
use vqro.Db.Search.{Sql, literal, SqlValue, text, int64, Sqlite}
use vqro.Db.Search.Query.{sql_quote_identifier}
use vqro.Db.Database.GetSeries.{Label}

-- What IndexSeries reads of a series; the protobuf is `none` where it cannot be serialized.
pub record IndexedSeries : Type 0 where
  pub keystr : List ℕ
  pub protobuf : Option (List ℕ)
  pub labels : List Label
  pub is_indexed : Bool

abbrev pub series_insert_sql : Sql
series_insert_sql =
    literal "INSERT OR IGNORE INTO \"vqro:series\" (key, protobuf) VALUES (?, ?);" ∷ []

abbrev pub begin_sql : Sql
begin_sql = literal "BEGIN TRANSACTION" ∷ []

abbrev pub end_sql : Sql
end_sql = literal "END TRANSACTION" ∷ []

module _ {C : Type 0} (sqlite : Sqlite C) where
  open sqlite use {prepares, binds, step, last_insert_rowid, snprintf_w}

  -- The bindings and Execute of a prepared statement.
  abbrev pub bind_and_execute : Sql → List SqlValue → C → Outcome C
  bind_and_execute sql values c = if binds c sql values then step c sql values else thrown c

  abbrev pub create_sql : List ℕ → Sql
  unfolding sql_quote_identifier
  create_sql name =
      literal "CREATE TABLE IF NOT EXISTS "
      ∷ sql_quote_identifier snprintf_w name
      ∷ literal " (series_id INTEGER PRIMARY KEY NOT NULL, value TEXT NOT NULL)"
      ∷ []

  abbrev pub insert_sql : List ℕ → Sql
  unfolding sql_quote_identifier
  insert_sql name =
      literal "INSERT OR IGNORE INTO "
      ∷ sql_quote_identifier snprintf_w name
      ∷ literal " (series_id, value) VALUES (?, ?);"
      ∷ []

  -- From Prepare on.
  abbrev pub insert_label : ℤ → Label → C → Outcome C
  insert_label id (name, value) c =
      if prepares c (insert_sql name)
      then bind_and_execute (insert_sql name) (int64 id ∷ text value ∷ []) c
      else thrown c

  unfoldable pub index_label : ℤ → Label → C → Outcome C
  index_label id label c =
      and_then (step c (create_sql label.0) []) (insert_label id label) (λ c'. c')

  unfoldable pub index_labels : ℤ → List Label → C → Outcome C
  unfolding index_label
  index_labels id [] c = returned c
  index_labels id (l ∷ ls) c = and_then (index_label id l c) (index_labels id ls) (λ c'. c')

  -- The transaction. Nothing ends it where a label throws.
  unfoldable pub index_in_transaction : ℤ → List Label → C → Outcome C
  unfolding index_labels
  index_in_transaction id labels c =
      and_then (and_then (step c begin_sql []) (index_labels id labels) (λ c'. c'))
        (λ c'. step c' end_sql []) (λ c'. c')

  -- Behind the insertion of the series: the id 0 stands for no insertion.
  abbrev pub after_insert : List Label → C → Outcome C
  after_insert labels c =
      if eqb_ℤ (last_insert_rowid c) (pos 0)
      then returned c
      else index_in_transaction (last_insert_rowid c) labels c

  -- From SerializeToString on.
  abbrev pub with_protobuf : IndexedSeries → Option (List ℕ) → C → Outcome C
  with_protobuf s none c = thrown c
  with_protobuf s (some proto) c =
      and_then (bind_and_execute series_insert_sql (text s.keystr ∷ text proto ∷ []) c)
        (after_insert s.labels) (λ c'. c')

  -- The connection and the series behind IndexSeries.
  unfoldable pub index_series : IndexedSeries → C → Outcome (C × IndexedSeries)
  unfolding index_in_transaction
  index_series s c =
      if prepares c series_insert_sql && prepares c begin_sql && prepares c end_sql
      then and_then (with_protobuf s s.protobuf c)
          (λ c'. returned (c', record s { is_indexed = true })) (λ c'. (c', s))
      else thrown (c, s)
