-- ===== src/Tests/Searches.antt =====
-- The search engine.
use vqro.Base.{
  ℕ, pos, List, [], ◌∷◌, ◌++◌, Option, none, some, true, false, Outcome, returned, thrown, and_then,
  ◌≡◌, refl,
}
use vqro.Db.Search.{Sqlite, bytes, SqlValue, text, int64, sqlite_error}
use vqro.Db.Search.Query.{SeriesQuery, exact_value, regex, series_sql}
use vqro.Db.Search.Query.Laws.{series_sql-SameShape}
use vqro.Db.Search.Batches.{search_series, finish}
use vqro.Db.Search.Batches.Laws.{search_series-for_each, for_each, chunks}
use vqro.Db.Search.Index.{IndexedSeries, index_series}

-- The connection is the list of the values that were inserted into label tables. The key of the series
-- is there already, and the last series was inserted under the number 7.
abbrev log_step : List (List SqlValue) → List SqlValue → Outcome (List (List SqlValue))
log_step c [] = returned c
log_step c (int64 id ∷ values) = returned (c ++ (int64 id ∷ values) ∷ [])
log_step c (text t ∷ values) = returned c

abbrev toy_sqlite : Sqlite (List (List SqlValue))
toy_sqlite = record {
  snprintf_w = λ size raw. b'"' ∷ raw ++ b'"' ∷ [];
  prepares = λ c sql. true;
  binds = λ c sql values. true;
  rows = λ c sql values. ((1 ∷ []) ∷ [] ∷ (2 ∷ []) ∷ (3 ∷ []) ∷ [], sqlite_error);
  step = λ c sql values. log_step c values;
  last_insert_rowid = λ c. pos 7;
}

abbrev by_name : List ℕ → SeriesQuery
by_name value = record {
  constraints =
      record { label_name = b'a' ∷ []; predicate = exact_value value }
      ∷ record { label_name = b'b' ∷ []; predicate = regex value }
      ∷ [];
  result_limit = pos 5;
  result_offset = pos 2;
}

series_sql-SameShape_example :
    series_sql (λ name. bytes name) (by_name (b'x' ∷ []))
    ≡ series_sql (λ name. bytes name) (by_name (b'"' ∷ b';' ∷ []))
series_sql-SameShape_example =
    series_sql-SameShape (λ name. bytes name) (by_name (b'x' ∷ [])) (by_name (b'"' ∷ b';' ∷ []))
      (refl, tt, (refl, tt, tt)) refl refl

-- A row without bytes is no protobuf.
abbrev parse_row : List ℕ → Option ℕ
parse_row [] = none
parse_row (b ∷ bs) = some b

abbrev collect : List (List ℕ) → List ℕ → Outcome (List (List ℕ))
collect s ms = returned (s ++ ms ∷ [])

-- Two batches, and then the error.
search_series_test :
    search_series toy_sqlite [] (pos 2) parse_row collect (by_name (b'x' ∷ [])) []
    ≡ thrown ((1 ∷ 2 ∷ []) ∷ (3 ∷ []) ∷ [])
unfolding search_series
search_series_test = refl

search_series-for_each_example :
    search_series toy_sqlite [] (pos 2) parse_row collect (by_name (b'x' ∷ [])) []
    ≡ and_then
        (for_each (pos 2) collect ((1 ∷ 2 ∷ []) ∷ (3 ∷ []) ∷ []) [])
        (λ s. finish (pos 2) collect sqlite_error s)
        (λ s. s)
unfolding chunks
search_series-for_each_example =
    search_series-for_each toy_sqlite [] (pos 2) parse_row collect (by_name (b'x' ∷ [])) []
      ((1 ∷ []) ∷ [] ∷ (2 ∷ []) ∷ (3 ∷ []) ∷ []) sqlite_error refl refl

abbrev known_series : IndexedSeries
known_series = record {
  keystr = b'k' ∷ [];
  protobuf = some (b'p' ∷ []);
  labels = ((b'a' ∷ []), (b'b' ∷ [])) ∷ [];
  is_indexed = false;
}

-- The label is stored for the series 7, which is another one.
index_series_test :
    index_series toy_sqlite known_series []
    ≡ returned
        ((int64 (pos 7) ∷ text (b'b' ∷ []) ∷ []) ∷ [], record known_series { is_indexed = true })
unfolding index_series
index_series_test = refl
