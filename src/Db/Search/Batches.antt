-- ===== src/Db/Search/Batches.antt =====
-- SearchEngine::SearchSeries and SearchLabels: from the rows of the query to the callback.
pub mod Laws
use vqro.Base.{
  ℕ, ℤ, pos, leb_ℤ, List, [], ◌∷◌, ◌++◌, length, ◌==◌, Option, none, some, Outcome, returned,
  thrown, and_then, if◌then◌else◌, Bool,
}
use vqro.Db.Search.{StepEnd, sqlite_done, sqlite_error, Sqlite, SqlValue, text, select, Piece}
use vqro.Db.Search.Query.{
  SeriesQuery, LabelsQuery, series_sql, labels_sql, parameters, sql_quote_identifier,
}

-- `S` is what the callback changes, `M` what a batch is made of.
module _ {M S : Type 0} (batch_size : ℤ) (callback : S → List M → Outcome S) where
  -- Behind the loop: an end that is not SQLITE_DONE is thrown as an error.
  abbrev pub finish : StepEnd → S → Outcome S
  finish sqlite_done s = returned s
  finish sqlite_error s = thrown s

  abbrev pub last_batch : StepEnd → List M → S → Outcome S
  last_batch end [] s = finish end s
  last_batch end (m ∷ ms) s = and_then (callback s (m ∷ ms)) (λ s'. finish end s') (λ s'. s')

  -- The loop over the rows. `parse` is ParseFromArray, `none` where the row is no valid protobuf; a
  -- row of SearchLabels always counts.
  unfoldable pub search_loop :
      (List ℕ → Option M) → List (List ℕ) → StepEnd → List M → S → Outcome S
  search_loop parse [] end result s = last_batch end result s
  search_loop parse (row ∷ rows) end result s =
      let go : List M → S → Outcome S = search_loop parse rows end in
      elim (parse row) [
        | none ↦ go result s
        | some m ↦
            if leb_ℤ batch_size (pos (length (result ++ m ∷ [])))
            then and_then (callback s (result ++ m ∷ [])) (λ s'. go [] s') (λ s'. s')
            else go (result ++ m ∷ []) s
      ]

  unfoldable pub search_rows :
      (List ℕ → Option M) → Option (List (List ℕ) × StepEnd) → S → Outcome S
  unfolding search_loop
  search_rows parse none s = thrown s
  search_rows parse (some (rows, end)) s = search_loop parse rows end [] s

unfoldable pub search_series :
    {C M S : Type 0}
    → Sqlite C
    → C
    → ℤ
    → (List ℕ → Option M)
    → (S → List M → Outcome S)
    → SeriesQuery
    → S
    → Outcome S
unfolding search_rows series_sql parameters sql_quote_identifier
search_series sqlite c batch_size parse callback query s =
    if length query.constraints == 0
    then returned s
    else search_rows batch_size callback parse
        (select sqlite c (series_sql (sql_quote_identifier sqlite.snprintf_w) query)
          (parameters query.constraints))
        s

unfoldable pub search_labels :
    {C S : Type 0}
    → Sqlite C
    → C
    → ℤ
    → (S → List (List ℕ) → Outcome S)
    → LabelsQuery
    → S
    → Outcome S
unfolding search_rows labels_sql
search_labels sqlite c batch_size callback query s =
    if length query.label_regex == 0
    then returned s
    else search_rows batch_size callback (λ row. some row)
        (select sqlite c (labels_sql query) (text query.label_regex ∷ [])) s
