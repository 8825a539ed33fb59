-- ===== src/Rpc/Search.antt =====
-- VaqueroSearchServiceImpl: what is written to the client. The status is OK in every case, since an
-- error of SQLite is logged only.
use vqro.Base.{ℕ, ℤ, List, [], ◌∷◌, ◌++◌, Option, Outcome, returned, thrown, running}
use vqro.Db.Search.{Sqlite}
use vqro.Db.Search.Query.{SeriesQuery, LabelsQuery}
use vqro.Db.Search.Batches.{search_series, search_labels}

-- The lambda `respond`.
abbrev pub respond : {M : Type 0} → List (List M) → List M → Outcome (List (List M))
respond out results = returned (out ++ results ∷ [])

abbrev pub until_error : {A : Type 0} → A → Outcome A → A
until_error a (returned b) = b
until_error a (thrown b) = b
until_error a running = a

unfoldable pub service_search_series :
    {C M : Type 0} → Sqlite C → C → ℤ → (List ℕ → Option M) → SeriesQuery → List (List M)
unfolding search_series
service_search_series sqlite c batch_size parse query =
    until_error [] (search_series sqlite c batch_size parse respond query [])

unfoldable pub service_search_labels :
    {C : Type 0} → Sqlite C → C → ℤ → LabelsQuery → List (List (List ℕ))
unfolding search_labels
service_search_labels sqlite c batch_size query =
    until_error [] (search_labels sqlite c batch_size respond query [])
