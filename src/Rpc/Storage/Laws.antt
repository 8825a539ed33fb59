-- ===== src/Rpc/Storage/Laws.antt =====
-- What ReadDatapoints counts.
use vqro.Base.{
  ℕ, ◌+◌, ℤ, List, [], ◌∷◌, ◌++◌, length, Bool, Option, Outcome, returned, thrown, running, Ends,
  ◌≡◌, refl, arith, true, false, if◌then◌else◌,
}
use vqro.Db.Search.{Sqlite}
use vqro.Db.Search.Batches.Laws.{search_series-Ends}
use vqro.Rpc.Storage.{
  Reading, Selector, query, list, selector_not_set, respond, read_one, read_series, caught,
  read_datapoints, nothing_read,
}

module _ {M P : Type 0} where
  -- The datapoints of all results.
  abbrev pub total : List (M × List P) → ℕ
  total [] = 0
  total ((m, points) ∷ results) = length points + total results

  total-append :
      (xs : List (M × List P)) (m : M) (ps : List P)
      → total (xs ++ (m, ps) ∷ []) ≡ total xs + length ps
  total-append [] m ps = omega arith
  total-append ((n, qs) ∷ xs) m ps = omega (arith, total-append xs m ps)

  abbrev pub Counted : Reading M P → Type 0
  Counted r = r.datapoints_read ≡ total r.results

module _ {M P : Type 0} (read : M → List (List P) × Bool) where
  respond-Counted :
      (m : M) (buffers : List (List P)) (r : Reading M P)
      → Counted r
      → Counted (respond read m buffers r)
  unfolding respond
  respond-Counted m [] r h = h
  respond-Counted m (points ∷ buffers) r h =
      respond-Counted m buffers _ (omega (arith, h, total-append r.results m points))

  read_one-Counted :
      (m : M) (b : List (List P) × Bool) (r : Reading M P)
      → Counted r
      → Counted (read_one read m b r)
  unfolding read_one
  read_one-Counted m (buffers, threw) r h = respond-Counted m buffers _ h

  read_series-Counted :
      (r : Reading M P) (ms : List M) → Counted r → Ends Counted (read_series read r ms)
  unfolding read_series
  read_series-Counted r [] h = h
  read_series-Counted r (m ∷ ms) h =
      let next = read_one read m (read m) r in
      let counted = read_one-Counted m (read m) r h in
      elim next.failed
        as (λ b. Ends Counted (if b then thrown next else read_series read next ms)) [
          | true ↦ counted
          | false ↦ read_series-Counted next ms counted
        ]

  caught-Counted : (o : Outcome (Reading M P)) → Ends Counted o → Counted (caught read o).0
  caught-Counted (returned r) h = h
  caught-Counted (thrown r) h = h
  caught-Counted running h = refl

  -- However ReadDatapoints ends, and whatever selects the series, the number of datapoints that it has
  -- counted is that of the datapoints in the results written to the client.
  pub read_datapoints-Counted :
      {C : Type 0} (sqlite : Sqlite C) (c : C) (batch_size : ℤ) (parse : List ℕ → Option M)
      (selector : Selector M)
      → Counted (read_datapoints read sqlite c batch_size parse selector).0
  unfolding read_datapoints
  read_datapoints-Counted sqlite c batch_size parse (query q) = caught-Counted _ (
      search_series-Ends Counted batch_size (read_series read) read_series-Counted sqlite c parse q
        (nothing_read read) refl)
  read_datapoints-Counted sqlite c batch_size parse (list ms) =
      caught-Counted _ (read_series-Counted (nothing_read read) ms refl)
  read_datapoints-Counted sqlite c batch_size parse selector_not_set = refl
