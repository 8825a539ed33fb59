-- ===== src/Db/Database/Write/Laws.antt =====
-- What a write changes in the table of the series.
use vqro.Base.{
  ℕ, List, [], ◌∷◌, Bool-cases, inl, inr, some, ◌≡◌, refl, true, false, Bool, Outcome, returned,
  thrown, running, Halts,
}
use vqro.Db.Database.GetSeries.{text_eq, find, get_series, series, series_key, Label}
use vqro.Db.Database.GetSeries.Laws.{get_series-find, text_eq→eq}
use vqro.Db.Database.Write.{wrote, index_result, index_if_new, update, write_database}

module _ {S : Type 0} where
  -- The updated series is found, if there was one.
  find-update :
      (key : List ℕ) (s r : S) (table : List (List ℕ × S))
      → find key table ≡ some r
      → find key (update key s table) ≡ some s
  unfolding find update
  find-update key s r [] e = cc
  find-update key s r ((k, q) ∷ table) e = elim (Bool-cases (text_eq k key)) [
    | inl same ↦ rw (same, same) refl
    | inr other ↦ rw (other, other) (find-update key s r table (rw other at e))
  ]

  -- What stands under another key stays.
  find-update_other :
      (key other : List ℕ) (s : S) (table : List (List ℕ × S))
      → text_eq key other ≡ false
      → find other (update key s table) ≡ find other table
  unfolding find update
  find-update_other key other s [] h = refl
  find-update_other key other s ((k, q) ∷ table) h = elim (Bool-cases (text_eq k key)) [
    | inl same ↦
        let apart : text_eq k other ≡ false = rw (text_eq→eq k key same) h in rw (same, apart) refl
    | inr differs ↦ rw differs (elim (Bool-cases (text_eq k other)) [
      | inl e ↦ rw e refl
      | inr e ↦ rw e (find-update_other key other s table h)
    ])
  ]

module _ {C S P : Type 0} (new_series : List Label → List ℕ → S) (append : S → List P → S)
    (is_indexed : S → Bool) (index_series : S → C → Outcome (C × S)) where
  -- How the indexing of a series ends: one that is indexed is left alone, and of one that is not
  -- there is left what IndexSeries leaves, whether it returns or throws.
  pub data Indexing (c : C) (s : S) : C → S → Type 0 where
    known : is_indexed s ≡ true → Indexing c s c s
    indexed :
        {c' : C} {s' : S}
        → is_indexed s ≡ false
        → index_series s c ≡ returned (c', s')
        → Indexing c s c' s'
    failed :
        {c' : C} {s' : S}
        → is_indexed s ≡ false
        → index_series s c ≡ thrown (c', s')
        → Indexing c s c' s'

  result-Indexing :
      (c : C) (s : S) (o : Outcome (C × S))
      → is_indexed s ≡ false
      → index_series s c ≡ o
      → Halts o
      → let r = index_result new_series append is_indexed index_series c s o in Indexing c s r.0 r.1
  result-Indexing c s (returned r) new e h = indexed new e
  result-Indexing c s (thrown r) new e h = failed new e
  result-Indexing c s running new e h = absurd h

  index_if_new-Indexing :
      (c : C) (s : S)
      → Halts (index_series s c)
      → let r = index_if_new new_series append is_indexed index_series c s in Indexing c s r.0 r.1
  index_if_new-Indexing c s h = elim (Bool-cases (is_indexed s)) [
    | inl e ↦ rw e (known e)
    | inr e ↦ rw e (result-Indexing c s (index_series s c) e refl h)
  ]

  -- Where the worker takes the task and the indexing ends: Database::Write leaves the series of the
  -- labels under their key with the datapoints appended to it. If it was not indexed, IndexSeries is
  -- called with it, and its outcome, also that of one that throws, is what stands there and what
  -- becomes of the connection; if it was, both are as the appending left them. Under every other key
  -- the table holds what GetSeries left there.
  pub write_database-find :
      (table table' : List (List ℕ × S)) (c : C) (labels : List Label) (points : List P) (s : S)
      → get_series new_series table labels ≡ series s table'
      → Halts (index_series (append s points) c)
      → (after : List (List ℕ × S)) × (c' : C) × (s' : S) × (write_database new_series append
            is_indexed index_series false table c labels points
          ≡ wrote after c')
        × Indexing c (append s points) c' s'
        × (find (series_key labels) after ≡ some s')
        × ((other : List ℕ)
            → text_eq (series_key labels) other ≡ false
            → find other after ≡ find other table')
  unfolding write_database
  write_database-find table table' c labels points s e ends =
      let r = index_if_new new_series append is_indexed index_series c (append s points) in
      (
        update (series_key labels) r.1 table',
        r.0,
        r.1,
        rw e refl,
        index_if_new-Indexing c (append s points) ends,
        find-update (series_key labels) r.1 s table'
            (get_series-find new_series table table' labels s e),
        λ other h. find-update_other (series_key labels) other r.1 table' h,
      )
