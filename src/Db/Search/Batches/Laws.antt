-- ===== src/Db/Search/Batches/Laws.antt =====
-- What the callback of a search is given.
use vqro.Base.{
  ℕ, zero, suc, ◌-◌, ◌≤◌, ℤ, pos, leb_ℤ, pos_part, List, [], ◌∷◌, ◌++◌, length, take, drop, ◌==◌,
  Option, none, some, Option-cases, Outcome, returned, thrown, running, and_then, ◌≡◌, refl, sym,
  ap, subst, ◌∙◌, arith, Bool-cases, inl, inr, false, append_assoc, append-nil, length-append,
  take_all, drop_all, Ends, and_then-Ends,
}
use vqro.Db.Search.{StepEnd, sqlite_done, sqlite_error, Sqlite, select}
use vqro.Db.Search.Query.{SeriesQuery, series_sql, parameters, sql_quote_identifier}
use vqro.Db.Search.Batches.{finish, last_batch, search_loop, search_series, search_rows}

module _ {M : Type 0} where
  -- The rows that parse.
  abbrev pub valid : (List ℕ → Option M) → List (List ℕ) → List M
  valid parse [] = []
  valid parse (row ∷ rows) = elim (parse row) [
    | none ↦ valid parse rows
    | some m ↦ m ∷ valid parse rows
  ]

  -- The list cut into pieces of `suc n`, the last of which may be shorter. As many pieces as there
  -- are elements are enough.
  unfoldable pub chunks : ℕ → ℕ → List M → List (List M)
  chunks zero n xs = []
  chunks (suc fuel) n [] = []
  chunks (suc fuel) n (x ∷ xs) = take (suc n) (x ∷ xs) ∷ chunks fuel n (drop n xs)

  take-append : (ys xs : List M) → take (length ys) (ys ++ xs) ≡ ys
  take-append [] xs = refl
  take-append (y ∷ ys) xs = ap (λ l. y ∷ l) (take-append ys xs)

  drop-length : (ys xs : List M) → drop (length ys) (ys ++ xs) ≡ xs
  drop-length [] xs = refl
  drop-length (y ∷ ys) xs = drop-length ys xs

  -- A full piece comes off at the front.
  chunks-append :
      (fuel n : ℕ) (b xs : List M)
      → length b ≡ suc n
      → chunks (suc fuel) n (b ++ xs) ≡ b ∷ chunks fuel n xs
  unfolding chunks
  chunks-append fuel n [] xs e = absurd (omega (arith, e))
  chunks-append fuel n (y ∷ ys) xs e =
      let same : n ≡ length ys = omega (arith, e) in
      rw (same, take-append ys xs, drop-length ys xs) refl

  chunks_last :
      (fuel n : ℕ) (y : M) (ys : List M)
      → length ys ≤ n
      → chunks (suc fuel) n (y ∷ ys) ≡ (y ∷ ys) ∷ []
  unfolding chunks
  chunks_last zero n y ys le = rw (take_all n ys le) refl
  chunks_last (suc fuel) n y ys le = rw (take_all n ys le, drop_all n ys le) refl

module _ {M S : Type 0} (batch_size : ℤ) (callback : S → List M → Outcome S) where
  -- The callback on one batch after the other, until it throws.
  unfoldable pub for_each : List (List M) → S → Outcome S
  for_each [] s = returned s
  for_each (b ∷ bs) s = and_then (callback s b) (λ s'. for_each bs s') (λ s'. s')

  and_then_twice :
      (o : Outcome S) (f g : S → Outcome S)
      → and_then o (λ s. and_then (f s) g (λ s'. s')) (λ s. s)
        ≡ and_then (and_then o f (λ s. s)) g (λ s. s)
  and_then_twice (returned s) f g = refl
  and_then_twice (thrown s) f g = refl
  and_then_twice running f g = refl

  same_id :
      (o : Outcome S) (g : S → Outcome S)
      → and_then o g (λ s. s) ≡ and_then (and_then o (λ s. returned s) (λ s. s)) g (λ s. s)
  same_id (returned s) g = refl
  same_id (thrown s) g = refl
  same_id running g = refl

  same_after :
      (o : Outcome S) (f g : S → Outcome S)
      → ((s : S) → f s ≡ g s)
      → and_then o f (λ s. s) ≡ and_then o g (λ s. s)
  same_after (returned s) f g h = h s
  same_after (thrown s) f g h = refl
  same_after running f g h = refl

  -- A batch size below 1 counts as 1.
  abbrev pub extra : ℕ
  extra = pos_part batch_size - 1

  module _ (parse : List ℕ → Option M) (end : StepEnd) where
    abbrev Batched : ℕ → List M → S → Outcome S → Type 0
    Batched fuel ms s o =
        o
        ≡ and_then (for_each (chunks fuel extra ms) s) (λ s'. finish batch_size callback end s')
            (λ s'. s')

    last-Batched :
        (fuel : ℕ) (result : List M) (s : S)
        → length result ≤ fuel
        → length result ≤ extra
        → Batched fuel result s (last_batch batch_size callback end result s)
    unfolding for_each chunks
    last-Batched zero [] s le fits = refl
    last-Batched (suc fuel) [] s le fits = refl
    last-Batched zero (m ∷ ms) s le fits = absurd (omega (arith, le))
    last-Batched (suc fuel) (m ∷ ms) s le fits =
        subst
          (λ l.
            last_batch batch_size callback end (m ∷ ms) s
            ≡ and_then (for_each l s) (λ s'. finish batch_size callback end s') (λ s'. s'))
          (sym (chunks_last fuel extra m ms (omega (arith, fits))))
          (same_id (callback s (m ∷ ms)) (λ s'. finish batch_size callback end s'))

    full_batch :
        (fuel : ℕ) (b ms : List M) (s : S) (go : S → Outcome S)
        → length b ≡ suc extra
        → length (b ++ ms) ≤ fuel
        → ((k : ℕ) (s' : S) → length ms ≤ k → Batched k ms s' (go s'))
        → Batched fuel (b ++ ms) s (and_then (callback s b) go (λ s'. s'))
    unfolding for_each
    full_batch zero b ms s go e le h = absurd (omega (arith, length-append b ms, e, le))
    full_batch (suc fuel) b ms s go e le h = rw (chunks-append fuel extra b ms e) (
        same_after (callback s b) go _ (λ s'. h fuel s' (omega (arith, length-append b ms, e, le)))
        ∙ and_then_twice (callback s b) (for_each (chunks fuel extra ms))
            (λ s'. finish batch_size callback end s'))

    search_loop-Batched :
        (rows : List (List ℕ)) (fuel : ℕ) (result : List M) (s : S)
        → length (result ++ valid parse rows) ≤ fuel
        → length result ≤ extra
        → Batched fuel
            (result ++ valid parse rows)
            s
            (search_loop batch_size callback parse rows end result s)
    unfolding search_loop
    search_loop-Batched [] fuel result s le fits =
        rw (append-nil result) (last-Batched fuel result s (rw (append-nil result) at le) fits)
    search_loop-Batched (row ∷ rows) fuel result s le fits = elim (Option-cases (parse row)) [
      | inl e ↦
          rw (search_loop, valid, e)
            (search_loop-Batched rows fuel result s (rw (valid, e) at le) fits)
      | inr (m, e) ↦
          let whole = append_assoc result (m ∷ []) (valid parse rows) in
          let short = length-append result (m ∷ []) in
          rw (search_loop, valid, e, ← whole)
            (elim (Bool-cases (leb_ℤ batch_size (pos (length (result ++ m ∷ []))))) [
              | inl full ↦ rw full (
                  full_batch fuel (result ++ m ∷ []) (valid parse rows) s _
                    (ground (arith, short, full, fits)) (rw whole (rw (valid, e) at le))
                    (λ k s' h. search_loop-Batched rows k [] s' h (omega arith)))
              | inr room ↦ rw room (
                  search_loop-Batched rows fuel (result ++ m ∷ []) s
                    (rw whole (rw (valid, e) at le)) (ground (arith, short, room, fits)))
            ])
    ]

-- Where a search of series has a constraint and SQLite takes its statement, its outcome is that of
-- calling the callback on the valid rows, in their order and cut into batches of the batch size, of
-- which only the last may be smaller (a size below 1 counts as 1), until the callback throws, and
-- of throwing at the end if SQLite's last step was an error.
pub search_series-for_each :
    {C M S : Type 0} (sqlite : Sqlite C) (c : C) (batch_size : ℤ) (parse : List ℕ → Option M)
    (callback : S → List M → Outcome S) (q : SeriesQuery) (s : S) (rows : List (List ℕ))
    (end : StepEnd)
    → (length q.constraints == 0) ≡ false
    → select sqlite c
        (series_sql (sql_quote_identifier sqlite.snprintf_w) q)
        (parameters q.constraints)
      ≡ some (rows, end)
    → search_series sqlite c batch_size parse callback q s
      ≡ and_then
          (for_each batch_size callback
            (chunks (length (valid parse rows)) (pos_part batch_size - 1) (valid parse rows))
            s)
          (λ s'. finish batch_size callback end s')
          (λ s'. s')
unfolding search_series
search_series-for_each sqlite c batch_size parse callback q s rows end some_constraint selected =
    rw (some_constraint, selected)
      (search_loop-Batched batch_size callback parse end rows (length (valid parse rows)) [] s
        (omega arith) (omega arith))

-- What the callback keeps, a search keeps.
module _ {M S : Type 0} (P : S → Type 0) (batch_size : ℤ) (callback : S → List M → Outcome S)
    (keeps : (s : S) (ms : List M) → P s → Ends P (callback s ms)) where
  finish-Ends : (end : StepEnd) (s : S) → P s → Ends P (finish batch_size callback end s)
  finish-Ends sqlite_done s p = p
  finish-Ends sqlite_error s p = p

  last_batch-Ends :
      (end : StepEnd) (result : List M) (s : S)
      → P s
      → Ends P (last_batch batch_size callback end result s)
  last_batch-Ends end [] s p = finish-Ends end s p
  last_batch-Ends end (m ∷ ms) s p =
      and_then-Ends P P (callback s (m ∷ ms)) _ _ (keeps s (m ∷ ms) p)
        (λ s' p'. finish-Ends end s' p') (λ s' p'. p')

  search_loop-Ends :
      (parse : List ℕ → Option M) (rows : List (List ℕ)) (end : StepEnd) (result : List M) (s : S)
      → P s
      → Ends P (search_loop batch_size callback parse rows end result s)
  unfolding search_loop
  search_loop-Ends parse [] end result s p = last_batch-Ends end result s p
  search_loop-Ends parse (row ∷ rows) end result s p = elim (Option-cases (parse row)) [
    | inl e ↦ rw (search_loop, e) (search_loop-Ends parse rows end result s p)
    | inr (m, e) ↦
        rw (search_loop, e)
          (elim (Bool-cases (leb_ℤ batch_size (pos (length (result ++ m ∷ []))))) [
            | inl full ↦ rw full (
                and_then-Ends P P (callback s (result ++ m ∷ [])) _ _ (keeps s _ p)
                  (λ s' p'. search_loop-Ends parse rows end [] s' p') (λ s' p'. p'))
            | inr room ↦ rw room (search_loop-Ends parse rows end (result ++ m ∷ []) s p)
          ])
  ]

  selected-Ends :
      (parse : List ℕ → Option M) (o : Option (List (List ℕ) × StepEnd)) (s : S)
      → P s
      → Ends P (search_rows batch_size callback parse o s)
  unfolding search_rows
  selected-Ends parse none s p = p
  selected-Ends parse (some (rows, end)) s p = search_loop-Ends parse rows end [] s p

  pub search_series-Ends :
      {C : Type 0} (sqlite : Sqlite C) (c : C) (parse : List ℕ → Option M) (q : SeriesQuery) (s : S)
      → P s
      → Ends P (search_series sqlite c batch_size parse callback q s)
  unfolding search_series
  search_series-Ends sqlite c parse q s p = elim (Bool-cases (length q.constraints == 0)) [
    | inl e ↦ rw e p
    | inr e ↦ rw e (selected-Ends parse _ s p)
  ]
