-- ===== src/Db/Database/GetSeries/Laws.antt =====
-- Database::GetSeries: one object for each key, and which label sets share a key.
use vqro.Base.{
  ℕ, List, [], ◌∷◌, ◌++◌, true, false, ◌≡◌, refl, ap, ◌∙◌, arith, append_assoc, Option-cases, inl,
  inr, some,
}
use vqro.Db.Database.GetSeries.{
  text_lt, text_eq, Label, series_key, series, find, get_series, find_or_add, ordered,
}

pub text_eq_refl : (s : List ℕ) → text_eq s s ≡ true
unfolding text_eq
text_eq_refl [] = refl
text_eq_refl (c ∷ cs) = ground (arith, text_eq_refl cs)

pub text_eq→eq : (s t : List ℕ) → text_eq s t ≡ true → s ≡ t
unfolding text_eq
text_eq→eq [] [] h = refl
text_eq→eq [] (b ∷ bs) h = cc
text_eq→eq (a ∷ as') [] h = cc
text_eq→eq (a ∷ as') (b ∷ bs) h = ground (arith, text_eq→eq as' bs)

module _ {S : Type 0} (new_series : List ℕ → S) where
  find_or_add_twice :
      (table table' : List (List ℕ × S)) (key : List ℕ) (s : S)
      → find_or_add new_series table key ≡ series s table'
      → find_or_add new_series table' key ≡ series s table'
  find_or_add_twice table table' [] s h = cc
  find_or_add_twice table table' (c ∷ key) s h = elim (Option-cases (find (c ∷ key) table)) [
    | inl e ↦ unfold find in ground (arith, e, text_eq_refl (c ∷ key))
    | inr (t, e) ↦ ground (arith, e)
  ]

  find_or_add-find :
      (table table' : List (List ℕ × S)) (key : List ℕ) (s : S)
      → find_or_add new_series table key ≡ series s table'
      → find key table' ≡ some s
  find_or_add-find table table' [] s h = cc
  find_or_add-find table table' (c ∷ key) s h = elim (Option-cases (find (c ∷ key) table)) [
    | inl e ↦ unfold find in ground (arith, e, text_eq_refl (c ∷ key))
    | inr (t, e) ↦ ground (arith, e)
  ]

module _ {S : Type 0} (new_series : List Label → List ℕ → S) where
  -- The series that GetSeries returns stands in the table under the key of its labels.
  pub get_series-find :
      (table table' : List (List ℕ × S)) (labels : List Label) (s : S)
      → get_series new_series table labels ≡ series s table'
      → find (series_key labels) table' ≡ some s
  unfolding get_series
  get_series-find table table' labels s h =
      find_or_add-find (new_series (ordered labels)) table table' (series_key labels) s h

  -- Once GetSeries has returned a series, it returns the same one for these labels, and leaves the
  -- table as it is.
  pub get_series_twice :
      (table table' : List (List ℕ × S)) (labels : List Label) (s : S)
      → get_series new_series table labels ≡ series s table'
      → get_series new_series table' labels ≡ series s table'
  unfolding get_series
  get_series_twice table table' labels s h =
      find_or_add_twice (new_series (ordered labels)) table table' (series_key labels) s h

-- The key does not keep label sets apart: where a value holds `;` and `=`, one label has the key of
-- two, so that both get one series. The second name is one that is not before the first.
pub series_key_collision :
    (a b c d : List ℕ)
    → text_lt c a ≡ false
    → series_key ((a, b ++ b';' ∷ (c ++ b'=' ∷ d)) ∷ []) ≡ series_key ((a, b) ∷ (c, d) ∷ [])
unfolding series_key
series_key_collision a b c d h = rw h (
    ap (λ l. a ++ b'=' ∷ l)
      (append_assoc b (b';' ∷ (c ++ b'=' ∷ d)) (b';' ∷ [])
        ∙ ap (λ l. b ++ b';' ∷ l) (append_assoc c (b'=' ∷ d) (b';' ∷ []))))
