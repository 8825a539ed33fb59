-- ===== src/Db/Search/Query/Laws.antt =====
-- The SQL text of a search of series.
use vqro.Base.{
  ℕ, suc, ◌-◌, List, [], ◌∷◌, ◌++◌, ◌==◌, length, map, ◌≡◌, refl, ap, ◌∙◌, arith, append-nil,
  append_assoc, false,
}
use vqro.Db.Search.{Piece, literal, Sql}
use vqro.Db.Search.Query.{
  Predicate, exact_value, regex, predicate_not_set, LabelConstraint, SeriesQuery, predicate_sql,
  where_sql, joins_sql, series_sql,
}

-- Two predicates of one kind, whatever their values.
abbrev pub SameKind : Predicate → Predicate → Type 0
SameKind (exact_value v) (exact_value w) = Unit
SameKind (regex v) (regex w) = Unit
SameKind predicate_not_set predicate_not_set = Unit
SameKind p q = ⊥

abbrev pub SameShape : List LabelConstraint → List LabelConstraint → Type 0
SameShape [] [] = Unit
SameShape (c ∷ cs) (d ∷ ds) =
    (c.label_name ≡ d.label_name) × SameKind c.predicate d.predicate × SameShape cs ds
SameShape cs ds = ⊥

-- The clauses with AND between them.
abbrev pub joined_by_and : List Sql → Sql
joined_by_and [] = []
joined_by_and (s ∷ []) = s
joined_by_and (s ∷ (t ∷ ts)) = s ++ literal "AND " ∷ joined_by_and (t ∷ ts)

-- The values that a list of constraints asks for.
abbrev pub values_of : Predicate → List ℕ
values_of (exact_value v) = v
values_of (regex r) = r
values_of predicate_not_set = []

module _ (quote : List ℕ → Piece) where
  predicate_sql-same :
      (name : List ℕ) (p q : Predicate)
      → SameKind p q
      → predicate_sql quote name p ≡ predicate_sql quote name q
  predicate_sql-same name (exact_value v) (exact_value w) s = refl
  predicate_sql-same name (exact_value v) (regex w) s = elim s [ ]
  predicate_sql-same name (exact_value v) predicate_not_set s = elim s [ ]
  predicate_sql-same name (regex v) (exact_value w) s = elim s [ ]
  predicate_sql-same name (regex v) (regex w) s = refl
  predicate_sql-same name (regex v) predicate_not_set s = elim s [ ]
  predicate_sql-same name predicate_not_set (exact_value w) s = elim s [ ]
  predicate_sql-same name predicate_not_set (regex w) s = elim s [ ]
  predicate_sql-same name predicate_not_set predicate_not_set s = refl

  where_sql-same :
      (left : ℕ) (cs ds : List LabelConstraint)
      → SameShape cs ds
      → where_sql quote left cs ≡ where_sql quote left ds
  unfolding where_sql
  where_sql-same left [] [] s = refl
  where_sql-same left [] (d ∷ ds) s = elim s [ ]
  where_sql-same left (c ∷ cs) [] s = elim s [ ]
  where_sql-same left (c ∷ cs) (d ∷ ds) s =
      rw
        (
          s.0,
          predicate_sql-same d.label_name c.predicate d.predicate s.1,
          where_sql-same (left - 1) cs ds s.2,
        )
        refl

  joins_sql-same :
      (cs ds : List LabelConstraint) → SameShape cs ds → joins_sql quote cs ≡ joins_sql quote ds
  unfolding joins_sql
  joins_sql-same [] [] s = refl
  joins_sql-same [] (d ∷ ds) s = elim s [ ]
  joins_sql-same (c ∷ cs) [] s = elim s [ ]
  joins_sql-same (c ∷ cs) (d ∷ ds) s = rw (s.0, joins_sql-same cs ds s.2) refl

  length-SameShape : (cs ds : List LabelConstraint) → SameShape cs ds → length cs ≡ length ds
  length-SameShape [] [] s = refl
  length-SameShape [] (d ∷ ds) s = elim s [ ]
  length-SameShape (c ∷ cs) [] s = elim s [ ]
  length-SameShape (c ∷ cs) (d ∷ ds) s = ap suc (length-SameShape cs ds s.2)

  -- The SQL text of a search of series does not depend on the values and regular expressions of its
  -- constraints: queries with the same limits, label names and kinds of predicate have one text.
  pub series_sql-SameShape :
      (q r : SeriesQuery)
      → SameShape q.constraints r.constraints
      → q.result_limit ≡ r.result_limit
      → q.result_offset ≡ r.result_offset
      → series_sql quote q ≡ series_sql quote r
  unfolding series_sql
  series_sql-SameShape q r s limit offset =
      rw
        (
          joins_sql-same q.constraints r.constraints s,
          length-SameShape q.constraints r.constraints s,
          where_sql-same (length r.constraints) q.constraints r.constraints s,
          limit,
          offset,
        )
        refl

  -- The loop that counts the constraints down puts AND between the clauses, in their order, and
  -- nowhere else; a constraint without a predicate leaves an empty clause.
  pub where_sql-joined :
      (cs : List LabelConstraint)
      → where_sql quote (length cs) cs
        ≡ joined_by_and
            (map (λ (c : LabelConstraint). predicate_sql quote c.label_name c.predicate) cs)
  unfolding where_sql
  where_sql-joined [] = refl
  where_sql-joined (c ∷ []) =
      append-nil (predicate_sql quote c.label_name c.predicate ++ [])
      ∙ append-nil (predicate_sql quote c.label_name c.predicate)
  where_sql-joined (c ∷ (d ∷ cs)) =
      let left : suc (suc (length cs)) - 1 ≡ suc (length cs) = omega arith in
      let more : (suc (length cs) == 0) ≡ false = ground arith in
      rw (left, more)
        (append_assoc (predicate_sql quote c.label_name c.predicate) (literal "AND " ∷ [])
            (where_sql quote (length (d ∷ cs)) (d ∷ cs))
          ∙ ap (λ l. predicate_sql quote c.label_name c.predicate ++ literal "AND " ∷ l)
              (where_sql-joined (d ∷ cs)))
