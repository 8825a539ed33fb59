-- ===== src/Db/Search/Query.antt =====
-- SearchEngine::SearchSeries and SearchLabels: the SQL text and its parameters, and SqlQuoteIdentifier.
pub mod Laws
use vqro.Base.{
  ℕ, zero, suc, ◌-◌, ℤ, pos, List, [], ◌∷◌, ◌++◌, ◌==◌, eqb_ℤ, length, if◌then◌else◌, map, ◌≡◌,
  refl, ap, ◌∙◌, sym, arith, append_assoc, Bool-cases, inl, inr, true, false,
}
use vqro.Db.Decimal.{to_string}
use vqro.Db.Search.{Piece, literal, bytes, Sql, SqlValue, text}

-- The predicate of a constraint; a protobuf can come without.
pub data Predicate : Type 0 where
  exact_value : List ℕ → Predicate
  regex : List ℕ → Predicate
  predicate_not_set : Predicate

pub record LabelConstraint : Type 0 where
  pub label_name : List ℕ
  pub predicate : Predicate

pub record SeriesQuery : Type 0 where
  pub constraints : List LabelConstraint
  pub result_limit : ℤ
  pub result_offset : ℤ

pub record LabelsQuery : Type 0 where
  pub label_regex : List ℕ
  pub result_limit : ℤ
  pub result_offset : ℤ

-- The offset counts only where there is a limit. `keyword` is the text in front of the limit.
unfoldable pub limit_sql : Piece → ℤ → ℤ → Sql
limit_sql keyword limit offset =
    (if eqb_ℤ limit (pos 0)
      then []
      else keyword
        ∷ bytes (to_string limit)
        ∷ (if eqb_ℤ offset (pos 0) then [] else literal " OFFSET " ∷ bytes (to_string offset) ∷ []))
    ++ literal ";" ∷ []

-- SqlQuoteIdentifier, over sqlite3_snprintf; the buffer has 4096 bytes.
unfoldable pub sql_quote_identifier : (ℕ → List ℕ → List ℕ) → List ℕ → Piece
sql_quote_identifier snprintf_w raw = bytes (snprintf_w 4096 raw)

module _ (quote : List ℕ → Piece) where
  -- The first loop of SearchSeries.
  unfoldable pub joins_sql : List LabelConstraint → Sql
  joins_sql [] = []
  joins_sql (c ∷ cs) =
      literal "INNER JOIN "
      ∷ quote c.label_name
      ∷ literal " ON \"vqro:series\".series_id = "
      ∷ quote c.label_name
      ∷ literal ".series_id "
      ∷ joins_sql cs

  abbrev pub predicate_sql : List ℕ → Predicate → Sql
  predicate_sql name (exact_value v) = quote name ∷ literal ".value = ? " ∷ []
  predicate_sql name (regex r) = quote name ∷ literal ".value REGEXP ? " ∷ []
  predicate_sql name predicate_not_set = []

  -- The second loop, which counts the constraints that are left.
  unfoldable pub where_sql : ℕ → List LabelConstraint → Sql
  where_sql left [] = []
  where_sql left (c ∷ cs) =
      predicate_sql c.label_name c.predicate
      ++ (if (left - 1) == 0 then [] else literal "AND " ∷ [])
      ++ where_sql (left - 1) cs

  unfoldable pub series_sql : SeriesQuery → Sql
  unfolding joins_sql where_sql limit_sql
  series_sql q =
      literal "SELECT protobuf FROM \"vqro:series\" "
      ∷ (joins_sql q.constraints
          ++ literal "WHERE "
            ∷ (where_sql (length q.constraints) q.constraints
                ++ limit_sql (literal "LIMIT ") q.result_limit q.result_offset))

abbrev pub predicate_parameters : Predicate → List SqlValue
predicate_parameters (exact_value v) = text v ∷ []
predicate_parameters (regex r) = text r ∷ []
predicate_parameters predicate_not_set = []

-- The parameters that the second loop collects.
unfoldable pub parameters : List LabelConstraint → List SqlValue
parameters [] = []
parameters (c ∷ cs) = predicate_parameters c.predicate ++ parameters cs

-- The statement of SearchLabels, white space apart.
unfoldable pub labels_sql : LabelsQuery → Sql
unfolding limit_sql
labels_sql q =
    literal
      "SELECT name FROM SQLITE_MASTER WHERE type='table' AND name NOT LIKE 'vqro:%' AND name REGEXP ? "
    ∷ limit_sql (literal " LIMIT ") q.result_limit q.result_offset
