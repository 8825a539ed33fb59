-- ===== src/Db/Database/GetSeries.antt =====
-- Database::GetSeries: the key of a series, and the table of the series by key. Texts are lists of
-- bytes. The lock is held over the whole search and insertion, so these are one step.
pub mod Laws
pub mod AnyOrder
use vqro.Base.{
  ℕ, zero, suc, List, [], ◌∷◌, ◌++◌, Bool, true, false, ltb, ◌==◌, if◌then◌else◌, Option, none,
  some,
}

-- operator< of std::string.
unfoldable pub text_lt : List ℕ → List ℕ → Bool
text_lt [] [] = false
text_lt [] (b ∷ bs) = true
text_lt (a ∷ as') [] = false
text_lt (a ∷ as') (b ∷ bs) =
    let rest = text_lt as' bs in if ltb a b then true else if a == b then rest else false

unfoldable pub text_eq : List ℕ → List ℕ → Bool
text_eq [] [] = true
text_eq [] (b ∷ bs) = false
text_eq (a ∷ as') [] = false
text_eq (a ∷ as') (b ∷ bs) = let rest = text_eq as' bs in if a == b then rest else false

abbrev pub Label : Type 0
Label = List ℕ × List ℕ

-- std::map keeps its entries by name; the labels of a proto map have distinct names.
unfoldable pub insert_label : Label → List Label → List Label
unfolding text_lt
insert_label l [] = l ∷ []
insert_label l (m ∷ ms) = if text_lt m.0 l.0 then m ∷ insert_label l ms else l ∷ m ∷ ms

unfoldable pub ordered : List Label → List Label
unfolding insert_label
ordered [] = []
ordered (l ∷ ls) = insert_label l (ordered ls)

-- `name=value;` for each label.
unfoldable pub join : List Label → List ℕ
join [] = []
join ((name, value) ∷ ls) = name ++ b'=' ∷ (value ++ b';' ∷ join ls)

unfoldable pub series_key : List Label → List ℕ
unfolding ordered join
series_key labels = join (ordered labels)

-- `none` stands for InvalidSeriesProto.
pub data Lookup (S : Type 0) : Type 0 where
  invalid_series_proto : Lookup S
  series : S → List (List ℕ × S) → Lookup S

module _ {S : Type 0} where
  unfoldable pub find : List ℕ → List (List ℕ × S) → Option S
  unfolding text_eq
  find key [] = none
  find key ((k, s) ∷ table) = if text_eq k key then some s else find key table

  abbrev found_or_new : List (List ℕ × S) → List ℕ → S → Option S → Lookup S
  found_or_new table key new none = series new ((key, new) ∷ table)
  found_or_new table key new (some s) = series s table

  -- The table is searched, and a series that it lacks is made and added.
  abbrev find_or_add : (List ℕ → S) → List (List ℕ × S) → List ℕ → Lookup S
  find_or_add new_series table [] = invalid_series_proto
  find_or_add new_series table (c ∷ key) =
      found_or_new table (c ∷ key) (new_series (c ∷ key)) (find (c ∷ key) table)

  -- A new series is made from the protobuf and the key. The protobuf is a map, which its labels by name
  -- stand for.
  unfoldable pub get_series : (List Label → List ℕ → S) → List (List ℕ × S) → List Label → Lookup S
  unfolding find series_key ordered
  get_series new_series table labels =
      find_or_add (new_series (ordered labels)) table (series_key labels)
