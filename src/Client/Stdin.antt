-- ===== src/Client/Stdin.antt =====
-- What both clients read: lines of JSON. JsonCpp is an interface; `none` stands for a value that
-- throws because it has another type.
pub mod Laws
use vqro.Base.{ℕ, ℤ, List, [], ◌∷◌, ◌++◌, ◌==◌, Option, none, some, Bool, if◌then◌else◌}
use vqro.Client.{bind}
use vqro.Db.Database.GetSeries.{Label}

pub record Json (J : Type 0) : Type 0 where
  pub parse : List ℕ → Option J
  pub member : J → List ℕ → Option J
  -- The operator !.
  pub is_null : J → Bool
  pub member_names : J → Option (List (List ℕ))
  -- get with the default null, and asString.
  pub member_text : J → List ℕ → Option (List ℕ)
  pub elements : J → List J
  pub size : J → ℕ
  -- get of an index, and asInt64 or asDouble.
  pub int64_at : J → ℕ → Option ℤ
  pub double_at : J → ℕ → Option ℕ

-- The rounds of std::getline that are used: where the input ends, eof() holds already in the round
-- that reads what follows the last newline, so that is not used.
abbrev pub lines_from : List ℕ → List ℕ → List (List ℕ)
lines_from line [] = []
lines_from line (c ∷ cs) =
    let next : List (List ℕ) = lines_from [] cs in
    let longer : List (List ℕ) = lines_from (line ++ c ∷ []) cs in
    if c == b'\n' then line ∷ next else longer

unfoldable pub get_lines : List ℕ → List (List ℕ)
get_lines input = lines_from [] input

-- The loop that copies the members of an object into the labels of a protobuf.
abbrev pub labels_of : {J : Type 0} → Json J → J → List (List ℕ) → Option (List Label)
labels_of json j [] = some []
labels_of json j (name ∷ names) =
    bind (json.member_text j name)
      (λ value. bind (labels_of json j names) (λ labels. some ((name, value) ∷ labels)))

unfoldable pub json_labels : {J : Type 0} → Json J → J → Option (List Label)
json_labels json j = bind (json.member_names j) (labels_of json j)
