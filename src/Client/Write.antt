-- ===== src/Client/Write.antt =====
-- vqro_write.cc: the loop of main over the lines of the standard input, and what it sends.
pub mod Laws
pub mod Stream
use vqro.Base.{
  ℕ, suc, zero, List, [], ◌∷◌, ◌++◌, Option, none, some, Bool, ◌||◌, ◌==◌, length, if◌then◌else◌,
}
use vqro.Client.{bind}
use vqro.Client.Stdin.{Json, get_lines, json_labels}
use vqro.Db.Datapoint.{Datapoint}
use vqro.Db.Database.GetSeries.{Label}

pub record WriteRequest : Type 0 where
  pub labels : List Label
  pub datapoints : List Datapoint

-- The loop over the datapoints of a line: it ends at the first that has not three elements, or where
-- an element has another type.
pub data Points : Type 0 where
  points : List Datapoint → Points
  wrong_size : Points
  points_threw : Points

abbrev pub add_point : Option Datapoint → Points → Points
add_point none rest = points_threw
add_point (some p) (points ps) = points (p ∷ ps)
add_point (some p) wrong_size = wrong_size
add_point (some p) points_threw = points_threw

-- What a line comes to. The code is that with which main returns.
pub data Line : Type 0 where
  send : WriteRequest → Line
  skip : Line
  stop : ℕ → Line
  throws : Line

-- How main ends: with an exit code, or by an exception; and what it has sent.
pub data Written : Type 0 where
  ended : ℕ → List WriteRequest → Written
  crashed : List WriteRequest → Written

module _ {J : Type 0} (json : Json J) where
  abbrev pub json_point : J → Option Datapoint
  json_point j = bind (json.int64_at j 0) (λ t. bind (json.int64_at j 1) (λ d.
      bind (json.double_at j 2) (λ v. some (record { timestamp = t; value = v; duration = d }))))

  unfoldable pub json_points : List J → Points
  json_points [] = points []
  json_points (j ∷ js) =
      let rest : Points = add_point (json_point j) (json_points js) in
      if json.size j == 3 then rest else wrong_size

  -- A request without datapoints is not sent. After a datapoint of another size the code is still 0.
  abbrev pub line_of_points : List Label → Points → Line
  line_of_points labels (points []) = skip
  line_of_points labels (points (p ∷ ps)) = send (record { labels = labels; datapoints = p ∷ ps })
  line_of_points labels wrong_size = stop 0
  line_of_points labels points_threw = throws

  abbrev pub line_of_labels : J → Option (List Label) → Line
  line_of_labels datapoints none = throws
  line_of_labels datapoints (some labels) =
      line_of_points labels (json_points (json.elements datapoints))

  abbrev pub line_of_members : Option J → Option J → Line
  line_of_members none datapoints = throws
  line_of_members (some labels) none = throws
  line_of_members (some labels) (some datapoints) =
      if json.is_null labels || json.is_null datapoints
      then stop 1
      else line_of_labels datapoints (json_labels json labels)

  abbrev pub line_of_record : Option J → Line
  line_of_record none = stop 1
  line_of_record (some j) =
      line_of_members (json.member j (b'l' ∷ b'a' ∷ b'b' ∷ b'e' ∷ b'l' ∷ b's' ∷ []))
        (json.member j (b'd' ∷ b'a' ∷ b't' ∷ b'a' ∷ b'p' ∷ b'o' ∷ b'i' ∷ b'n' ∷ b't' ∷ b's' ∷ []))

  unfoldable pub read_line : List ℕ → Line
  unfolding json_points json_labels
  read_line [] = skip
  read_line (c ∷ cs) = line_of_record (json.parse (c ∷ cs))

  -- `running k` is the variable that SIGINT clears, in round `k`.
  unfoldable pub write_lines : (ℕ → Bool) → ℕ → List (List ℕ) → List WriteRequest → Written
  unfolding read_line
  write_lines running k [] out = ended 0 out
  write_lines running k (line ∷ lines) out =
      let go : List WriteRequest → Written = write_lines running (suc k) lines in
      let round : Written = elim (read_line line) [
        | send r ↦ go (out ++ r ∷ [])
        | skip ↦ go out
        | stop code ↦ ended code out
        | throws ↦ crashed out
      ] in
      if running k then round else ended 0 out

  -- main, without --help.
  unfoldable pub write_main : (ℕ → Bool) → List ℕ → Written
  unfolding write_lines get_lines
  write_main running input = write_lines running 0 (get_lines input) []
