-- ===== src/Client/Print.antt =====
-- vqro_read.cc: what the reading client makes of the server's streams, and the printing of results.
-- JsonCpp's values and writers are the interface JsonWriter, and the text of a double is an argument.
-- What a stream carries is a list, with whether it ends well.
pub mod RoundTrip
use vqro.Base.{ℕ, ℤ, List, [], ◌∷◌, ◌++◌, Option, none, some, Bool, if◌then◌else◌, codes}
use vqro.Client.{format_labels}
use vqro.Client.Read.{Call, read, search_labels, search_series, ReadRequest}
use vqro.Db.Datapoint.{Datapoint}
use vqro.Db.Database.GetSeries.{Label}
use vqro.Db.Decimal.{to_string}
use vqro.Db.Search.Query.{LabelsQuery, SeriesQuery}

pub record JsonWriter (J : Type 0) : Type 0 where
  -- Json::Value() and Json::Value(Json::arrayValue).
  pub null_value : J
  pub array_value : J
  pub of_text : List ℕ → J
  pub of_int64 : ℤ → J
  pub of_double : ℕ → J
  pub of_bool : Bool → J
  -- `j[key] = value`, and append.
  pub set_member : J → List ℕ → J → J
  pub append : J → J → J
  -- FastWriter, and operator<<.
  pub write_fast : J → List ℕ
  pub write_styled : J → List ℕ

pub record StatusMessage : Type 0 where
  pub text : List ℕ
  pub error : Bool
  pub go_away : Bool

pub record ReadResult : Type 0 where
  pub labels : List Label
  pub datapoints : List Datapoint
  pub status : Option StatusMessage

pub record SearchLabelsResults : Type 0 where
  pub labels : List (List ℕ)
  pub status : Option StatusMessage

pub record SearchSeriesResults : Type 0 where
  pub matches : List (List Label)
  pub status : Option StatusMessage

-- endl.
abbrev pub line_end : List ℕ
line_end = b'\n' ∷ []

-- A bool is written as a number.
abbrev pub bool_text : Bool → List ℕ
bool_text b = if b then b'1' ∷ [] else b'0' ∷ []

unfoldable pub status_text : Option StatusMessage → List ℕ
status_text none = []
status_text (some m) =
    codes "StatusMessage: " ++ m.text ++ codes " error=" ++ bool_text m.error ++ line_end

module _ {J : Type 0} (json : JsonWriter J) where
  open json use {
    null_value, array_value, of_text, of_int64, of_double, of_bool, set_member, append, write_fast,
    write_styled,
  }

  unfoldable pub labels_json : J → List Label → J
  labels_json j [] = j
  labels_json j ((name, value) ∷ labels) = labels_json (set_member j name (of_text value)) labels

  unfoldable pub point_json : Datapoint → J
  point_json p =
      append (append (append null_value (of_int64 p.timestamp)) (of_int64 p.duration))
        (of_double p.value)

  unfoldable pub points_json : J → List Datapoint → J
  unfolding point_json
  points_json j [] = j
  points_json j (p ∷ ps) = points_json (append j (point_json p)) ps

  unfoldable pub status_json : J → Option StatusMessage → J
  status_json j none = j
  status_json j (some m) = set_member j (codes "status") (
      set_member
        (set_member (set_member null_value (codes "text") (of_text m.text)) (codes "error")
          (of_bool m.error))
        (codes "go_away") (of_bool m.go_away))

  unfoldable pub read_result_json : ReadResult → J
  unfolding labels_json points_json status_json
  read_result_json r =
      status_json
        (set_member (set_member null_value (codes "labels") (labels_json null_value r.labels))
          (codes "datapoints") (points_json array_value r.datapoints))
        r.status

  -- PrintReadResultJson: what goes to the standard output.
  unfoldable pub print_read_result_json : ReadResult → List ℕ
  unfolding read_result_json
  print_read_result_json r = write_fast (read_result_json r)

  unfoldable pub append_labels : J → List (List ℕ) → J
  append_labels j [] = j
  append_labels j (label ∷ labels) = append_labels (append j (of_text label)) labels

  unfoldable pub append_series : J → List (List Label) → J
  unfolding labels_json
  append_series j [] = j
  append_series j (labels ∷ matches) =
      append_series (append j (labels_json null_value labels)) matches

  module _ (double_text : ℕ → List ℕ) where
    unfoldable pub point_text : Datapoint → List ℕ
    unfolding to_string
    point_text p =
        codes "    timestamp="
        ++ to_string p.timestamp
        ++ codes "  duration="
        ++ to_string p.duration
        ++ codes "  value="
        ++ double_text p.value
        ++ line_end

    unfoldable pub points_text : List Datapoint → List ℕ
    unfolding point_text
    points_text [] = []
    points_text (p ∷ ps) = point_text p ++ points_text ps

    unfoldable pub print_read_result : ReadResult → List ℕ
    unfolding points_text status_text format_labels
    print_read_result r =
        codes "ReadResult: labels="
        ++ format_labels r.labels
        ++ line_end
        ++ points_text r.datapoints
        ++ status_text r.status
        ++ line_end

    unfoldable pub each_line : List (List ℕ) → List ℕ
    each_line [] = []
    each_line (l ∷ ls) = l ++ line_end ++ each_line ls

    -- `as_json` is the flag --json; the status is not part of the JSON.
    unfoldable pub print_search_labels : Bool → SearchLabelsResults → List ℕ
    unfolding each_line append_labels status_text
    print_search_labels as_json r =
        if as_json
        then write_styled (append_labels null_value r.labels) ++ line_end
        else each_line r.labels ++ status_text r.status

    unfoldable pub series_lines : List (List Label) → List ℕ
    unfolding format_labels
    series_lines [] = []
    series_lines (labels ∷ matches) = format_labels labels ++ line_end ++ series_lines matches

    unfoldable pub print_search_series : Bool → SearchSeriesResults → List ℕ
    unfolding series_lines append_series status_text
    print_search_series as_json r =
        if as_json
        then write_fast (append_series null_value r.matches)
        else series_lines r.matches ++ status_text r.status

-- What the server answers to each call.
pub record Answers : Type 0 where
  pub read_datapoints : ReadRequest → List ReadResult × Bool
  pub search_labels : LabelsQuery → List SearchLabelsResults × Bool
  pub search_series : SeriesQuery → List SearchSeriesResults × Bool

-- ReadDatapoints, SearchLabels and SearchSeries of VaqueroClient: the callback is called for each
-- message, and whether the stream has ended well is returned.
unfoldable pub receive : {R : Type 0} → (R → List ℕ) → List R × Bool → List ℕ × Bool
receive callback ([], ok) = ([], ok)
receive callback (r ∷ rs, ok) =
    (callback r ++ (receive callback (rs, ok)).0, (receive callback (rs, ok)).1)

module _ {J : Type 0} (json : JsonWriter J) (double_text : ℕ → List ℕ) (server : Answers)
    (as_json : Bool) where
  -- What a call prints. Whether its stream has ended well is not asked.
  unfoldable pub print_call : Call → List ℕ
  unfolding receive print_read_result_json print_read_result print_search_labels print_search_series
  print_call (read request) =
      (receive
        (λ r.
          if as_json then print_read_result_json json r else print_read_result json double_text r)
        (server.read_datapoints request)).0
  print_call (search_labels query) =
      (receive (print_search_labels json double_text as_json) (server.search_labels query)).0
  print_call (search_series query) =
      (receive (print_search_series json double_text as_json) (server.search_series query)).0
