-- ===== src/Client/Print/RoundTrip.antt =====
-- The output of vqro_read --json as the input of vqro_write.
pub mod Labels
use mathlib.Core.List.{Perm}
use vqro.Base.{
  ℕ, zero, suc, ℤ, List, [], ◌∷◌, ◌++◌, length, get_elem?, All, map, Option, none, some, Bool, true,
  false, ◌≡◌, refl, ap, sym, ◌∙◌, append_assoc, append-nil, codes, ◌==◌, ◌||◌, if◌then◌else◌,
}
use vqro.Client.Stdin.{Json, get_lines, json_labels}
use vqro.Client.Stdin.Laws.{NoNewline, unlines, get_lines-unlines}
use vqro.Client.Print.{
  JsonWriter, ReadResult, StatusMessage, read_result_json, labels_json, points_json, point_json,
  status_json, receive, print_read_result_json,
}
use vqro.Client.Print.RoundTrip.Labels.{KeepsMembers, Distinct, labels-back}
use vqro.Client.Write.{
  WriteRequest, Line, send, skip, stop, throws, Points, points, Written, ended, json_points,
  json_point, add_point, line_of_points, read_line, write_lines, write_main, line_of_record,
  line_of_members, line_of_labels,
}
use vqro.Client.Write.Laws.{round, write_lines-round}
use vqro.Db.Datapoint.{Datapoint}
use vqro.Db.Database.GetSeries.{Label, text_eq}

-- What JsonCpp documents of arrays and numbers, and of writing and parsing. `Plain` are the values
-- that FastWriter writes so that they can be read back: numbers that are finite.
pub record KeepsValues {J : Type 0} (json : Json J) (writer : JsonWriter J) (Plain : J → Type 0)
    : Type 0 where
  pub members : KeepsMembers json writer
  pub array_not_null : json.is_null writer.array_value ≡ false
  pub append_not_null : (j v : J) → json.is_null (writer.append j v) ≡ false
  pub elements_null : json.elements writer.null_value ≡ []
  pub elements_array : json.elements writer.array_value ≡ []
  pub elements_append : (j v : J) → json.elements (writer.append j v) ≡ json.elements j ++ v ∷ []
  pub size_elements : (j : J) → json.size j ≡ length (json.elements j)
  pub int64_element :
      (j : J) (i : ℕ) (n : ℤ)
      → get_elem? (json.elements j) i ≡ some (writer.of_int64 n)
      → json.int64_at j i ≡ some n
  pub double_element :
      (j : J) (i : ℕ) (d : ℕ)
      → get_elem? (json.elements j) i ≡ some (writer.of_double d)
      → json.double_at j i ≡ some d
  -- One line with a newline behind it.
  pub writes_back :
      (j : J)
      → Plain j
      → (c : ℕ) × (cs : List ℕ) × (writer.write_fast j ≡ (c ∷ cs) ++ b'\n' ∷ [])
        × NoNewline (c ∷ cs)
        × (json.parse (c ∷ cs) ≡ some j)

-- The results that have datapoints.
abbrev pub keep_if : List Datapoint → ReadResult → List ReadResult → List ReadResult
keep_if [] r rs = rs
keep_if (p ∷ ps) r rs = r ∷ rs

abbrev pub with_datapoints : List ReadResult → List ReadResult
with_datapoints [] = []
with_datapoints (r ∷ rs) = keep_if r.datapoints r (with_datapoints rs)

-- One request for each result, with its datapoints, and its labels in some order.
abbrev pub SameRequests : List ReadResult → List WriteRequest → Type 0
SameRequests [] [] = Unit
SameRequests [] (q ∷ qs) = ⊥
SameRequests (r ∷ rs) [] = ⊥
SameRequests (r ∷ rs) (q ∷ qs) =
    Perm q.labels r.labels × (q.datapoints ≡ r.datapoints) × SameRequests rs qs

abbrev pub HasLabels : List Label → Type 0
HasLabels [] = ⊥
HasLabels (l ∷ ls) = Unit

module _ {J : Type 0} (json : Json J) (writer : JsonWriter J) (Plain : J → Type 0)
    (keeps : KeepsValues json writer Plain) where
  open keeps use {members}

  point-elements :
      (p : Datapoint)
      → json.elements (point_json writer p)
        ≡ writer.of_int64 p.timestamp ∷ writer.of_int64 p.duration ∷ writer.of_double p.value ∷ []
  unfolding point_json
  point-elements p = simp (keeps.elements_append, keeps.elements_null)

  json_point-back : (p : Datapoint) → json_point json (point_json writer p) ≡ some p
  json_point-back p =
      let es = point-elements p in
      rw
        (
          keeps.int64_element (point_json writer p) 0 p.timestamp (ap (λ l. get_elem? l 0) es),
          keeps.int64_element (point_json writer p) 1 p.duration (ap (λ l. get_elem? l 1) es),
          keeps.double_element (point_json writer p) 2 p.value (ap (λ l. get_elem? l 2) es),
        )
        refl

  point-size : (p : Datapoint) → json.size (point_json writer p) ≡ 3
  point-size p = keeps.size_elements (point_json writer p) ∙ ap length (point-elements p)

  json_points-back :
      (ps : List Datapoint) → json_points json (map (point_json writer) ps) ≡ points ps
  unfolding json_points
  json_points-back [] = refl
  json_points-back (p ∷ ps) = rw (point-size p, json_point-back p, json_points-back ps) refl

  points-elements :
      (j : J) (ps : List Datapoint)
      → json.elements (points_json writer j ps) ≡ json.elements j ++ map (point_json writer) ps
  unfolding points_json
  points-elements j [] = sym (append-nil (json.elements j))
  points-elements j (p ∷ ps) =
      points-elements (writer.append j (point_json writer p)) ps
      ∙ ap (λ l. l ++ map (point_json writer) ps) (keeps.elements_append j (point_json writer p))
      ∙ append_assoc (json.elements j) (point_json writer p ∷ []) (map (point_json writer) ps)

  points_not_null :
      (j : J) (ps : List Datapoint)
      → json.is_null j ≡ false
      → json.is_null (points_json writer j ps) ≡ false
  unfolding points_json
  points_not_null j [] h = h
  points_not_null j (p ∷ ps) h =
      points_not_null (writer.append j (point_json writer p)) ps
        (keeps.append_not_null j (point_json writer p))

  labels_not_null :
      (j : J) (ls : List Label)
      → json.is_null j ≡ false
      → json.is_null (labels_json writer j ls) ≡ false
  unfolding labels_json
  labels_not_null j [] h = h
  labels_not_null j ((key, text) ∷ ls) h =
      labels_not_null (writer.set_member j key (writer.of_text text)) ls
        (members.set_not_null j key (writer.of_text text))

  -- A member other than the status is not changed by it.
  status-member :
      (j : J) (key : List ℕ) (m : Option StatusMessage)
      → text_eq (codes "status") key ≡ false
      → json.member (status_json writer j m) key ≡ json.member j key
  unfolding status_json
  status-member j key none e = refl
  status-member j key (some m) e = members.member_other j (codes "status") key _ e

  result-labels :
      (r : ReadResult)
      → json.member (read_result_json writer r) (codes "labels")
        ≡ some (labels_json writer writer.null_value r.labels)
  unfolding read_result_json text_eq
  result-labels r =
      status-member _ (codes "labels") r.status refl
      ∙ members.member_other _ (codes "datapoints") (codes "labels") _ refl
      ∙ members.member_set writer.null_value (codes "labels") _

  result-datapoints :
      (r : ReadResult)
      → json.member (read_result_json writer r) (codes "datapoints")
        ≡ some (points_json writer writer.array_value r.datapoints)
  unfolding read_result_json text_eq
  result-datapoints r =
      status-member _ (codes "datapoints") r.status refl
      ∙ members.member_set _ (codes "datapoints") _

  -- A result of a series with labels of distinct names, which FastWriter writes so that it can be read.
  abbrev pub Good : ReadResult → Type 0
  Good r = Plain (read_result_json writer r) × Distinct r.labels × HasLabels r.labels

  some_labels_not_null :
      (ls : List Label)
      → HasLabels ls
      → json.is_null (labels_json writer writer.null_value ls) ≡ false
  unfolding labels_json
  some_labels_not_null [] h = elim h [ ]
  some_labels_not_null ((key, text) ∷ ls) h =
      labels_not_null (writer.set_member writer.null_value key (writer.of_text text)) ls
        (members.set_not_null writer.null_value key (writer.of_text text))

  members-back :
      (labels datapoints : J) (back : List Label) (ps : List Datapoint)
      → json.is_null labels ≡ false
      → json.is_null datapoints ≡ false
      → json_labels json labels ≡ some back
      → json.elements datapoints ≡ map (point_json writer) ps
      → line_of_members json (some labels) (some datapoints) ≡ line_of_points json back (points ps)
  members-back labels datapoints back ps nl nd found es =
      rw (nl, nd, found, es, json_points-back ps) refl

  result-back :
      (r : ReadResult)
      → Good r
      → (back : List Label) × (line_of_record json (some (read_result_json writer r))
          ≡ line_of_points json back (points r.datapoints))
        × Perm back r.labels
  result-back r (plain, distinct, some_labels) =
      let (back, found, same) = labels-back json writer members r.labels distinct in
      (
        back,
        rw (result-labels r, result-datapoints r)
            (members-back (labels_json writer writer.null_value r.labels)
              (points_json writer writer.array_value r.datapoints) back r.datapoints
              (some_labels_not_null r.labels some_labels)
              (points_not_null writer.array_value r.datapoints keeps.array_not_null) found
              (points-elements writer.array_value r.datapoints
                ∙ ap (λ l. l ++ map (point_json writer) r.datapoints) keeps.elements_array)),
        same,
      )

  -- The lines that results are printed to, and what the other client makes of them.
  record Piped (rs : List ReadResult) : Type 0 where
    lines : List (List ℕ)
    requests : List WriteRequest
    printed : (ok : Bool) → (receive (print_read_result_json writer) (rs, ok)).0 ≡ unlines lines
    no_newline : All NoNewline lines
    same : SameRequests (with_datapoints rs) requests
    sends :
        (running : ℕ → Bool)
        → ((i : ℕ) → running i ≡ true)
        → (k : ℕ) (out : List WriteRequest)
        → write_lines json running k lines out ≡ ended 0 (out ++ requests)

  none-Piped : Piped []
  unfolding receive write_lines
  none-Piped = record {
    lines = [];
    requests = [];
    printed = λ ok. refl;
    no_newline = tt;
    same = tt;
    sends = λ running on k out. ap (ended 0) (sym (append-nil out));
  }

  abbrev request_of : List Label → List Datapoint → List WriteRequest → List WriteRequest
  request_of back [] qs = qs
  request_of back (p ∷ ps) qs = record { labels = back; datapoints = p ∷ ps } ∷ qs

  same-cons :
      (r : ReadResult) (back : List Label) (ps : List Datapoint) (rs : List ReadResult)
      (qs : List WriteRequest)
      → ps ≡ r.datapoints
      → Perm back r.labels
      → SameRequests rs qs
      → SameRequests (keep_if ps r rs) (request_of back ps qs)
  same-cons r back [] rs qs e p h = h
  same-cons r back (q ∷ ps) rs qs e p h = (p, e, h)

  round-back :
      (go : List WriteRequest → Written) (out : List WriteRequest) (back : List Label)
      (ps : List Datapoint) (qs : List WriteRequest)
      → ((o : List WriteRequest) → go o ≡ ended 0 (o ++ qs))
      → round json go out (line_of_points json back (points ps))
        ≡ ended 0 (out ++ request_of back ps qs)
  round-back go out back [] qs h = h out
  round-back go out back (p ∷ ps) qs h =
      h (out ++ record { labels = back; datapoints = p ∷ ps } ∷ [])
      ∙ ap (ended 0) (append_assoc out (record { labels = back; datapoints = p ∷ ps } ∷ []) qs)

  cons-Piped : (r : ReadResult) (rs : List ReadResult) → Good r → Piped rs → Piped (r ∷ rs)
  cons-Piped r rs good rest =
      let (c, cs, written, one_line, parsed) =
        keeps.writes_back (read_result_json writer r) good.0 in
      let (back, line, same) = result-back r good in
      let read : read_line json (c ∷ cs) ≡ line_of_points json back (points r.datapoints) =
        unfold read_line in (ap (line_of_record json) parsed ∙ line) in
      record {
        lines = (c ∷ cs) ∷ rest.lines;
        requests = request_of back r.datapoints rest.requests;
        printed = λ ok.
            unfold receive print_read_result_json in
            (ap (λ (l : List ℕ). l ++ (receive (print_read_result_json writer) (rs, ok)).0) written
              ∙ append_assoc (c ∷ cs) (b'\n' ∷ [])
                  (receive (print_read_result_json writer) (rs, ok)).0
              ∙ ap (λ (l : List ℕ). (c ∷ cs) ++ b'\n' ∷ l) (rest.printed ok));
        no_newline = (one_line, rest.no_newline);
        same = same-cons r back r.datapoints (with_datapoints rs) rest.requests refl same rest.same;
        sends = λ running on k out.
            write_lines-round json running k (c ∷ cs) rest.lines out (on k)
            ∙ ap (round json (write_lines json running (suc k) rest.lines) out) read
            ∙ round-back (write_lines json running (suc k) rest.lines) out back r.datapoints
                rest.requests (rest.sends running on (suc k));
      }

  all-Piped : (rs : List ReadResult) → All Good rs → Piped rs
  all-Piped [] h = none-Piped
  all-Piped (r ∷ rs) h = cons-Piped r rs h.0 (all-Piped rs h.1)

  -- Where JsonCpp keeps the members of objects, the elements of arrays and what it writes, and each
  -- result has labels, of distinct names, and can be written: what vqro_read --json prints for the
  -- results of a read, given to vqro_write as its input, makes it send one request for each result
  -- that has datapoints, in their order, with its datapoints and, in some order, its labels, and
  -- exit with 0 if nothing interrupts it.
  pub write_main-receive :
      (rs : List ReadResult) (ok : Bool) (running : ℕ → Bool)
      → All Good rs
      → ((i : ℕ) → running i ≡ true)
      → (requests : List WriteRequest) × (write_main json running
            (receive (print_read_result_json writer) (rs, ok)).0
          ≡ ended 0 requests)
        × SameRequests (with_datapoints rs) requests
  unfolding write_main
  write_main-receive rs ok running good on =
      let piped = all-Piped rs good in
      (
        piped.requests,
        ap (λ input. write_lines json running 0 (get_lines input) [])
              (piped.printed ok ∙ sym (append-nil (unlines piped.lines)))
            ∙ ap (λ lines. write_lines json running 0 lines [])
                (get_lines-unlines piped.lines [] piped.no_newline tt)
            ∙ piped.sends running on 0 [],
        piped.same,
      )
