-- ===== src/Client/Read.antt =====
-- vqro_read.cc from BuildSeriesQuery on: what is asked of the server, and the exit code.
pub mod Laws
use vqro.Base.{
  ℕ, ℤ, pos, ◌+ℤ◌, eqb_ℤ, leb_ℤ, List, [], ◌∷◌, map, Option, none, some, Bool, true, false, ◌&&◌,
  length, ◌==◌, if◌then◌else◌,
}
use vqro.Client.{
  bind, Parsers, TickUnit, s, unit_of_text, get_time_in_ticks, constraints, Constraint, regex,
  exact_value,
}
use vqro.Client.Stdin.{Json, get_lines, json_labels}
use vqro.Db.Database.GetSeries.{Label}
use vqro.Db.Search.Query.{LabelConstraint, SeriesQuery, LabelsQuery}
use vqro.Db.Search.Query as Query

-- The flags and the environment variable VQRO_TICK_UNIT.
pub record Flags : Type 0 where
  pub help : Bool
  pub search_labels : Bool
  pub search_series : Bool
  pub series_list_from_stdin : Bool
  pub start : List ℕ
  pub end_flag : List ℕ
  pub tick_unit : List ℕ
  pub env_tick_unit : List ℕ
  pub search_limit : ℤ
  pub search_offset : ℤ
  pub datapoint_limit : ℤ
  pub prefer_latest : Bool

pub data Selector : Type 0 where
  list : List (List Label) → Selector
  query : SeriesQuery → Selector

pub record ReadRequest : Type 0 where
  pub selector : Selector
  pub start_time : ℤ
  pub end_time : ℤ
  pub datapoint_limit : ℤ
  pub prefer_latest : Bool

pub data Call : Type 0 where
  read : ReadRequest → Call
  search_labels : LabelsQuery → Call
  search_series : SeriesQuery → Call

-- How the program ends: with an exit code and what it asked of the server, or by an exception that
-- nothing catches.
pub data Ran : Type 0 where
  exited : ℕ → List Call → Ran
  aborted : Ran

-- The offset is set only together with a limit.
abbrev pub offset_of : Flags → ℤ
offset_of flags = if eqb_ℤ flags.search_limit (pos 0) then pos 0 else flags.search_offset

abbrev pub label_constraint : Constraint → LabelConstraint
label_constraint (regex name r) = record { label_name = name; predicate = Query.regex r }
label_constraint (exact_value name v) = record {
  label_name = name;
  predicate = Query.exact_value v;
}

unfoldable pub build_series_query : Parsers → Flags → List (List ℕ) → Option SeriesQuery
unfolding constraints
build_series_query parsers flags args = bind (constraints parsers args) (λ cs. some (record {
  constraints = map label_constraint cs;
  result_limit = flags.search_limit;
  result_offset = offset_of flags;
}))

-- `args` are the arguments behind the name of the program.
unfoldable pub do_search_labels : Flags → List (List ℕ) → Ran
do_search_labels flags [] = exited 1 []
do_search_labels flags (arg ∷ args) = exited 0 (
    search_labels (record {
      label_regex = arg;
      result_limit = flags.search_limit;
      result_offset = offset_of flags;
    })
    ∷ [])

abbrev pub searched : Option SeriesQuery → Ran
searched none = exited 1 []
searched (some q) = exited 0 (search_series q ∷ [])

unfoldable pub do_search_series : Parsers → Flags → List (List ℕ) → Ran
unfolding build_series_query
do_search_series parsers flags [] = exited 1 []
do_search_series parsers flags (arg ∷ args) =
    searched (build_series_query parsers flags (arg ∷ args))

-- The unit that a text names, where it is not empty.
abbrev pub override_unit : List ℕ → TickUnit → Option TickUnit
override_unit [] unit = some unit
override_unit (c ∷ cs) unit = unit_of_text (c ∷ cs)

-- The environment first, then the flag; seconds without both.
unfoldable pub tick_unit_of : Flags → Option TickUnit
unfolding unit_of_text
tick_unit_of flags = bind (override_unit flags.env_tick_unit s) (override_unit flags.tick_unit)

-- The times with their marks for relative ones, as absolute times; `none` is an error.
unfoldable pub absolute_range : ℤ × Bool → ℤ × Bool → Option (ℤ × ℤ)
absolute_range (start, start_is_relative) (end, end_is_relative) =
    let start_time : ℤ = if start_is_relative then start +ℤ end else start in
    let end_time : ℤ =
      if start_is_relative then end else if end_is_relative then end +ℤ start else end in
    if start_is_relative && end_is_relative
    then none
    else if leb_ℤ end_time start_time
    then none
    else some (start_time, end_time)

-- The clock is asked once for each time.
unfoldable pub time_range : Parsers → TickUnit → ℤ → ℤ → Flags → Option (ℤ × ℤ)
unfolding absolute_range get_time_in_ticks
time_range parsers unit clock later flags =
    bind (get_time_in_ticks parsers unit clock false flags.start) (λ start.
      bind (get_time_in_ticks parsers unit later false flags.end_flag)
        (λ end. absolute_range start end))

abbrev pub sent : Flags → Selector → Option (ℤ × ℤ) → Ran
sent flags selector none = exited 1 []
sent flags selector (some (start_time, end_time)) = exited 0 (
    read (record {
      selector = selector;
      start_time = start_time;
      end_time = end_time;
      datapoint_limit = flags.datapoint_limit;
      prefer_latest = flags.prefer_latest;
    })
    ∷ [])

unfoldable pub do_read_datapoints : Parsers → ℤ → ℤ → Flags → Selector → Ran
unfolding tick_unit_of time_range
do_read_datapoints parsers clock later flags selector =
    sent flags selector
      (bind (tick_unit_of flags) (λ unit. time_range parsers unit clock later flags))

-- The loop over the lines: the series, an error in the JSON, or an exception.
pub data Listed : Type 0 where
  listed : List (List Label) → Listed
  failed_to_parse : Listed
  threw : Listed

abbrev pub add_series : Option (List Label) → Listed → Listed
add_series none rest = threw
add_series (some labels) (listed series) = listed (labels ∷ series)
add_series (some labels) failed_to_parse = failed_to_parse
add_series (some labels) threw = threw

unfoldable pub list_series : {J : Type 0} → Json J → List (List ℕ) → Listed
unfolding json_labels
list_series json [] = listed []
list_series json ([] ∷ lines) = list_series json lines
list_series json ((c ∷ cs) ∷ lines) =
    let rest : Listed = list_series json lines in
    elim (json.parse (c ∷ cs)) [
      | none ↦ failed_to_parse
      | some record_value ↦ add_series (json_labels json record_value) rest
    ]

abbrev pub read_listed : Parsers → ℤ → ℤ → Flags → Listed → Ran
read_listed parsers clock later flags (listed series) =
    do_read_datapoints parsers clock later flags (list series)
read_listed parsers clock later flags failed_to_parse = exited 1 []
read_listed parsers clock later flags threw = aborted

unfoldable pub do_read_datapoints_with_list :
    {J : Type 0} → Parsers → Json J → ℤ → ℤ → Flags → List ℕ → Ran
unfolding do_read_datapoints list_series get_lines
do_read_datapoints_with_list parsers json clock later flags input =
    read_listed parsers clock later flags (list_series json (get_lines input))

abbrev pub read_queried : Parsers → ℤ → ℤ → Flags → Option SeriesQuery → Ran
read_queried parsers clock later flags none = exited 1 []
read_queried parsers clock later flags (some q) =
    do_read_datapoints parsers clock later flags (query q)

unfoldable pub do_read_datapoints_with_query : Parsers → ℤ → ℤ → Flags → List (List ℕ) → Ran
unfolding do_read_datapoints build_series_query
do_read_datapoints_with_query parsers clock later flags [] = exited 1 []
do_read_datapoints_with_query parsers clock later flags (arg ∷ args) =
    read_queried parsers clock later flags (build_series_query parsers flags (arg ∷ args))

unfoldable pub main : {J : Type 0} → Parsers → Json J → ℤ → ℤ → Flags → List (List ℕ) → List ℕ → Ran
unfolding do_search_labels do_search_series do_read_datapoints_with_list
    do_read_datapoints_with_query
main parsers json clock later flags args input =
    if flags.help
    then exited 0 []
    else if flags.search_labels
    then do_search_labels flags args
    else if flags.search_series
    then do_search_series parsers flags args
    else if flags.series_list_from_stdin
    then do_read_datapoints_with_list parsers json clock later flags input
    else do_read_datapoints_with_query parsers clock later flags args
