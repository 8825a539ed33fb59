-- ===== src/Tests/Clients.antt =====
-- The clients.
use vqro.Base.{
  ℕ, pos, List, [], ◌∷◌, length, Option, none, some, false, true, ◌≡◌, refl, ◌==◌, if◌then◌else◌,
}
use vqro.Client.{Parsers}
use vqro.Client.Stdin.{Json}
use vqro.Client.Read.{Flags, main}
use vqro.Client.Read.Laws.{AtMostOnce, main-AtMostOnce}
use vqro.Client.Write.{write_lines, ended}

-- Each argument is a name, which is its own value.
abbrev plain_parsers : Parsers
plain_parsers = record {
  match_relative = λ text. none;
  to_number = λ text. none;
  epoch = λ text. none;
  match_regex = λ text. none;
  match_exact = λ text. some (text, text);
}

-- A line that begins with a brace is a value; a value is the list of itself, and each of its bytes an
-- element.
abbrev braces : List ℕ → Option (List ℕ)
braces [] = none
braces (c ∷ cs) = if c == b'{' then some (c ∷ cs) else none

abbrev plain_json : Json (List ℕ)
plain_json = record {
  parse = braces;
  member = λ j name. some j;
  is_null = λ j. false;
  member_names = λ j. some ((b'a' ∷ []) ∷ []);
  member_text = λ j name. some name;
  elements = λ j. j ∷ [];
  size = λ j. length j;
  int64_at = λ j i. some (pos i);
  double_at = λ j i. some 7;
}

abbrev read_flags : Flags
read_flags = record {
  help = false;
  search_labels = false;
  search_series = false;
  series_list_from_stdin = false;
  start = [];
  end_flag = b'm' ∷ b'a' ∷ b'x' ∷ [];
  tick_unit = b'm' ∷ b's' ∷ [];
  env_tick_unit = [];
  search_limit = pos 4;
  search_offset = pos 2;
  datapoint_limit = pos 0;
  prefer_latest = true;
}

-- The clock says 5 ms and 6 ms.
main-AtMostOnce_example :
    AtMostOnce
      (main plain_parsers plain_json (pos 5000000) (pos 6000000) read_flags ((b'a' ∷ []) ∷ []) [])
main-AtMostOnce_example =
    main-AtMostOnce plain_parsers plain_json (pos 5000000) (pos 6000000) read_flags
      ((b'a' ∷ []) ∷ []) [] refl

abbrev good_line : List ℕ
good_line = b'{' ∷ 1 ∷ 2 ∷ []

-- A datapoint that has four elements.
abbrev long_line : List ℕ
long_line = b'{' ∷ 1 ∷ 2 ∷ 3 ∷ []

-- The malformed line ends the program with the code 0.
write_lines_test :
    write_lines plain_json (λ k. true) 0 (good_line ∷ [] ∷ long_line ∷ good_line ∷ []) []
    ≡ ended 0 (
        record {
          labels = ((b'a' ∷ []), (b'a' ∷ [])) ∷ [];
          datapoints = record { timestamp = pos 0; value = 7; duration = pos 1 } ∷ [];
        }
        ∷ [])
unfolding write_lines
write_lines_test = refl
