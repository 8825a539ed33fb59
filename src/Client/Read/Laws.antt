-- ===== src/Client/Read/Laws.antt =====
-- What the reading client asks of the server.
use vqro.Base.{
  ℕ, ℤ, pos, ◌+ℤ◌, +ℤ_parts, ◌≤ℤ◌, ◌<ℤ◌, leb_ℤ, List, [], ◌∷◌, Option, none, some, Bool, true,
  false, Bool-cases, inl, inr, ◌≡◌, refl, arith,
}
use vqro.Client.{Parsers, bind, get_time_in_ticks}
use vqro.Client.Stdin.{Json, get_lines}
use vqro.Client.Read.{
  Flags, Selector, Call, read, search_labels, search_series, Ran, exited, aborted, absolute_range,
  time_range, do_read_datapoints, do_read_datapoints_with_list, do_read_datapoints_with_query,
  do_search_labels, do_search_series, list_series, main, sent, tick_unit_of, build_series_query,
  read_listed, Listed, listed, failed_to_parse, threw, read_queried, searched, list, query,
}
use vqro.Db.Search.Query.{SeriesQuery}

-- A relative start is taken exactly if it is negative, and the range then ends at the absolute end; a
-- relative end is taken exactly if it is positive, and the range then begins at the absolute start;
-- two relative times never are.
pub absolute_range-relative :
    (a b : ℤ)
    → (a <ℤ pos 0 → absolute_range (a, true) (b, false) ≡ some (a +ℤ b, b))
      × (pos 0 ≤ℤ a → absolute_range (a, true) (b, false) ≡ none)
      × (pos 0 <ℤ b → absolute_range (a, false) (b, true) ≡ some (a, b +ℤ a))
      × (b ≤ℤ pos 0 → absolute_range (a, false) (b, true) ≡ none)
      × (absolute_range (a, true) (b, true) ≡ none)
unfolding absolute_range
absolute_range-relative a b = (
  λ h. ground (arith, +ℤ_parts a b),
  λ h. ground (arith, +ℤ_parts a b),
  λ h. ground (arith, +ℤ_parts b a),
  λ h. ground (arith, +ℤ_parts b a),
  refl,
)

-- A call of the server; the range of a read is not empty.
abbrev pub IsValid : Call → Type 0
IsValid (read r) = r.start_time <ℤ r.end_time
IsValid (search_labels q) = Unit
IsValid (search_series q) = Unit

-- Code 1 and no call, or code 0 and one valid call, or an exception.
abbrev pub AtMostOnce : Ran → Type 0
AtMostOnce (exited code []) = code ≡ 1
AtMostOnce (exited code (c ∷ [])) = (code ≡ 0) × IsValid c
AtMostOnce (exited code (c ∷ (d ∷ cs))) = ⊥
AtMostOnce aborted = Unit

abbrev IsRange : Option (ℤ × ℤ) → Type 0
IsRange none = Unit
IsRange (some (start, end)) = start <ℤ end

absolute_range-IsRange : (a b : ℤ × Bool) → IsRange (absolute_range a b)
unfolding absolute_range
absolute_range-IsRange (a, true) (b, true) = tt
absolute_range-IsRange (a, true) (b, false) = elim (Bool-cases (leb_ℤ b (a +ℤ b))) [
  | inl e ↦ rw e tt
  | inr e ↦ rw e (ground arith)
]
absolute_range-IsRange (a, false) (b, true) = elim (Bool-cases (leb_ℤ (b +ℤ a) a)) [
  | inl e ↦ rw e tt
  | inr e ↦ rw e (ground arith)
]
absolute_range-IsRange (a, false) (b, false) = elim (Bool-cases (leb_ℤ b a)) [
  | inl e ↦ rw e tt
  | inr e ↦ rw e (ground arith)
]

bind-IsRange :
    {A : Type 0} (o : Option A) (f : A → Option (ℤ × ℤ))
    → ((a : A) → IsRange (f a))
    → IsRange (bind o f)
bind-IsRange none f h = tt
bind-IsRange (some a) f h = h a

sent-AtMostOnce :
    (flags : Flags) (selector : Selector) (o : Option (ℤ × ℤ))
    → IsRange o
    → AtMostOnce (sent flags selector o)
sent-AtMostOnce flags selector none h = refl
sent-AtMostOnce flags selector (some (start, end)) h = (refl, h)

read-AtMostOnce :
    (parsers : Parsers) (clock later : ℤ) (flags : Flags) (selector : Selector)
    → AtMostOnce (do_read_datapoints parsers clock later flags selector)
unfolding do_read_datapoints time_range
read-AtMostOnce parsers clock later flags selector = sent-AtMostOnce flags selector _ (
    bind-IsRange (tick_unit_of flags) _ (λ unit.
      bind-IsRange (get_time_in_ticks parsers unit clock false flags.start) _ (λ start.
        bind-IsRange (get_time_in_ticks parsers unit later false flags.end_flag) _
          (λ end. absolute_range-IsRange start end))))

listed-AtMostOnce :
    (parsers : Parsers) (clock later : ℤ) (flags : Flags) (l : Listed)
    → AtMostOnce (read_listed parsers clock later flags l)
listed-AtMostOnce parsers clock later flags (listed series) =
    read-AtMostOnce parsers clock later flags (list series)
listed-AtMostOnce parsers clock later flags failed_to_parse = refl
listed-AtMostOnce parsers clock later flags threw = tt

queried-AtMostOnce :
    (parsers : Parsers) (clock later : ℤ) (flags : Flags) (q : Option SeriesQuery)
    → AtMostOnce (read_queried parsers clock later flags q)
queried-AtMostOnce parsers clock later flags none = refl
queried-AtMostOnce parsers clock later flags (some q) =
    read-AtMostOnce parsers clock later flags (query q)

searched-AtMostOnce : (q : Option SeriesQuery) → AtMostOnce (searched q)
searched-AtMostOnce none = refl
searched-AtMostOnce (some q) = (refl, tt)

-- Without --help, main either exits with 1 and has not called the server, or exits with 0 and has
-- called it once, where a read asks for a range that is not empty, or ends by an exception that
-- nothing catches.
pub main-AtMostOnce :
    {J : Type 0} (parsers : Parsers) (json : Json J) (clock later : ℤ) (flags : Flags)
    (args : List (List ℕ)) (input : List ℕ)
    → flags.help ≡ false
    → AtMostOnce (main parsers json clock later flags args input)
unfolding main do_read_datapoints_with_list do_search_labels do_search_series
    do_read_datapoints_with_query
main-AtMostOnce parsers json clock later flags args input no_help =
    rw no_help (elim (Bool-cases flags.search_labels) [
      | inl e ↦ rw e (labels args)
      | inr e ↦ rw e (elim (Bool-cases flags.search_series) [
        | inl e ↦ rw e (series args)
        | inr e ↦ rw e (elim (Bool-cases flags.series_list_from_stdin) [
          | inl e ↦
              rw e
                (listed-AtMostOnce parsers clock later flags (list_series json (get_lines input)))
          | inr e ↦ rw e (with_query args)
        ])
      ])
    ])
  where
    labels : (args : List (List ℕ)) → AtMostOnce (do_search_labels flags args)
    labels [] = refl
    labels (arg ∷ args) = (refl, tt)

    series : (args : List (List ℕ)) → AtMostOnce (do_search_series parsers flags args)
    series [] = refl
    series (arg ∷ args) = searched-AtMostOnce (build_series_query parsers flags (arg ∷ args))

    with_query :
        (args : List (List ℕ))
        → AtMostOnce (do_read_datapoints_with_query parsers clock later flags args)
    with_query [] = refl
    with_query (arg ∷ args) =
        queried-AtMostOnce parsers clock later flags (build_series_query parsers flags (arg ∷ args))
