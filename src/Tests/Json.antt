-- ===== src/Tests/Json.antt =====
-- A JSON library, and the output of the reading client as the input of the writing one.
use mathlib.Core.List.Perm
use mathlib.Core.List.{Perm}
use vqro.Base.{
  ℕ, ℤ, List, [], ◌∷◌, ◌++◌, get_elem?, length, Option, none, some, Bool, true, false, ◌≡◌, refl,
  ap, if◌then◌else◌, codes, sym, subst,
}
use vqro.Client.Stdin.{Json}
use vqro.Client.Print.{JsonWriter, ReadResult, read_result_json, receive, print_read_result_json}
use vqro.Client.Print.RoundTrip.{KeepsValues, SameRequests, write_main-receive}
use vqro.Client.Print.RoundTrip.Labels.{KeepsMembers}
use vqro.Client.Write.{WriteRequest, write_main, ended}
use vqro.Db.Database.GetSeries.{text_eq}
use vqro.Db.Database.GetSeries.Laws.{text_eq_refl}
use vqro.Tests.{point}

mutual
  data Value : Type 0 where
    null : Value
    text : List ℕ → Value
    int : ℤ → Value
    double : ℕ → Value
    bool : Bool → Value
    array : Elements → Value
    object : Members → Value

  data Elements : Type 0 where
    nil : Elements
    element : Value → Elements → Elements

  data Members : Type 0 where
    end : Members
    member : List ℕ → Value → Members → Members

abbrev elements_list : Elements → List Value
elements_list nil = []
elements_list (element v es) = v ∷ elements_list es

abbrev elements_of : Value → List Value
elements_of (array es) = elements_list es
elements_of v = []

abbrev from_list : List Value → Elements
from_list [] = nil
from_list (v ∷ vs) = element v (from_list vs)

from_list-elements : (vs : List Value) → elements_list (from_list vs) ≡ vs
from_list-elements [] = refl
from_list-elements (v ∷ vs) = ap (λ (l : List Value). v ∷ l) (from_list-elements vs)

abbrev members_of : Value → Members
members_of (object m) = m
members_of v = end

abbrev find_member : List ℕ → Members → Value
find_member key end = null
find_member key (member k v m) = if text_eq k key then v else find_member key m

abbrev names_list : Members → List (List ℕ)
names_list end = []
names_list (member k v m) = k ∷ names_list m

abbrev names_of : Value → Option (List (List ℕ))
names_of null = some []
names_of (object m) = some (names_list m)
names_of v = none

abbrev is_null_value : Value → Bool
is_null_value null = true
is_null_value v = false

abbrev as_text : Value → Option (List ℕ)
as_text (text t) = some t
as_text v = none

abbrev as_int : Option Value → Option ℤ
as_int (some (int n)) = some n
as_int v = none

abbrev as_double : Option Value → Option ℕ
as_double (some (double d)) = some d
as_double v = none

-- One text stands for all values.
abbrev values_writer : JsonWriter Value
values_writer = record {
  null_value = null;
  array_value = array nil;
  of_text = text;
  of_int64 = int;
  of_double = double;
  of_bool = bool;
  set_member = λ j key v. object (member key v (members_of j));
  append = λ j v. array (from_list (elements_of j ++ v ∷ []));
  write_fast = λ j. b'x' ∷ b'\n' ∷ [];
  write_styled = λ j. b'x' ∷ [];
}

abbrev a_result : ReadResult
a_result = record {
  labels = (codes "a", codes "b") ∷ (codes "c", codes "d") ∷ [];
  datapoints = point 10 1 5 ∷ point 20 2 5 ∷ [];
  status = none;
}

abbrev values_json : Json Value
values_json = record {
  parse = λ line. some (read_result_json values_writer a_result);
  member = λ j key. some (find_member key (members_of j));
  is_null = is_null_value;
  member_names = names_of;
  member_text = λ j key. as_text (find_member key (members_of j));
  elements = elements_of;
  size = λ j. length (elements_of j);
  int64_at = λ j i. as_int (get_elem? (elements_of j) i);
  double_at = λ j i. as_double (get_elem? (elements_of j) i);
}

-- An object, or the value null, has its names kept.
values_names_set :
    (j : Value) (key : List ℕ) (v : Value) (names : List (List ℕ))
    → names_of j ≡ some names
    → (after : List (List ℕ)) × (some (key ∷ names_list (members_of j)) ≡ some after)
      × Perm after (key ∷ names)
values_names_set null key v names e =
    let same : [] ≡ names = cc in
    (key ∷ [], refl, subst (λ l. Perm (key ∷ []) (key ∷ l)) same (Perm.refl (key ∷ [])))
values_names_set (object m) key v names e =
    let same : names_list m ≡ names = cc in
    (
      key ∷ names_list m,
      refl,
      subst (λ l. Perm (key ∷ names_list m) (key ∷ l)) same (Perm.refl (key ∷ names_list m)),
    )
values_names_set (text t) key v names e = cc
values_names_set (int n) key v names e = cc
values_names_set (double d) key v names e = cc
values_names_set (bool b) key v names e = cc
values_names_set (array es) key v names e = cc

values-KeepsMembers : KeepsMembers values_json values_writer
values-KeepsMembers = record {
  member_set = λ j key v. rw (text_eq_refl key) refl;
  member_other = λ j key other v e. rw e refl;
  set_not_null = λ j key v. refl;
  names_null = refl;
  names_set = λ j key v names e new. values_names_set j key v names e;
  text_set = λ j key t. rw (text_eq_refl key) refl;
  text_other = λ j key other v e. rw e refl;
}

abbrev IsResult : Value → Type 0
IsResult v = v ≡ read_result_json values_writer a_result

values-KeepsValues : KeepsValues values_json values_writer IsResult
values-KeepsValues = record {
  members = values-KeepsMembers;
  array_not_null = refl;
  append_not_null = λ j v. refl;
  elements_null = refl;
  elements_array = refl;
  elements_append = λ j v. from_list-elements (elements_of j ++ v ∷ []);
  size_elements = λ j. refl;
  int64_element = λ j i n e. rw e refl;
  double_element = λ j i d e. rw e refl;
  writes_back = λ j e. (b'x', [], refl, (refl, tt), ap some (sym e));
}

write_main-receive_example :
    (requests : List WriteRequest) × (write_main values_json
        (λ k. true)
        (receive (print_read_result_json values_writer) (a_result ∷ a_result ∷ [], false)).0
      ≡ ended 0 requests)
    × SameRequests (a_result ∷ a_result ∷ []) requests
unfolding text_eq
write_main-receive_example =
    write_main-receive values_json values_writer IsResult values-KeepsValues
      (a_result ∷ a_result ∷ []) false (λ k. true)
      ((refl, ((refl, tt), (tt, tt)), tt), ((refl, ((refl, tt), (tt, tt)), tt), tt)) (λ i. refl)
