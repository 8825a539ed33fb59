-- ===== src/Client/Print/RoundTrip/Labels.antt =====
-- The labels of a series as a JSON object, and back.
use mathlib.Core.List.Perm
use mathlib.Core.List.{
  Perm, Mem, mem-cons, mem-cons_self, mem-cons_of_mem, not-mem-nil, perm_middle,
}
use mathlib.Core.Logic.Or
use vqro.Base.{
  ℕ, List, [], ◌∷◌, All, map, Option, none, some, true, false, ◌≡◌, refl, ap, subst, append-nil,
  ◌∙◌, ◌++◌, arith, Bool,
}
use vqro.Client.{bind}
use vqro.Client.Stdin.{Json, json_labels, labels_of}
use vqro.Client.Print.{JsonWriter, labels_json}
use vqro.Db.Database.GetSeries.{Label, text_eq}

-- What JsonCpp documents of the members of an object.
pub record KeepsMembers {J : Type 0} (json : Json J) (writer : JsonWriter J) : Type 0 where
  pub member_set :
      (j : J) (key : List ℕ) (v : J) → json.member (writer.set_member j key v) key ≡ some v
  pub member_other :
      (j : J) (key other : List ℕ) (v : J)
      → text_eq key other ≡ false
      → json.member (writer.set_member j key v) other ≡ json.member j other
  pub set_not_null :
      (j : J) (key : List ℕ) (v : J) → json.is_null (writer.set_member j key v) ≡ false
  pub names_null : json.member_names writer.null_value ≡ some []
  pub names_set :
      (j : J) (key : List ℕ) (v : J) (names : List (List ℕ))
      → json.member_names j ≡ some names
      → ((name : List ℕ) → Mem name names → text_eq name key ≡ false)
      → (after : List (List ℕ)) × (json.member_names (writer.set_member j key v) ≡ some after)
        × Perm after (key ∷ names)
  pub text_set :
      (j : J) (key text : List ℕ)
      → json.member_text (writer.set_member j key (writer.of_text text)) key ≡ some text
  pub text_other :
      (j : J) (key other : List ℕ) (v : J)
      → text_eq key other ≡ false
      → json.member_text (writer.set_member j key v) other ≡ json.member_text j other

-- No two labels have one name.
abbrev pub Distinct : List Label → Type 0
Distinct [] = Unit
Distinct (l ∷ ls) = All (λ m. text_eq l.0 m.0 ≡ false) ls × Distinct ls

text_eq_comm : (a b : List ℕ) → text_eq a b ≡ text_eq b a
unfolding text_eq
text_eq_comm [] [] = refl
text_eq_comm [] (d ∷ ds) = refl
text_eq_comm (c ∷ cs) [] = refl
text_eq_comm (c ∷ cs) (d ∷ ds) = ground (arith, text_eq_comm cs ds)

-- Every label of the second list has another name than every label of the first.
abbrev Fresh : List Label → List Label → Type 0
Fresh done [] = Unit
Fresh done (m ∷ ms) = All (λ l. text_eq m.0 l.0 ≡ false) done × Fresh done ms

Fresh-cons :
    (l : Label) (done ms : List Label)
    → All (λ m. text_eq l.0 m.0 ≡ false) ms
    → Fresh done ms
    → Fresh (l ∷ done) ms
Fresh-cons l done [] h f = tt
Fresh-cons l done (m ∷ ms) h f = ((text_eq_comm m.0 l.0 ∙ h.0, f.0), Fresh-cons l done ms h.1 f.1)

Fresh-none : (ms : List Label) → Fresh [] ms
Fresh-none [] = tt
Fresh-none (m ∷ ms) = (tt, Fresh-none ms)

all_other :
    (key : List ℕ) (ls : List Label)
    → All (λ l. text_eq key l.0 ≡ false) ls
    → All (λ l. text_eq l.0 key ≡ false) ls
all_other key [] h = tt
all_other key (l ∷ ls) h = (text_eq_comm l.0 key ∙ h.0, all_other key ls h.1)

module _ {J : Type 0} (json : Json J) (writer : JsonWriter J)
    (keeps : KeepsMembers json writer) where
  -- The object has the labels `ls`, and no other member.
  record Holds (j : J) (ls : List Label) : Type 0 where
    names : List (List ℕ)
    has_names : json.member_names j ≡ some names
    same_names : Perm names (map (λ (l : Label). l.0) ls)
    texts : All (λ l. json.member_text j l.0 ≡ some l.1) ls

  -- What holds of each name of the labels holds of each of the names.
  Mem-All :
      (name key : List ℕ) (ls : List Label)
      → All (λ l. text_eq l.0 key ≡ false) ls
      → Mem name (map (λ (l : Label). l.0) ls)
      → text_eq name key ≡ false
  Mem-All name key [] h m = absurd (not-mem-nil m)
  Mem-All name key (l ∷ ls) h m =
      Or.elim (hlevel) (mem-cons.0 m) (λ e. rw e h.0) (Mem-All name key ls h.1)

  texts_other :
      (j v : J) (key : List ℕ) (ls : List Label)
      → All (λ l. text_eq key l.0 ≡ false) ls
      → All (λ l. json.member_text j l.0 ≡ some l.1) ls
      → All (λ l. json.member_text (writer.set_member j key v) l.0 ≡ some l.1) ls
  texts_other j v key [] h t = tt
  texts_other j v key (l ∷ ls) h t =
      (keeps.text_other j key l.0 v h.0 ∙ t.0, texts_other j v key ls h.1 t.1)

  Holds-set :
      (j : J) (key text : List ℕ) (ls : List Label)
      → All (λ l. text_eq key l.0 ≡ false) ls
      → All (λ l. text_eq l.0 key ≡ false) ls
      → Holds j ls
      → Holds (writer.set_member j key (writer.of_text text)) ((key, text) ∷ ls)
  Holds-set j key text ls new new' h =
      let (after, found, same) =
        keeps.names_set j key (writer.of_text text) h.names h.has_names
          (λ name m. Mem-All name key ls new' ((Perm.mem_iff h.same_names).0 m)) in
      record {
        names = after;
        has_names = found;
        same_names = Perm.trans same (Perm.cons key h.same_names);
        texts = (keeps.text_set j key text, texts_other j (writer.of_text text) key ls new h.texts);
      }

  labels_json-Holds :
      (j : J) (done ls : List Label)
      → Distinct ls
      → Fresh done ls
      → Holds j done
      → (all : List Label) × Holds (labels_json writer j ls) all × Perm all (ls ++ done)
  unfolding labels_json
  labels_json-Holds j done [] d f h = (done, h, Perm.refl done)
  labels_json-Holds j done ((key, text) ∷ ls) d f h =
      let (all, holds, same) =
        labels_json-Holds (writer.set_member j key (writer.of_text text)) ((key, text) ∷ done) ls
          d.1 (Fresh-cons (key, text) done ls d.0 f.1)
          (Holds-set j key text done f.0 (all_other key done f.0) h) in
      (all, holds, Perm.trans same (perm_middle ls done))

  abbrev text_or_empty : Option (List ℕ) → List ℕ
  text_or_empty none = []
  text_or_empty (some text) = text

  abbrev is_there : Option (List ℕ) → Bool
  is_there none = false
  is_there (some text) = true

  abbrev IsThere : Option (List ℕ) → Type 0
  IsThere o = o ≡ some (text_or_empty o)

  abbrev with_text : J → List ℕ → Label
  with_text j name = (name, text_or_empty (json.member_text j name))

  labels_of-map :
      (j : J) (names : List (List ℕ))
      → All (λ name. IsThere (json.member_text j name)) names
      → labels_of json j names ≡ some (map (with_text j) names)
  labels_of-map j [] h = refl
  labels_of-map j (name ∷ names) h =
      ap
        (λ o.
          bind o (λ value. bind (labels_of json j names) (λ labels. some ((name, value) ∷ labels))))
        h.0
      ∙ ap (λ o. bind o (λ labels. some (with_text j name ∷ labels))) (labels_of-map j names h.1)

  Mem-is_there :
      (j : J) (name : List ℕ) (ls : List Label)
      → All (λ l. json.member_text j l.0 ≡ some l.1) ls
      → Mem name (map (λ (l : Label). l.0) ls)
      → is_there (json.member_text j name) ≡ true
  Mem-is_there j name [] t m = absurd (not-mem-nil m)
  Mem-is_there j name (l ∷ ls) t m =
      Or.elim (hlevel) (mem-cons.0 m) (λ e. rw (e, t.0) refl) (Mem-is_there j name ls t.1)

  IsThere-of : (o : Option (List ℕ)) → is_there o ≡ true → IsThere o
  IsThere-of none e = cc
  IsThere-of (some text) e = refl

  all-IsThere :
      (j : J) (names : List (List ℕ))
      → ((name : List ℕ) → Mem name names → is_there (json.member_text j name) ≡ true)
      → All (λ name. IsThere (json.member_text j name)) names
  all-IsThere j [] h = tt
  all-IsThere j (name ∷ names) h = (
    IsThere-of (json.member_text j name) (h name mem-cons_self),
    all-IsThere j names (λ n m. h n (mem-cons_of_mem name m)),
  )

  map-texts :
      (j : J) (ls : List Label)
      → All (λ l. json.member_text j l.0 ≡ some l.1) ls
      → map (with_text j) (map (λ (l : Label). l.0) ls) ≡ ls
  map-texts j [] t = refl
  map-texts j ((name, text) ∷ ls) t =
      ap (λ o. (name, text_or_empty o) ∷ map (with_text j) (map (λ (l : Label). l.0) ls)) t.0
      ∙ ap (λ (r : List Label). (name, text) ∷ r) (map-texts j ls t.1)

  Holds-back :
      (j : J) (ls : List Label)
      → Holds j ls
      → (back : List Label) × (json_labels json j ≡ some back) × Perm back ls
  unfolding json_labels
  Holds-back j ls h = (
    map (with_text j) h.names,
    ap (λ o. bind o (labels_of json j)) h.has_names
        ∙ labels_of-map j h.names (
            all-IsThere j h.names
              (λ n m. Mem-is_there j n ls h.texts ((Perm.mem_iff h.same_names).0 m))),
    subst (λ r. Perm (map (with_text j) h.names) r) (map-texts j ls h.texts)
        (Perm.map (with_text j) h.same_names),
  )

  -- Labels with distinct names come back, in some order.
  pub labels-back :
      (ls : List Label)
      → Distinct ls
      → (back : List Label) × (json_labels json (labels_json writer writer.null_value ls)
          ≡ some back)
        × Perm back ls
  labels-back ls d =
      let nothing : Holds writer.null_value [] = record {
        names = [];
        has_names = keeps.names_null;
        same_names = Perm.refl [];
        texts = tt;
      } in
      let (all, holds, same) =
        labels_json-Holds writer.null_value [] ls d (Fresh-none ls) nothing in
      let (back, found, perm) = Holds-back (labels_json writer writer.null_value ls) all holds in
      (back, found, Perm.trans perm (subst (λ r. Perm all r) (append-nil ls) same))
