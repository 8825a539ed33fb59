-- ===== src/Db/Database/GetSeries/AnyOrder.antt =====
-- The key of a series does not depend on the order in which a protobuf map yields its labels.
use vqro.Base.{ℕ, List, [], ◌∷◌, true, false, not, Bool-cases, inl, inr, ◌≡◌, refl, ap, ◌∙◌, arith}
use mathlib.Core.Logic.{∥∥₁_elim}
use mathlib.Core.List.Perm
use mathlib.Core.List.{Mem, Perm, mem-cons_self, mem-cons_of_mem, Permᴰ}
use native.Mathlib.Nat.{ℕ_set}
use vqro.Db.Database.GetSeries.{
  text_lt, text_eq, Label, insert_label, ordered, join, series_key, get_series, find_or_add,
}
use vqro.Db.Database.GetSeries.Laws.{text_eq→eq}

-- Of two different texts exactly one is before the other.
text_lt-flip : (a b : List ℕ) → text_eq a b ≡ false → text_lt b a ≡ not (text_lt a b)
unfolding text_lt text_eq
text_lt-flip [] [] h = cc
text_lt-flip [] (c ∷ b) h = refl
text_lt-flip (c ∷ a) [] h = refl
text_lt-flip (c ∷ a) (d ∷ b) h = ground (arith, text_lt-flip a b, h)

-- A text that is before another is before all that are not before that one's predecessors.
text_lt-between : (m a b : List ℕ) → text_lt m a ≡ true → text_lt m b ≡ false → text_lt b a ≡ true
unfolding text_lt
text_lt-between [] [] b l n = cc
text_lt-between [] (c ∷ a) [] l n = refl
text_lt-between [] (c ∷ a) (d ∷ b) l n = cc
text_lt-between (e ∷ m) [] b l n = cc
text_lt-between (e ∷ m) (c ∷ a) [] l n = refl
text_lt-between (e ∷ m) (c ∷ a) (d ∷ b) l n = ground (arith, text_lt-between m a b, l, n)

insert_label_comm :
    (a b : Label) (ls : List Label)
    → text_eq a.0 b.0 ≡ false
    → insert_label a (insert_label b ls) ≡ insert_label b (insert_label a ls)
unfolding insert_label
insert_label_comm a b [] h =
    let flip = text_lt-flip a.0 b.0 h in
    elim (Bool-cases (text_lt a.0 b.0)) [
      | inl e ↦ let f : text_lt b.0 a.0 ≡ false = flip ∙ ap not e in rw (e, f) refl
      | inr e ↦ let f : text_lt b.0 a.0 ≡ true = flip ∙ ap not e in rw (e, f) refl
    ]
insert_label_comm a b (m ∷ ms) h =
    let flip = text_lt-flip a.0 b.0 h in
    elim (Bool-cases (text_lt m.0 a.0)) [
      | inl ma ↦ elim (Bool-cases (text_lt m.0 b.0)) [
        | inl mb ↦ rw (ma, mb, ma) (ap (λ l. m ∷ l) (insert_label_comm a b ms h))
        | inr mb ↦ let f = text_lt-between m.0 a.0 b.0 ma mb in rw (ma, mb, f, ma) refl
      ]
      | inr ma ↦ elim (Bool-cases (text_lt m.0 b.0)) [
        | inl mb ↦ let f = text_lt-between m.0 b.0 a.0 mb ma in rw (ma, mb, f, ma) refl
        | inr mb ↦ elim (Bool-cases (text_lt a.0 b.0)) [
          | inl e ↦ let f : text_lt b.0 a.0 ≡ false = flip ∙ ap not e in rw (ma, mb, e, f) refl
          | inr e ↦ let f : text_lt b.0 a.0 ≡ true = flip ∙ ap not e in rw (ma, mb, e, f, ma) refl
        ]
      ]
    ]

insert_label-swap :
    (a b : Label) (ls : List Label)
    → (a.0 ≡ b.0 → a ≡ b)
    → insert_label a (insert_label b ls) ≡ insert_label b (insert_label a ls)
insert_label-swap a b ls one = elim (Bool-cases (text_eq a.0 b.0)) [
  | inl e ↦ rw (one (text_eq→eq a.0 b.0 e)) refl
  | inr e ↦ insert_label_comm a b ls e
]

-- A name has one value only, as in a map.
abbrev pub OneValue : List Label → Type 0
OneValue ls = (a b : Label) → Mem a ls → Mem b ls → a.0 ≡ b.0 → a ≡ b

ordered-Permᴰ : (ls ms : List Label) → Permᴰ ls ms → OneValue ls → ordered ls ≡ ordered ms
unfolding ordered
ordered-Permᴰ [] [] Permᴰ.nil one = refl
ordered-Permᴰ (a ∷ ls) (b ∷ ms) (Permᴰ.cons e d) one =
    let rest =
      ordered-Permᴰ ls ms d (λ x y i j. one x y (mem-cons_of_mem a i) (mem-cons_of_mem a j)) in
    rw (e, rest) refl
ordered-Permᴰ (a ∷ (b ∷ ls)) (b' ∷ (a' ∷ ls')) (Permᴰ.swap e f) one =
    insert_label-swap a b (ordered ls) (one a b mem-cons_self (mem-cons_of_mem a mem-cons_self))
    ∙ rw (e, f) refl
ordered-Permᴰ ls ns (Permᴰ.trans {l₂ = ms} d d') one =
    ordered-Permᴰ ls ms d one
    ∙ ordered-Permᴰ ms ns d'
        (λ x y i j. one x y ((Perm.mem_iff ∣ d ∣₁).1 i) ((Perm.mem_iff ∣ d ∣₁).1 j))

Label-set : IsSet (List Label)
Label-set = hlevel ℕ_set

-- Labels that stand for one map, in whatever order, are one list by name.
ordered-Perm : (ls ms : List Label) → Perm ls ms → OneValue ls → ordered ls ≡ ordered ms
ordered-Perm ls ms p one =
    ∥∥₁_elim p (Label-set (ordered ls) (ordered ms)) (λ d. ordered-Permᴰ ls ms d one)

-- GetSeries does not depend on the order in which a protobuf map yields its labels, each name with one
-- value: the series that it returns and the table that it leaves are the same.
pub get_series-Perm :
    {S : Type 0} (new_series : List Label → List ℕ → S) (table : List (List ℕ × S))
    (ls ms : List Label)
    → Perm ls ms
    → OneValue ls
    → get_series new_series table ls ≡ get_series new_series table ms
unfolding get_series series_key
get_series-Perm new_series table ls ms p one =
    ap (λ (l : List Label). find_or_add (new_series l) table (join l)) (ordered-Perm ls ms p one)
