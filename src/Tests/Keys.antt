-- ===== src/Tests/Keys.antt =====
-- Labels in two orders.
use vqro.Base.{[], ◌∷◌, ◌≡◌, sym, ap, ◌∙◌}
use mathlib.Core.HLevel.{Σ_set}
use mathlib.Core.Logic.{∥∥₁_elim}
use mathlib.Core.List.Perm
use mathlib.Core.List.{Memᴰ, is_set}
use native.Mathlib.Nat.{ℕ_set}
use vqro.Db.Database.GetSeries.{Label, get_series}
use vqro.Db.Database.GetSeries.AnyOrder.{OneValue, get_series-Perm}

label_set : IsSet Label
label_set = Σ_set (is_set ℕ_set) (λ a. is_set ℕ_set)

by_place :
    (x y a b : Label)
    → (x.0 ≡ y.0 → ⊥)
    → a.0 ≡ b.0
    → Memᴰ a (x ∷ y ∷ [])
    → Memᴰ b (x ∷ y ∷ [])
    → a ≡ b
by_place x y a b differ same (Memᴰ.head e) (Memᴰ.head f) = e ∙ sym f
by_place x y a b differ same (Memᴰ.head e) (Memᴰ.tail (Memᴰ.head f)) =
    absurd (differ (sym (ap (λ (l : Label). l.0) e) ∙ same ∙ ap (λ (l : Label). l.0) f))
by_place x y a b differ same (Memᴰ.tail (Memᴰ.head e)) (Memᴰ.head f) =
    absurd (differ (sym (ap (λ (l : Label). l.0) f) ∙ sym same ∙ ap (λ (l : Label). l.0) e))
by_place x y a b differ same (Memᴰ.tail (Memᴰ.head e)) (Memᴰ.tail (Memᴰ.head f)) = e ∙ sym f
by_place x y a b differ same (Memᴰ.head e) (Memᴰ.tail (Memᴰ.tail m)) = elim m [ ]
by_place x y a b differ same (Memᴰ.tail (Memᴰ.head e)) (Memᴰ.tail (Memᴰ.tail m)) = elim m [ ]
by_place x y a b differ same (Memᴰ.tail (Memᴰ.tail m)) n = elim m [ ]

-- Two labels with different names.
two-OneValue : (x y : Label) → (x.0 ≡ y.0 → ⊥) → OneValue (x ∷ y ∷ [])
two-OneValue x y differ a b i j same =
    ∥∥₁_elim i (label_set a b)
      (λ d. ∥∥₁_elim j (label_set a b) (λ e. by_place x y a b differ same d e))

abbrev job : Label
job = ((b'j' ∷ []), (b'x' ∷ []))

abbrev host : Label
host = ((b'j' ∷ b'h' ∷ []), (b'y' ∷ []))

get_series-Perm_example :
    get_series (λ labels key. labels) [] (job ∷ host ∷ [])
    ≡ get_series (λ labels key. labels) [] (host ∷ job ∷ [])
get_series-Perm_example =
    get_series-Perm (λ labels key. labels) [] (job ∷ host ∷ []) (host ∷ job ∷ [])
      (Perm.swap host job []) (two-OneValue job host (λ e. cc))
