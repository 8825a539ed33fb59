-- ===== src/Db/WriteBuffer/Sorting.antt =====
-- WriteBuffer: iteration yields the contents, and Sort puts them in order.
use mathlib.Core.List.Perm
use mathlib.Core.List.{Perm}
use vqro.Base.{
  flatten, ℕ, zero, suc, ◌+◌, ◌≤◌, List, [], ◌∷◌, ◌++◌, ◌≡◌, refl, ap, sym, ◌∙◌, length, get_elem?,
  take, drop, arith, true, false, if◌then◌else◌, some, append_assoc, append-nil, length-take,
}
use vqro.Db.Datapoint.{Datapoint}
use vqro.Db.Order.{stable_sort, length-stable_sort, stable_sort-Perm}
use vqro.Db.WriteBuffer.{WriteBuffer, value_at, store_at, store_from, values, values_from, sort}
use vqro.Db.WriteBuffer.Blocks.{get_elem?-flatten, take-set, length-set}
use vqro.Db.WriteBuffer.Laws.{IsValid, contents, flatten-store_at, store_at-IsValid}
use vqro.Db.Series.Read.{sort_if_needed}

front_of_drop :
    (i : ℕ) (xs : List Datapoint)
    → suc i ≤ length xs
    → (p : Datapoint) × (get_elem? xs i ≡ some p) × (drop i xs ≡ p ∷ drop (suc i) xs)
front_of_drop i [] h = absurd (omega arith)
front_of_drop zero (x ∷ xs) h = (x, refl, refl)
front_of_drop (suc i) (x ∷ xs) h = front_of_drop i xs (omega arith)

values_from-suc :
    (wb : WriteBuffer) (n i : ℕ) (p : Datapoint)
    → value_at wb i ≡ some p
    → values_from (suc n) i wb ≡ p ∷ values_from n (suc i) wb
unfolding values_from
values_from-suc wb n i p e = rw (e, values_from) refl

values_from-drop :
    (wb : WriteBuffer) (n i : ℕ)
    → IsValid wb
    → i + n ≤ length (flatten wb.allocs)
    → values_from n i wb ≡ take n (drop i (flatten wb.allocs))
values_from-drop wb zero i v h = unfold values_from in refl
values_from-drop wb (suc n) i v h =
    let (p, here, front) = front_of_drop i (flatten wb.allocs) (omega arith) in
    let value : value_at wb i ≡ some p =
      unfold value_at in
      get_elem?-flatten wb.datapoints_per_alloc v.positive wb.allocs i v.blocks ∙ here in
    values_from-suc wb n i p value
    ∙ ap (λ (l : List Datapoint). p ∷ l) (values_from-drop wb n (suc i) v (omega arith))
    ∙ ap (take (suc n)) (sym front)

-- What iteration over the buffer yields is what it holds.
pub values-contents : (wb : WriteBuffer) → IsValid wb → values wb ≡ contents wb
unfolding values
values-contents wb v = values_from-drop wb wb.num_datapoints 0 v (omega (arith, v.room))

-- Stores from a position on leave what stands in front of it.
store_from-contents :
    (wb : WriteBuffer) (i : ℕ) (ps : List Datapoint)
    → IsValid wb
    → i + length ps ≤ length (flatten wb.allocs)
    → IsValid (store_from i ps wb)
      × (take (i + length ps) (flatten (store_from i ps wb).allocs)
          ≡ take i (flatten wb.allocs) ++ ps)
      × ((store_from i ps wb).num_datapoints ≡ wb.num_datapoints)
unfolding store_from
store_from-contents wb i [] v h =
    (v, ap (λ n. take n (flatten wb.allocs)) (omega arith) ∙ sym (append-nil _), refl)
store_from-contents wb i (p ∷ ps) v h =
    let stored = flatten-store_at wb i p v in
    let room : suc i + length ps ≤ length (flatten (store_at wb i p).allocs) =
      rw (stored, length-set (flatten wb.allocs) i p) (omega arith) in
    let (valid, front, num) =
      store_from-contents (store_at wb i p) (suc i) ps (store_at-IsValid wb i p v) room in
    (
      valid,
      ap (λ n. take n (flatten (store_from (suc i) ps (store_at wb i p)).allocs)) (omega arith)
          ∙ front
          ∙ ap (λ (l : List Datapoint). take (suc i) l ++ ps) stored
          ∙ ap (λ (l : List Datapoint). l ++ ps) (take-set i (flatten wb.allocs) p (omega arith))
          ∙ append_assoc (take i (flatten wb.allocs)) (p ∷ []) ps,
      num ∙ unfold store_at in refl,
    )

length-contents : (wb : WriteBuffer) → IsValid wb → length (contents wb) ≡ wb.num_datapoints
length-contents wb v = length-take wb.num_datapoints (flatten wb.allocs) ∙ omega (arith, v.room)

-- Sort keeps the allocations valid, and what the buffer holds is then sorted, those with one
-- timestamp in their order.
pub sort-contents :
    (wb : WriteBuffer)
    → IsValid wb
    → IsValid (sort wb) × (contents (sort wb) ≡ stable_sort (contents wb))
sort-contents wb v =
    let points : List Datapoint = stable_sort (values wb) in
    let len : length points ≡ wb.num_datapoints =
      length-stable_sort (values wb) ∙ ap length (values-contents wb v) ∙ length-contents wb v in
    let (valid, front, num) = store_from-contents wb 0 points v (omega (arith, len, v.room)) in
    let whole : take (store_from 0 points wb).num_datapoints
          (flatten (store_from 0 points wb).allocs)
        ≡ points =
      ap (λ n. take n (flatten (store_from 0 points wb).allocs)) (omega (arith, len, num))
      ∙ front in
    (
      unfold sort in record { positive = valid.positive; blocks = valid.blocks; room = valid.room },
      unfold sort in (whole ∙ ap stable_sort (values-contents wb v)),
    )

-- The buffer as a reader or a flush leaves it has the same datapoints.
pub sort_if_needed-Perm :
    (wb : WriteBuffer)
    → IsValid wb
    → IsValid (sort_if_needed wb) × Perm (contents (sort_if_needed wb)) (contents wb)
sort_if_needed-Perm wb v =
    elim wb.sorted
      as (λ b.
        let ready : WriteBuffer = if b then wb else sort wb in
        IsValid ready × Perm (contents ready) (contents wb)) [
          | true ↦ (v, Perm.refl (contents wb))
          | false ↦
              let (valid, same) = sort-contents wb v in
              (valid, rw same (stable_sort-Perm (contents wb)))
        ]
