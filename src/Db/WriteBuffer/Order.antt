-- ===== src/Db/WriteBuffer/Order.antt =====
-- WriteBuffer: what the flag `sorted` tells.
use vqro.Base.{
  ◌<ℤ◌, Option, none, some, List, [], ◌∷◌, ◌++◌, ◌≡◌, ◌↔◌, refl, ap, ◌∙◌, arith, Bool-cases, inl,
  inr, true, false, not, ◌&&◌,
}
use vqro.Db.Datapoint.{Datapoint, isnan}
use vqro.Db.Order.{IsSorted, SortedFrom}
use vqro.Db.WriteBuffer.{
  WriteBuffer, append_one, append_loop, append, get_next_datapoint, goes_back, clear,
}
use vqro.Db.WriteBuffer.Laws.{
  IsValid, contents, without_nan, append-contents, append-IsValid, clear-IsValid,
}

sorted-get_next_datapoint :
    (fresh : Datapoint) (wb : WriteBuffer) → (get_next_datapoint fresh wb).sorted ≡ wb.sorted
unfolding get_next_datapoint
sorted-get_next_datapoint fresh wb = ground arith

sorted-append_one :
    (fresh : Datapoint) (wb : WriteBuffer) (previous : Option Datapoint) (p : Datapoint)
    → (append_one fresh wb previous p).sorted ≡ (wb.sorted && not (goes_back p previous))
unfolding append_one
sorted-append_one fresh wb previous p =
    let same = sorted-get_next_datapoint fresh wb in ground (arith, same)

-- The datapoints are in order, also behind the one that was written before them.
abbrev SortedAfter : Option Datapoint → List Datapoint → Type 0
SortedAfter none ps = IsSorted ps
SortedAfter (some q) ps = SortedFrom q.timestamp ps

SortedAfter-cons :
    (previous : Option Datapoint) (p : Datapoint) (ps : List Datapoint)
    → goes_back p previous ≡ false
    → SortedFrom p.timestamp ps
    → SortedAfter previous (p ∷ ps)
SortedAfter-cons none p ps h s = s
SortedAfter-cons (some q) p ps h s = (ground arith, s)

SortedAfter-uncons :
    (previous : Option Datapoint) (p : Datapoint) (ps : List Datapoint)
    → SortedAfter previous (p ∷ ps)
    → (goes_back p previous ≡ false) × SortedFrom p.timestamp ps
SortedAfter-uncons none p ps s = (refl, s)
SortedAfter-uncons (some q) p ps s = (ground arith, s.1)

append_loop-sorted :
    (fresh : Datapoint) (wb : WriteBuffer) (previous : Option Datapoint) (ps : List Datapoint)
    → (append_loop fresh wb previous ps).sorted ≡ true
    → (wb.sorted ≡ true) × SortedAfter previous (without_nan ps)
unfolding append_loop
append_loop-sorted fresh wb none [] h = (h, tt)
append_loop-sorted fresh wb (some q) [] h = (h, tt)
append_loop-sorted fresh wb previous (p ∷ ps) h = elim (Bool-cases (isnan p.value)) [
  | inl e ↦ rw e (append_loop-sorted fresh wb previous ps (rw e at h))
  | inr e ↦
      let (flag, rest) =
        append_loop-sorted fresh (append_one fresh wb previous p) (some p) ps (rw e at h) in
      let step = sorted-append_one fresh wb previous p in
      rw e (
        ground (arith, flag, step),
        SortedAfter-cons previous p (without_nan ps) (ground (arith, flag, step)) rest,
      )
]

append_loop-IsSorted :
    (fresh : Datapoint) (wb : WriteBuffer) (previous : Option Datapoint) (ps : List Datapoint)
    → wb.sorted ≡ true
    → SortedAfter previous (without_nan ps)
    → (append_loop fresh wb previous ps).sorted ≡ true
unfolding append_loop
append_loop-IsSorted fresh wb previous [] flag s = flag
append_loop-IsSorted fresh wb previous (p ∷ ps) flag s = elim (Bool-cases (isnan p.value)) [
  | inl e ↦ rw e (append_loop-IsSorted fresh wb previous ps flag (rw e at s))
  | inr e ↦
      let (forward, rest) = SortedAfter-uncons previous p (without_nan ps) (rw e at s) in
      rw e (
        append_loop-IsSorted fresh (append_one fresh wb previous p) (some p) ps
          (sorted-append_one fresh wb previous p ∙ rw (flag, forward)) rest)
]

-- After Append the flag `sorted` is set exactly when it was set before and the datapoints of the
-- request that are not NAN are in order among themselves.
pub append-sorted :
    (fresh : Datapoint) (wb : WriteBuffer) (ps : List Datapoint)
    → ((append fresh wb ps).sorted ≡ true) ↔ ((wb.sorted ≡ true) × IsSorted (without_nan ps))
unfolding append
append-sorted fresh wb ps =
    (append_loop-sorted fresh wb none ps, λ h. append_loop-IsSorted fresh wb none ps h.0 h.1)

-- The flag does not look across two requests: where a buffer with valid allocations is cleared, and
-- is then given a datapoint and, in a second request, one that goes back in time, neither being
-- NAN, the flag is still set, and the contents are out of order.
pub append_twice_unsorted :
    (fresh : Datapoint) (wb : WriteBuffer) (p q : Datapoint)
    → IsValid wb
    → isnan p.value ≡ false
    → isnan q.value ≡ false
    → q.timestamp <ℤ p.timestamp
    → let twice = append fresh (append fresh (clear wb) (p ∷ [])) (q ∷ []) in
      (twice.sorted ≡ true) × (contents twice ≡ p ∷ q ∷ []) × ¬ IsSorted (p ∷ q ∷ [])
append_twice_unsorted fresh wb p q v np nq back =
    let once : WriteBuffer = append fresh (clear wb) (p ∷ []) in
    let valid = clear-IsValid wb v in
    (
      (append-sorted fresh once (q ∷ [])).1
          ((append-sorted fresh (clear wb) (p ∷ [])).1 (unfold clear in refl, rw np tt), rw nq tt),
      append-contents fresh once (q ∷ []) (append-IsValid fresh (clear wb) (p ∷ []) valid)
          ∙ ap (λ (l : List Datapoint). l ++ without_nan (q ∷ []))
              (append-contents fresh (clear wb) (p ∷ []) valid)
          ∙ unfold clear in rw (np, nq),
      λ s. absurd (omega (arith, s.0)),
    )
