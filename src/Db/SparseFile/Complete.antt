-- ===== src/Db/SparseFile/Complete.antt =====
-- SparseFile::Read: nothing of the range is left out, as far as the buffer has space.
use vqro.Base.{
  ℕ, zero, suc, ◌-◌, ◌^◌, ◌≤◌, ◌<◌, ℤ, ◌≤ℤ◌, ◌<ℤ◌, true, false, Bool-cases, inl, inr, List, [], ◌∷◌,
  ◌++◌, ◌≡◌, refl, ap, sym, ◌∙◌, ltb_ℤ, arith, length, append_assoc, append-nil, take,
  if◌then◌else◌, length-append,
}
use vqro.Db.Datapoint.{Datapoint}
use vqro.Db.ReadOp.{ReadOperation, append, time_after, has_space}
use vqro.Db.ReadOp.Chain.{Fits, append-Fits}
use vqro.Db.Order.{from_lower_bound, stable_sort, length-stable_sort}
use vqro.Db.SparseFile.Read.{copy, read_datapoints, wanted, latest, same_time, after_same_time}
use vqro.Db.SparseFile.Laws.{latest-timestamp}

-- One datapoint for each timestamp of a sorted list.
newest : ℕ → List Datapoint → List Datapoint
newest zero it = []
newest (suc fuel) [] = []
newest (suc fuel) (p ∷ ps) =
    latest p (same_time p.timestamp ps) ∷ newest fuel (after_same_time p.timestamp ps)

-- The series that a file holds: the latest version for each timestamp, by time.
unfoldable pub series : List Datapoint → List Datapoint
unfolding newest
series file = newest (length file) (stable_sort file)

-- No datapoint overlaps the one before, and the first is not before `lo`.
abbrev pub SpacedFrom : ℤ → List Datapoint → Type 0
SpacedFrom lo [] = Unit
SpacedFrom lo (p ∷ ps) = (lo ≤ℤ p.timestamp) × SpacedFrom (time_after p) ps

abbrev pub IsSpaced : List Datapoint → Type 0
IsSpaced [] = Unit
IsSpaced (p ∷ ps) = SpacedFrom (time_after p) ps

-- The datapoints up to the first that is not before `end`.
abbrev pub before_end : ℤ → List Datapoint → List Datapoint
before_end end [] = []
before_end end (p ∷ ps) = if ltb_ℤ p.timestamp end then p ∷ before_end end ps else []

take-nil : (n : ℕ) → take {A = Datapoint} n [] ≡ []
take-nil zero = refl
take-nil (suc n) = refl

take_pos :
    (n : ℕ) (p : Datapoint) (ps : List Datapoint) → 0 < n → take n (p ∷ ps) ≡ p ∷ take (n - 1) ps
take_pos zero p ps h = elim h [ ]
take_pos (suc n) p ps h = ap (λ k. p ∷ take k ps) (omega arith)

length-after_same_time : (t : ℤ) (ps : List Datapoint) → length (after_same_time t ps) ≤ length ps
unfolding after_same_time
length-after_same_time t [] = omega arith
length-after_same_time t (p ∷ ps) = ground (arith, length-after_same_time t ps)

length-from_lower_bound : (n : ℤ) (ps : List Datapoint) → length (from_lower_bound n ps) ≤ length ps
unfolding from_lower_bound
length-from_lower_bound n [] = omega arith
length-from_lower_bound n (p ∷ ps) = ground (arith, length-from_lower_bound n ps)

newest-suc :
    (fuel : ℕ) (it : List Datapoint) → length it ≤ fuel → newest (suc fuel) it ≡ newest fuel it
unfolding newest
newest-suc zero [] h = refl
newest-suc zero (p ∷ ps) h = absurd (omega arith)
newest-suc (suc fuel) [] h = refl
newest-suc (suc fuel) (p ∷ ps) h =
    ap (λ (l : List Datapoint). latest p (same_time p.timestamp ps) ∷ l)
      (newest-suc fuel _ (omega (arith, length-after_same_time p.timestamp ps)))

from_lower_bound-after_same_time :
    (n t : ℤ) (ps : List Datapoint)
    → t <ℤ n
    → from_lower_bound n (after_same_time t ps) ≡ from_lower_bound n ps
unfolding after_same_time from_lower_bound
from_lower_bound-after_same_time n t [] h = refl
from_lower_bound-after_same_time n t (p ∷ ps) h =
    ground (arith, from_lower_bound-after_same_time n t ps h)

from_lower_bound_pass :
    (n : ℤ) (p : Datapoint) (ps : List Datapoint)
    → ltb_ℤ p.timestamp n ≡ true
    → from_lower_bound n (p ∷ ps) ≡ from_lower_bound n ps
unfolding from_lower_bound
from_lower_bound_pass n p ps h = rw h

from_lower_bound_stop :
    (n : ℤ) (p : Datapoint) (ps : List Datapoint)
    → ltb_ℤ p.timestamp n ≡ false
    → from_lower_bound n (p ∷ ps) ≡ p ∷ ps
unfolding from_lower_bound
from_lower_bound_stop n p ps h = rw h

newest-from_lower_bound :
    (n : ℤ) (fuel : ℕ) (it : List Datapoint)
    → length it ≤ fuel
    → newest fuel (from_lower_bound n it) ≡ from_lower_bound n (newest fuel it)
unfolding newest
newest-from_lower_bound n zero [] h = unfold newest from_lower_bound in refl
newest-from_lower_bound n zero (p ∷ ps) h = absurd (omega arith)
newest-from_lower_bound n (suc fuel) [] h = unfold newest from_lower_bound in refl
newest-from_lower_bound n (suc fuel) (p ∷ ps) h =
    let q : Datapoint = latest p (same_time p.timestamp ps) in
    let rest : List Datapoint = after_same_time p.timestamp ps in
    let shorter = length-after_same_time p.timestamp ps in
    let ih = newest-from_lower_bound n fuel rest (omega arith) in
    elim (Bool-cases (ltb_ℤ p.timestamp n)) [
      | inl e ↦
          ap (newest (suc fuel)) (
            from_lower_bound_pass n p ps e
            ∙ sym (from_lower_bound-after_same_time n p.timestamp ps (ground arith)))
          ∙ newest-suc fuel (from_lower_bound n rest)
              (omega (arith, length-from_lower_bound n rest))
          ∙ ih
          ∙ sym (from_lower_bound_pass n q (newest fuel rest) (rw latest-timestamp e))
      | inr e ↦
          ap (newest (suc fuel)) (from_lower_bound_stop n p ps e)
          ∙ sym (from_lower_bound_stop n q (newest fuel rest) (rw latest-timestamp e))
    ]

SpacedFrom-IsSpaced : (lo : ℤ) (ps : List Datapoint) → SpacedFrom lo ps → IsSpaced ps
SpacedFrom-IsSpaced lo [] s = tt
SpacedFrom-IsSpaced lo (p ∷ ps) s = s.1

SpacedFrom-from_lower_bound :
    (n : ℤ) (ps : List Datapoint) → IsSpaced ps → SpacedFrom n (from_lower_bound n ps)
unfolding from_lower_bound
SpacedFrom-from_lower_bound n [] s = tt
SpacedFrom-from_lower_bound n (p ∷ ps) s = elim (Bool-cases (ltb_ℤ p.timestamp n)) [
  | inl e ↦ rw e (SpacedFrom-from_lower_bound n ps (SpacedFrom-IsSpaced (time_after p) ps s))
  | inr e ↦ rw e (ground arith, s)
]

module _ (op : ReadOperation) (small : op.buffer_size < 2 ^ 64) (fits : Fits op) where
  room_of_space : has_space op ≡ true → 0 < op.buffer_size - length op.buffer
  room_of_space h = ground arith

  no_room_of_no_space : has_space op ≡ false → op.buffer_size - length op.buffer ≡ 0
  no_room_of_no_space h = ground arith

-- The datapoints that the copying loop adds.
abbrev share : ReadOperation → List Datapoint → List Datapoint
share op ps = take (op.buffer_size - length op.buffer) (before_end op.end_time ps)

share-append :
    (op : ReadOperation) (q : Datapoint) (qs : List Datapoint)
    → 0 < op.buffer_size - length op.buffer
    → ltb_ℤ q.timestamp op.end_time ≡ true
    → share op (q ∷ qs) ≡ q ∷ share (append op q) qs
share-append op q qs room e = rw e (
    take_pos _ q _ room
    ∙ ap (λ k. q ∷ take k (before_end op.end_time qs))
        (omega (arith, length-append op.buffer (q ∷ []))))

copy_refused :
    (op : ReadOperation) (p q : Datapoint) (qs : List Datapoint)
    → op.buffer_size < 2 ^ 64
    → Fits op
    → q.timestamp ≡ p.timestamp
    → op.next_time ≤ℤ p.timestamp
    → wanted p op ≡ false
    → share op (q ∷ qs) ≡ []
copy_refused op p q qs small fits same lo w = elim (Bool-cases (has_space op)) [
  | inl e ↦ rw (late (ground arith)) (take-nil _)
  | inr e ↦ rw (no_room_of_no_space op small fits e)
]
  where
    late : ltb_ℤ p.timestamp op.end_time ≡ false → before_end op.end_time (q ∷ qs) ≡ []
    late h = rw (same, h)

copy-share :
    (fuel : ℕ) (it : List Datapoint) (op : ReadOperation)
    → op.buffer_size < 2 ^ 64
    → Fits op
    → SpacedFrom op.next_time (newest fuel it)
    → (copy fuel it op).buffer ≡ op.buffer ++ share op (newest fuel it)
unfolding copy newest
copy-share zero it op small fits s = rw (take-nil _) (sym (append-nil op.buffer))
copy-share (suc fuel) [] op small fits s = rw (take-nil _) (sym (append-nil op.buffer))
copy-share (suc fuel) (p ∷ ps) op small fits s =
    let q : Datapoint = latest p (same_time p.timestamp ps) in
    let rest : List Datapoint = after_same_time p.timestamp ps in
    let same = latest-timestamp p ps in
    elim (Bool-cases (wanted p op)) [
      | inl w ↦ rw w (
          copy-share fuel rest (append op q) small (append-Fits op q (ground arith) fits) s.1
          ∙ append_assoc op.buffer (q ∷ []) _
          ∙ ap (λ (l : List Datapoint). op.buffer ++ l)
              (sym (
                share-append op q (newest fuel rest) (room_of_space op small fits (ground arith))
                  (rw same (ground arith)))))
      | inr w ↦ rw w (
          sym (
            ap (λ (l : List Datapoint). op.buffer ++ l)
              (copy_refused op p q (newest fuel rest) small fits same (rw same at s.0) w)
            ∙ append-nil op.buffer))
    ]

-- Where no datapoint of the series that a file holds overlaps the one before, and the cursor is
-- within a buffer of less than 2 ^ 64 datapoints, SparseFile::Read adds exactly the datapoints of
-- the series from `next_time` up to `end_time`, as many as the buffer has space for, starting with
-- the earliest.
pub read_datapoints-series :
    (file : List Datapoint) (op : ReadOperation)
    → op.buffer_size < 2 ^ 64
    → length op.buffer ≤ op.buffer_size
    → IsSpaced (series file)
    → (read_datapoints file op).buffer
      ≡ op.buffer
        ++ take
            (op.buffer_size - length op.buffer)
            (before_end op.end_time (from_lower_bound op.next_time (series file)))
unfolding read_datapoints series
read_datapoints-series file op small fits s =
    let sorted : List Datapoint = stable_sort file in
    let agree : newest (length sorted) (from_lower_bound op.next_time sorted)
        ≡ from_lower_bound op.next_time (newest (length file) sorted) =
      newest-from_lower_bound op.next_time (length sorted) sorted (omega arith)
      ∙ ap (λ n. from_lower_bound op.next_time (newest n sorted)) (length-stable_sort file) in
    copy-share (length sorted) (from_lower_bound op.next_time sorted) op small fits
      (rw agree (SpacedFrom-from_lower_bound op.next_time (newest (length file) sorted) s))
    ∙ ap (λ l. op.buffer ++ share op l) agree
