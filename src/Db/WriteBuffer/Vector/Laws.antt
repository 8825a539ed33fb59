-- ===== src/Db/WriteBuffer/Vector/Laws.antt =====
-- GetIOVector.

use vqro.Base.{
  ℕ, zero, suc, ◌+◌, ◌-◌, ◌*◌, ◌/◌, ◌%◌, ◌^◌, ◌<◌, ◌≤◌, ℤ, pos, min, List, [], ◌∷◌, ◌≡◌, refl,
  arith, ltb, ◌==◌, true, false, Bool-cases, inl, inr, ◌&&◌, if◌then◌else◌, ◌∙◌, leb, subst, sym,
  min_ℤ, ltb_ℤ,
}
use native.Mathlib.Nat.{mod-lt, div-add-mod', div-le_self}
use vqro.Db.WriteBuffer.Blocks.{quotient_step}
use vqro.Db.WriteBuffer.{WriteBuffer, values}
use vqro.Db.Order.{upper_bound}
use vqro.Db.WriteBuffer.Vector.{
  Entry, IoVector, entries_from, usable, vector_upto, get_iovector, count_iovecs, to_int, to_size,
  sorted_first, entry_at,
}

-- The entries point to the positions from `i` to `j`, in their order: each starts at the position
-- where the one before ends, and stays in its allocation.
abbrev pub Covers : ℕ → ℕ → List Entry → ℕ → Type 0
Covers per_alloc i [] j = i ≡ j
Covers per_alloc i (e ∷ es) j =
    (e.alloc_index * per_alloc + e.alloc_offset ≡ i)
    × (e.alloc_offset + e.alloc_usable ≤ per_alloc)
    × (0 < e.alloc_usable)
    × Covers per_alloc (i + e.alloc_usable) es j

-- What one round writes: something, within the allocation, the buffer and the limit.
record Moves (k last i m n : ℕ) : Type 0 where
  some_left : 0 < n
  in_alloc : i % k + n ≤ k
  in_buffer : i + n ≤ last
  in_limit : n ≤ m

usable-Moves :
    (k last i m : ℕ) → 0 < k → (ltb i last && ltb 0 m) ≡ true → Moves k last i m (usable k last i m)
usable-Moves k last i m h e = record {
  some_left = ground (arith, mod-lt i h);
  in_alloc = ground (arith, mod-lt i h);
  in_buffer = ground (arith, mod-lt i h);
  in_limit = ground (arith, mod-lt i h);
}

entries_from-Covers :
    (fuel per_alloc last i max_writable : ℕ)
    → 0 < per_alloc
    → Covers per_alloc i
        (entries_from fuel per_alloc last i max_writable).0
        (entries_from fuel per_alloc last i max_writable).1
unfolding entries_from
entries_from-Covers zero k last i m h = refl
entries_from-Covers (suc fuel) k last i m h = elim (Bool-cases (ltb i last && ltb 0 m)) [
  | inl e ↦
      let n : ℕ = usable k last i m in
      let moves = usable-Moves k last i m h e in
      rw e (
        div-add-mod' i k,
        moves.in_alloc,
        moves.some_left,
        entries_from-Covers fuel k last (i + n) (m - n) h,
      )
  | inr e ↦ rw e refl
]

entries_from-last :
    (fuel per_alloc last i max_writable : ℕ)
    → 0 < per_alloc
    → i ≤ last
    → last - i ≤ fuel
    → (entries_from fuel per_alloc last i max_writable).1 ≡ min last (i + max_writable)
unfolding entries_from
entries_from-last zero k last i m h le f = omega arith
entries_from-last (suc fuel) k last i m h le f = elim (Bool-cases (ltb i last && ltb 0 m)) [
  | inl e ↦
      let n : ℕ = usable k last i m in
      let moves = usable-Moves k last i m h e in
      rw e (
        entries_from-last fuel k last (i + n) (m - n) h moves.in_buffer
          (omega (arith, moves.some_left))
        ∙ omega (arith, moves.in_limit))
  | inr e ↦ rw e (ground arith)
]

vector_upto-Covers :
    (k last position m : ℕ)
    → 0 < k
    → position < last
    → Covers k position
        (vector_upto k last position m).entries
        (position + (vector_upto k last position m).writable_datapoints)
      × ((vector_upto k last position m).writable_datapoints ≡ min (last - position) m)
vector_upto-Covers k last position m h lt =
    let reached =
      entries_from-last (last - position) k last position m h (omega arith) (omega arith) in
    let covers = entries_from-Covers (last - position) k last position m h in
    let on : (position + ((entries_from (last - position) k last position m).1 - position)
        ≡ (entries_from (last - position) k last position m).1) =
      omega (arith, reached) in
    let later : leb last position ≡ false = ground arith in
    rw (later, on) (covers, omega (arith, reached))

pub get_iovector_ready :
    (wb : WriteBuffer) (position m : ℕ) (t : ℤ)
    → (wb.num_datapoints == 0) ≡ false
    → get_iovector wb position m t ≡ (
      sorted_first wb,
      vector_upto
          (sorted_first wb).datapoints_per_alloc
          (upper_bound t (values (sorted_first wb)))
          position
          m,
    )
unfolding get_iovector
get_iovector_ready wb position m t some_in = rw some_in refl

abbrev pub vector_of : WriteBuffer → ℕ → ℕ → ℤ → IoVector
vector_of wb position m t = (get_iovector wb position m t).1

abbrev pub buffer_of : WriteBuffer → ℕ → ℕ → ℤ → WriteBuffer
buffer_of wb position m t = (get_iovector wb position m t).0

-- GetIOVector sorts the buffer if it has to. Where the buffer is not empty, and then has a datapoint
-- at the position or after it that is no later than `max_time`, the vector's entries point, in their
-- order and each within its allocation, to the datapoints from the position on, and there are as many
-- as the first later datapoint and the limit allow.
pub get_iovector-Covers :
    (wb : WriteBuffer) (position max_writable : ℕ) (max_time : ℤ)
    → (wb.num_datapoints == 0) ≡ false
    → 0 < (buffer_of wb position max_writable max_time).datapoints_per_alloc
    → position < upper_bound max_time (values (buffer_of wb position max_writable max_time))
    → Covers
        (buffer_of wb position max_writable max_time).datapoints_per_alloc
        position
        (vector_of wb position max_writable max_time).entries
        (position + (vector_of wb position max_writable max_time).writable_datapoints)
      × ((vector_of wb position max_writable max_time).writable_datapoints
          ≡ min
              (upper_bound max_time (values (buffer_of wb position max_writable max_time))
                - position)
              max_writable)
get_iovector-Covers wb position m t some_in =
    subst
      (λ (x : WriteBuffer × IoVector).
        0 < x.0.datapoints_per_alloc
        → position < upper_bound t (values x.0)
        → Covers x.0.datapoints_per_alloc position x.1.entries (position + x.1.writable_datapoints)
          × (x.1.writable_datapoints ≡ min (upper_bound t (values x.0) - position) m))
      (sym (get_iovector_ready wb position m t some_in))
      (λ h lt. vector_upto-Covers _ _ position m h lt)

pub to_int_small : (n : ℕ) → n < 2 ^ 31 → to_int n ≡ pos n
unfolding to_int
to_int_small n h = ground arith

pub to_size_small : (n : ℕ) → n < 2 ^ 64 → to_size (pos n) ≡ n
unfolding to_size
to_size_small n h = omega arith

at_most_one : (n : ℕ) → n < 2 ^ 31 → to_size (min_ℤ (to_int n) (to_int 1)) ≤ 1
at_most_one n h =
    rw (to_int_small n h, to_int_small 1 (omega arith))
      (elim (Bool-cases (ltb_ℤ (pos 1) (pos n))) [
        | inl e ↦ rw (e, to_size_small 1 (omega arith)) (omega arith)
        | inr e ↦ rw (e, to_size_small n (omega (arith, h))) (ground arith)
      ])

count_iovecs_one :
    (k last position m : ℕ)
    → suc m < 2 ^ 31
    → (last - 1) / k ≡ position / k
    → count_iovecs k last position m ≤ 1
unfolding count_iovecs
count_iovecs_one k last position m small same =
    let one : (last - 1) / k + 1 - position / k ≡ 1 = omega (arith, same) in
    let n : ℕ = m / k + (if m % k == 0 then 0 else 1) in
    rw one (at_most_one n (ground (arith, div-le_self m k)))

first_entry :
    (fuel k last i m : ℕ)
    → 0 < fuel
    → (ltb i last && ltb 0 m) ≡ true
    → (rest : List Entry) × ((entries_from fuel k last i m).0
        ≡ entry_at k i (usable k last i m) ∷ rest)
unfolding entries_from
first_entry zero k last i m h e = absurd (omega arith)
first_entry (suc fuel) k last i m h e = rw e (_, refl)

-- The entries are stored at the places of their allocations, and not from 0 on: where the position
-- and the last datapoint are in one allocation that is not the first, and the limit is positive and
-- below 2 ^ 31 - 1, the first entry is stored behind the end of the vector.
pub vector_upto_overrun :
    (k last position m : ℕ)
    → 0 < k
    → k ≤ position
    → position < last
    → 0 < m
    → suc m < 2 ^ 31
    → (last - 1) / k ≡ position / k
    → (e : Entry) × (rest : List Entry) × ((vector_upto k last position m).entries ≡ e ∷ rest)
      × (vector_upto k last position m).iov_count ≤ e.slot
vector_upto_overrun k last position m h far lt some_m small same =
    let later : leb last position ≡ false = ground arith in
    let first = first_entry (last - position) k last position m (omega arith) (ground arith) in
    rw later (
      _,
      first.0,
      first.1,
      omega (arith, count_iovecs_one k last position m small same, quotient_step k position h far),
    )
