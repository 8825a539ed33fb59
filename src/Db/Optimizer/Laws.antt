-- ===== src/Db/Optimizer/Laws.antt =====
-- What the tests of the storage optimizer tell of the datapoints.
use native.Mathlib.Nat.{div-add-mod'}
use vqro.Base.{
  ℕ, ◌+◌, ◌-◌, ◌*◌, ◌/◌, ◌≤◌, ltb, ℤ, pos, negsuc, pos_part, neg_part, ◌≤ℤ◌, ◌-ℤ◌, ◌+ℤ◌, ◌/ℤ◌, ◌%ℤ◌,
  ltb_ℤ, eqb_ℤ, +ℤ_parts, eq_of_parts, eqb_ℤ→eq, List, [], ◌∷◌, length, All, Bool, true, false, ◌≡◌,
  ◌↔◌, refl, sym, ap, ◌∙◌, arith, Bool-cases, inl, inr,
}
use vqro.Db.Datapoint.{Datapoint}
use vqro.Db.Order.{SortedFrom, IsSorted}
use vqro.Db.Optimizer.{
  almost_equals, dense_from, is_dense, constant_from, is_constant, choose_format, constant, Limits,
  step_of,
}

-- Each datapoint lasts `dur` ticks, and comes as many steps of `dur` ticks after the one before as
-- `padding` allows, or fewer.
abbrev pub OnGrid : ℕ → ℕ → ℤ → List Datapoint → Type 0
OnGrid padding dur last [] = Unit
OnGrid padding dur last (p ∷ ps) =
    (p.duration ≡ pos dur)
    × ((n : ℕ) × (n ≤ padding) × (p.timestamp ≡ last +ℤ pos (n * dur)))
    × OnGrid padding dur p.timestamp ps

step_on_grid :
    (padding dur : ℕ) (last t : ℤ)
    → last ≤ℤ t
    → ltb_ℤ (pos padding) ((t -ℤ last) /ℤ pos dur) ≡ false
    → eqb_ℤ ((t -ℤ last) %ℤ pos dur) (pos 0) ≡ true
    → (n : ℕ) × (n ≤ padding) × (t ≡ last +ℤ pos (n * dur))
unfolding ◌-ℤ◌ ◌/ℤ◌ ◌%ℤ◌
step_on_grid padding dur last t le short even =
    let k : ℕ = pos_part t + neg_part last - (neg_part t + pos_part last) in
    let whole = div-add-mod' k dur in
    let sum = +ℤ_parts last (pos (k / dur * dur)) in
    (
      k / dur,
      ground arith,
      eq_of_parts t (last +ℤ pos (k / dur * dur)) (ground (arith, whole, sum)),
    )

dense_from-OnGrid :
    (padding dur : ℕ) (last : ℤ) (ps : List Datapoint)
    → SortedFrom last ps
    → dense_from padding (pos dur) last ps ≡ true
    → OnGrid padding dur last ps
unfolding dense_from
dense_from-OnGrid padding dur last [] s h = tt
dense_from-OnGrid padding dur last (p ∷ ps) s h =
    let delta : ℤ = p.timestamp -ℤ last in
    elim (Bool-cases (eqb_ℤ p.duration (pos dur))) [
      | inr e ↦ absurd (ground (arith, e))
      | inl same ↦ elim (Bool-cases (ltb_ℤ (pos padding) (delta /ℤ pos dur))) [
        | inl e ↦ absurd (ground (arith, e))
        | inr short ↦ elim (Bool-cases (eqb_ℤ (delta %ℤ pos dur) (pos 0))) [
          | inr e ↦ absurd (ground (arith, e))
          | inl even ↦ (
            eqb_ℤ→eq p.duration (pos dur) same,
            step_on_grid padding dur last p.timestamp s.0 short even,
            dense_from-OnGrid padding dur p.timestamp ps s.1 (rw (same, short, even) at h),
          )
        ]
      ]
    ]

almost_equals_sym :
    (near : ℕ → ℕ → Bool) (a b : ℕ)
    → near a b ≡ near b a
    → almost_equals near a b ≡ almost_equals near b a
unfolding almost_equals
almost_equals_sym near a b h = ground arith

constant_from-All :
    (near : ℕ → ℕ → Bool) (value : ℕ) (ps : List Datapoint)
    → (constant_from near value ps ≡ true) ↔ All (λ p. almost_equals near p.value value ≡ true) ps
unfolding constant_from
constant_from-All near value [] = (λ h. tt, λ a. refl)
constant_from-All near value (p ∷ ps) =
    let rest = constant_from-All near value ps in
    elim (Bool-cases (almost_equals near p.value value)) [
      | inl e ↦ rw e (λ h. (refl, rest.0 h), λ a. rest.1 a.1)
      | inr e ↦ rw e (λ h. cc, λ a. a.0)
    ]

nonneg_pos : (z : ℤ) → pos 0 ≤ℤ z → z ≡ pos (pos_part z)
nonneg_pos (pos n) h = refl
nonneg_pos (negsuc n) h = absurd (omega arith)

step_pos : (p : Datapoint) → pos 0 ≤ℤ p.duration → step_of p ≡ pos (pos_part (step_of p))
step_pos p h = nonneg_pos (step_of p) (ground arith)

-- Where datapoints are in order, the first has no negative duration, and IsDense accepts them, they
-- are as many as it asks for; all have one duration, that of the first; and each comes a whole number
-- of durations after the one before, with a gap of no more durations than can be padded.
is_dense-OnGrid :
    (min_datapoints padding : ℕ) (p : Datapoint) (ps : List Datapoint)
    → IsSorted (p ∷ ps)
    → pos 0 ≤ℤ p.duration
    → is_dense min_datapoints padding (p ∷ ps) ≡ true
    → (min_datapoints ≤ length (p ∷ ps))
      × OnGrid padding (pos_part (step_of p)) p.timestamp (p ∷ ps)
unfolding is_dense
is_dense-OnGrid min_datapoints padding p ps s h e =
    elim (Bool-cases (ltb (length (p ∷ ps)) min_datapoints)) [
      | inl few ↦ absurd (ground (arith, few))
      | inr many ↦ (
        ground arith,
        dense_from-OnGrid padding (pos_part (step_of p)) p.timestamp (p ∷ ps) (omega arith, s)
            (ap (λ d. dense_from padding d p.timestamp (p ∷ ps)) (sym (step_pos p h))
              ∙ rw many at e),
      )
    ]

is_constant-All :
    (near : ℕ → ℕ → Bool) (min_datapoints : ℕ) (p : Datapoint) (ps : List Datapoint)
    → is_constant near min_datapoints (p ∷ ps) ≡ true
    → (min_datapoints ≤ length (p ∷ ps))
      × All (λ q. almost_equals near q.value p.value ≡ true) (p ∷ ps)
unfolding is_constant
is_constant-All near min_datapoints p ps e =
    elim (Bool-cases (ltb (length (p ∷ ps)) min_datapoints)) [
      | inl few ↦ absurd (ground (arith, few))
      | inr many ↦ (ground arith, (constant_from-All near p.value (p ∷ ps)).0 (rw many at e))
    ]

both_tests :
    (near : ℕ → ℕ → Bool) (l : Limits) (ps : List Datapoint)
    → choose_format near l ps ≡ constant
    → (is_dense l.min_datapoints_for_dense l.max_dense_nan_padding ps ≡ true)
      × (is_constant near l.min_datapoints_for_constant ps ≡ true)
unfolding choose_format
both_tests near l ps e = grind arith

-- Where datapoints are in order, the first has no negative duration, and the optimizer would convert
-- them to a constant file, they lie on the grid of that duration, and the value of each is almost
-- equal to the value of the first.
pub choose_format_constant :
    (near : ℕ → ℕ → Bool) (l : Limits) (p : Datapoint) (ps : List Datapoint)
    → IsSorted (p ∷ ps)
    → pos 0 ≤ℤ p.duration
    → choose_format near l (p ∷ ps) ≡ constant
    → OnGrid l.max_dense_nan_padding (pos_part (step_of p)) p.timestamp (p ∷ ps)
      × All (λ q. almost_equals near q.value p.value ≡ true) (p ∷ ps)
      × (l.min_datapoints_for_constant ≤ length (p ∷ ps))
choose_format_constant near l p ps s h e =
    let (is_even, is_flat) = both_tests near l (p ∷ ps) e in
    let flat = is_constant-All near l.min_datapoints_for_constant p ps is_flat in
    (
      (is_dense-OnGrid l.min_datapoints_for_dense l.max_dense_nan_padding p ps s h is_even).1,
      flat.1,
      flat.0,
    )
