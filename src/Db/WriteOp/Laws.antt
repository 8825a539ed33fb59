-- ===== src/Db/WriteOp/Laws.antt =====
-- WriteOperation::WritableDatapoints counts what may be written.
use vqro.Base.{
  subst, ℕ, suc, ◌+◌, ◌-◌, ◌≤◌, ◌<◌, ℤ, ◌<ℤ◌, ◌≤ℤ◌, List, [], ◌∷◌, ltb_ℤ, ltb, length, drop, take,
  All, ◌≡◌, refl, arith, Bool-cases, inl, inr, ◌⊎◌,
}
use mathlib.Core.Path.{subst₂}
use vqro.Db.Datapoint.{Datapoint}
use vqro.Db.WriteOp.{WriteOperation, count_writable, writable_datapoints, remaining}

-- `n` is how many of the datapoints may be written: as many as stand at the front, begin before the
-- bound, and do not exceed the count; the next one, if any, is refused for one of the two reasons.
pub record IsWritable (max_time : ℤ) (max_count n : ℕ) (ps : List Datapoint) : Type 0 where
  pub within : n ≤ length ps
  pub limited : n ≤ max_count
  pub early : All (λ p. p.timestamp <ℤ max_time) (take n ps)
  pub maximal :
      (n ≡ max_count)
      ⊎ (drop n ps ≡ [])
      ⊎ ((p : Datapoint) × (rest : List Datapoint) × (drop n ps ≡ p ∷ rest)
          × (max_time ≤ℤ p.timestamp))

IsWritable-suc :
    (max_time : ℤ) (max_count n : ℕ) (p : Datapoint) (ps : List Datapoint)
    → 0 < max_count
    → p.timestamp <ℤ max_time
    → IsWritable max_time (max_count - 1) n ps
    → IsWritable max_time max_count (suc n) (p ∷ ps)
IsWritable-suc max_time max_count n p ps pos early w = record {
  within = omega (arith, w.within);
  limited = omega (arith, w.limited);
  early = (early, w.early);
  maximal = elim w.maximal [ inl e ↦ inl (omega arith) | inr m ↦ inr m ];
}

count_writable-IsWritable :
    (max_time : ℤ) (max_count done : ℕ) (ps : List Datapoint)
    → done ≤ max_count
    → (n : ℕ) × (count_writable max_time max_count done ps ≡ done + n)
      × IsWritable max_time (max_count - done) n ps
unfolding count_writable
count_writable-IsWritable max_time max_count done [] h = (
  0,
  omega arith,
  record { within = omega arith; limited = omega arith; early = tt; maximal = inr (inl refl) },
)
count_writable-IsWritable max_time max_count done (p ∷ ps) h =
    let ih = count_writable-IsWritable max_time max_count (done + 1) ps in
    elim (Bool-cases (ltb_ℤ p.timestamp max_time)) [
      | inl early ↦ elim (Bool-cases (ltb done max_count)) [
        | inl more ↦
            let (n, e, w) = ih (ground arith) in
            (
              suc n,
              rw (early, more) (omega (arith, e)),
              IsWritable-suc max_time (max_count - done) n p ps (ground arith) (ground arith)
                  (subst (λ c. IsWritable max_time c n ps) (omega arith) w),
            )
        | inr full ↦ (
          0,
          rw (early, full) (omega arith),
          record {
            within = omega arith;
            limited = omega arith;
            early = tt;
            maximal = inl (ground arith);
          },
        )
      ]
      | inr late ↦ (
        0,
        rw late (omega arith),
        record {
          within = omega arith;
          limited = omega arith;
          early = tt;
          maximal = inr (inr (p, ps, refl, ground arith));
        },
      )
    ]

-- WritableDatapoints is the number of datapoints from the cursor on that begin before
-- max_writable_timestamp, up to max_writable_datapoints: all that it counts do, and the next one does
-- not, or is one too many.
pub writable_datapoints-IsWritable :
    (op : WriteOperation)
    → IsWritable op.max_writable_timestamp op.max_writable_datapoints
        (writable_datapoints op)
        (remaining op)
unfolding writable_datapoints
writable_datapoints-IsWritable op =
    let max_time : ℤ = op.max_writable_timestamp in
    let max_count : ℕ = op.max_writable_datapoints in
    let (n, e, w) = count_writable-IsWritable max_time max_count 0 (remaining op) (omega arith) in
    subst₂ (λ c k. IsWritable max_time c k (remaining op)) (omega arith) (omega (arith, e)) w
