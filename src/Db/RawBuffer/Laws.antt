-- ===== src/Db/RawBuffer/Laws.antt =====
-- RawBuffer: the limits that its vectors keep to.
use vqro.Base.{
  ℕ, zero, suc, ◌+◌, ◌-◌, ◌≤◌, ◌<◌, min, ltb, ◌==◌, ℤ, List, length, get_elem?, Bool, true, false,
  if◌then◌else◌, ◌≡◌, refl, ap, subst, ◌∙◌, arith, Bool-cases, inl, inr,
}
use native.Mathlib.Decide.{dec_lt}
use vqro.Db.Datapoint.{Datapoint}
use vqro.Db.RawBuffer.{is_later, trim, raw_iovector}

-- A number of datapoints from a position on is within the limit, the last of them is not later than
-- `max_time`, and all that are left out of the limit at its end are.
pub record IsTrimmed (points : List Datapoint) (position : ℕ) (max_time : ℤ) (most n : ℕ)
    : Type 0 where
  pub within : n ≤ most
  pub last : (m : ℕ) → n ≡ suc m → is_later max_time (get_elem? points (position + m)) ≡ false
  pub left_out :
      (m : ℕ) → n ≤ m → m < most → is_later max_time (get_elem? points (position + m)) ≡ true

trim-IsTrimmed :
    (points : List Datapoint) (position : ℕ) (max_time : ℤ) (most : ℕ)
    → IsTrimmed points position max_time most (trim points position max_time most)
unfolding trim
trim-IsTrimmed points position t zero = record {
  within = omega arith;
  last = λ m e. absurd (omega (arith, e));
  left_out = λ m h k. absurd (omega (arith, h, k));
}
trim-IsTrimmed points position t (suc n) =
    let later_at : ℕ → Bool = λ m. is_later t (get_elem? points (position + m)) in
    elim (Bool-cases (is_later t (get_elem? points (position + n)))) [
      | inl e ↦
          let r = trim-IsTrimmed points position t n in
          rw e (record {
            within = omega (arith, r.within);
            last = r.last;
            left_out = λ m h k. elim (dec_lt m n) [
              | yes lt ↦ r.left_out m h lt
              | no ge ↦ ap later_at {y = n} (omega (arith, h, k)) ∙ e
            ];
          })
      | inr e ↦ rw e (record {
        within = omega arith;
        last = λ m same. ap later_at {y = n} (omega (arith, same)) ∙ e;
        left_out = λ m h k. absurd (omega (arith, h, k));
      })
    ]

-- GetIOVector of a raw buffer gives datapoints from the position on, no more than the limit and the
-- array allow: the last one is not later than `max_time`, and those that it leaves out below these
-- limits are. The length that it stores in `iov_len` is their number, and not their bytes.
pub raw_iovector-IsTrimmed :
    (points : List Datapoint) (position max_writable : ℕ) (max_time : ℤ)
    → IsTrimmed points position max_time
        (min (length points - position) max_writable)
        (raw_iovector points position max_writable max_time).writable_datapoints
      × ((raw_iovector points position max_writable max_time).iov_len
          ≡ (raw_iovector points position max_writable max_time).writable_datapoints)
unfolding raw_iovector
raw_iovector-IsTrimmed points position max_writable t =
    let left : ℕ = if ltb position (length points) then length points - position else 0 in
    let room : left ≡ length points - position = ground arith in
    let n : ℕ = trim points position t (min left max_writable) in
    let trimmed =
      subst (λ k. IsTrimmed points position t (min k max_writable) n) room
        (trim-IsTrimmed points position t (min left max_writable)) in
    elim (Bool-cases (n == 0)) [
      | inl e ↦
          let none_left : n ≡ 0 = ground (arith, e) in
          rw e (
            subst (IsTrimmed points position t (min (length points - position) max_writable))
                none_left trimmed,
            refl,
          )
      | inr e ↦ rw e (trimmed, refl)
    ]
