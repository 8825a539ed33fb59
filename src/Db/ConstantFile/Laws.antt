-- ===== src/Db/ConstantFile/Laws.antt =====
-- ConstantFile::Read and Write.
use vqro.Base.{
  ℕ, zero, suc, ◌+◌, ◌-◌, ◌*◌, ◌≤◌, ◌<◌, ℤ, pos, negsuc, pos_part, neg_part, ◌-ℤ◌, ◌/ℤ◌, ◌≤ℤ◌,
  +ℤ_parts, min_ℤ, [], ◌∷◌, returned, ◌≡◌, refl, ap, ◌∙◌, arith, length, length-append,
}
use native.Mathlib.Nat.{div-mul-le_self}
use vqro.Db.Datapoint.{Datapoint}
use vqro.Db.ReadOp.{ReadOperation, append}
use vqro.Db.ReadOp.Chain.{Extends, Extends-refl, Extends-trans, append-Extends}
use vqro.Db.FileName.{ConstantFile}
use vqro.Db.ConstantFile.{align, repeat, repeat_from, constant_points, read_aligned, constant_read}

length-repeat :
    (n : ℕ) (duration : ℤ) (value : ℕ) (op : ReadOperation)
    → length (repeat n duration value op).buffer ≡ length op.buffer + n
unfolding repeat
length-repeat zero duration value op = omega arith
length-repeat (suc n) duration value op =
    let p : Datapoint = record { timestamp = op.next_time; value = value; duration = duration } in
    omega (arith, length-repeat n duration value (append op p), length-append op.buffer (p ∷ []))

-- The first `n` steps of `dur` ticks from `lo` do not go past `end`.
abbrev pub Fit : ℕ → ℕ → ℤ → ℤ → Type 0
Fit n dur lo end = pos_part lo + neg_part end + n * dur ≤ pos_part end + neg_part lo

repeat-Extends :
    (n dur value : ℕ) (op : ReadOperation)
    → 0 < dur
    → Fit n dur op.next_time op.end_time
    → Extends op (repeat n (pos dur) value op)
unfolding repeat
repeat-Extends zero dur value op pos_dur fit = Extends-refl op
repeat-Extends (suc n) dur value op pos_dur fit =
    let p : Datapoint = record { timestamp = op.next_time; value = value; duration = pos dur } in
    Extends-trans (append-Extends op p (omega arith) (omega arith)) (
      repeat-Extends n dur value (append op p) pos_dur
        (grind (arith, +ℤ_parts op.next_time (pos dur))))

pub same_buffer : (duration : ℤ) (op : ReadOperation) → (align duration op).buffer ≡ op.buffer
unfolding align
same_buffer duration op = ground arith

-- The quotient leaves room for its multiple of the divisor.
quotient-Fit :
    (a lo end : ℤ) (dur : ℕ)
    → 0 < dur
    → lo ≤ℤ a
    → a ≤ℤ end
    → Fit (pos_part ((a -ℤ lo) /ℤ pos dur)) dur lo end
unfolding ◌-ℤ◌ ◌/ℤ◌
quotient-Fit a lo end dur pos_dur h k =
    ground (arith, div-mul-le_self (pos_part a + neg_part lo - (neg_part a + pos_part lo)) dur)

pub quotient_pos :
    (a lo : ℤ) (dur : ℕ) → lo ≤ℤ a → (a -ℤ lo) /ℤ pos dur ≡ pos (pos_part ((a -ℤ lo) /ℤ pos dur))
unfolding ◌-ℤ◌ ◌/ℤ◌
quotient_pos a lo dur h = ground arith

abbrev last_read : ConstantFile → ReadOperation → ℤ
last_read f op = min_ℤ f.max_timestamp op.end_time

repeat_from_eq :
    (n : ℤ) (duration : ℤ) (value : ℕ) (op : ReadOperation)
    → n ≡ pos (pos_part n)
    → repeat_from n duration value op ≡ returned (repeat (pos_part n) duration value op)
repeat_from_eq (pos n) duration value op h = refl
repeat_from_eq (negsuc n) duration value op h = grind arith

points_pos :
    (f : ConstantFile) (op : ReadOperation) (dur : ℕ)
    → f.duration ≡ pos dur
    → op.next_time ≤ℤ last_read f op
    → constant_points f op ≡ pos (pos_part (constant_points f op))
points_pos f op dur same h = rw same (quotient_pos (last_read f op) op.next_time dur h)

read_aligned-Extends :
    (f : ConstantFile) (op : ReadOperation) (dur : ℕ)
    → 0 < dur
    → f.duration ≡ pos dur
    → op.next_time ≤ℤ f.max_timestamp
    → op.next_time ≤ℤ op.end_time
    → (read_aligned f op
        ≡ returned (repeat (pos_part (constant_points f op)) f.duration f.value op))
      × Extends op (repeat (pos_part (constant_points f op)) f.duration f.value op)
read_aligned-Extends f op dur pos_dur same h k =
    let low : op.next_time ≤ℤ last_read f op = ground arith in
    let fit =
      quotient-Fit (last_read f op) op.next_time op.end_time dur pos_dur low (ground arith) in
    let n : ℕ = pos_part ((last_read f op -ℤ op.next_time) /ℤ pos dur) in
    (
      ground (
        arith,
        repeat_from_eq (constant_points f op) f.duration f.value op (points_pos f op dur same low),
      ),
      rw same (repeat-Extends n dur f.value op pos_dur fit),
    )

-- Where the file's duration is positive, and the aligned `next_time` is past neither the file's last
-- timestamp nor the operation's end, Read returns. It has then put as many datapoints as the quotient
-- says behind those of the buffer, they form a chain from the aligned time on, and the buffer's size
-- has no part in how many they are.
pub constant_read-Extends :
    (f : ConstantFile) (op : ReadOperation) (dur : ℕ)
    → 0 < dur
    → f.duration ≡ pos dur
    → (align f.duration op).next_time ≤ℤ f.max_timestamp
    → (align f.duration op).next_time ≤ℤ (align f.duration op).end_time
    → (after : ReadOperation) × (constant_read f op ≡ returned after)
      × Extends (align f.duration op) after
      × (length after.buffer
          ≡ length op.buffer + pos_part (constant_points f (align f.duration op)))
unfolding constant_read
constant_read-Extends f op dur pos_dur same h k =
    let aligned : ReadOperation = align f.duration op in
    let n : ℕ = pos_part (constant_points f aligned) in
    let x = read_aligned-Extends f aligned dur pos_dur same h k in
    (
      repeat n f.duration f.value aligned,
      x.0,
      x.1,
      length-repeat n f.duration f.value aligned
          ∙ ap (λ b. length b + pos_part (constant_points f (align f.duration op)))
              (same_buffer f.duration op),
    )
