-- ===== src/Db/DenseFile/Laws.antt =====
-- DenseFile::Read: the times that it gives to values.
use vqro.Base.{
  leb, ◌⊎◌, none, true, suc, ltb, length, length-append, ◌+◌, ◌≤◌, ◌^◌, ◌/ℤ◌, ◌-ℤ◌, ◌≤ℤ◌, min_ℤ,
  ltb_ℤ, pos_part, negsuc, some, take, drop, ℕ, ◌<◌, ℤ, pos, ◌+ℤ◌, eqb_ℤ, List, [], ◌∷◌, ◌++◌,
  append_assoc, append-nil, false, if◌then◌else◌, Bool-cases, inl, inr, ◌≡◌, refl, sym, ap, ◌∙◌,
  arith, returned,
}
use vqro.Db.Datapoint.{Datapoint, isnan}
use vqro.Db.ReadOp.{ReadOperation, append, time_after, datapoints_in_buffer}
use vqro.Db.ConstantFile.Laws.{quotient_pos, same_buffer}
use vqro.Db.FileName.{DenseFile}
use vqro.Db.ConstantFile.{align}
use vqro.Db.WriteBuffer.Vector.Laws.{to_int_small}
use vqro.Db.DenseFile.{as_int, read_at, dense_loop, dense_read, all_stored}

-- The values that are not NAN.
abbrev pub numbers : List ℕ → List ℕ
numbers [] = []
numbers (v ∷ vs) = if isnan v then numbers vs else v ∷ numbers vs

-- The values one duration after the other, without gaps.
abbrev pub consecutive : ℕ → ℤ → List ℕ → List Datapoint
consecutive dur t [] = []
consecutive dur t (v ∷ vs) =
    record { timestamp = t; value = v; duration = pos dur } ∷ consecutive dur (t +ℤ pos dur) vs

-- The values that are not NAN fit into the client's buffer.
abbrev pub HasRoom : List ℕ → ReadOperation → Type 0
HasRoom vs op = datapoints_in_buffer op + length (numbers vs) ≤ op.buffer_size

-- Where the duration is positive and there is room for them, the loop of Read adds the values that are
-- not NAN one duration after the other from `next_time` on: a gap in the file moves all later values to
-- earlier times.
dense_loop-consecutive :
    (dur : ℕ) (vs : List ℕ) (op : ReadOperation)
    → 0 < dur
    → HasRoom vs op
    → (after : ReadOperation) × (dense_loop (pos dur) vs op ≡ some after)
      × (after.buffer ≡ op.buffer ++ consecutive dur op.next_time (numbers vs))
unfolding dense_loop
dense_loop-consecutive dur [] op h room = (op, refl, sym (append-nil op.buffer))
dense_loop-consecutive dur (v ∷ vs) op h room = elim (Bool-cases (isnan v)) [
  | inl e ↦ rw e (dense_loop-consecutive dur vs op h (rw e at room))
  | inr e ↦
      let p : Datapoint = record { timestamp = op.next_time; value = v; duration = pos dur } in
      let step : (if eqb_ℤ (pos dur) (pos 0) then pos 1 else pos dur) ≡ pos dur = ground arith in
      let later : List ℕ = numbers vs in
      let left : datapoints_in_buffer op + suc (length later) ≤ op.buffer_size = rw e at room in
      let fits : ltb (datapoints_in_buffer op) op.buffer_size ≡ true = ground (arith, left) in
      let (after, same, all) =
        dense_loop-consecutive dur vs (append op p) h
          (omega (arith, left, length-append op.buffer (p ∷ []))) in
      rw (e, fits)
        (
          after,
          same,
          all
              ∙ append_assoc op.buffer (p ∷ []) (consecutive dur (time_after p) later)
              ∙ ap (λ (d : ℤ). op.buffer ++ p ∷ consecutive dur (op.next_time +ℤ d) later) step,
        )
]

-- Where there is not, a datapoint is stored behind the end of the buffer.
pub dense_loop-overrun :
    (duration : ℤ) (vs : List ℕ) (op : ReadOperation)
    → op.buffer_size < datapoints_in_buffer op + length (numbers vs)
    → datapoints_in_buffer op ≤ op.buffer_size
    → dense_loop duration vs op ≡ none
unfolding dense_loop
dense_loop-overrun duration [] op more fits = absurd (omega (arith, more, fits))
dense_loop-overrun duration (v ∷ vs) op more fits = elim (Bool-cases (isnan v)) [
  | inl e ↦ rw e (dense_loop-overrun duration vs op (rw e at more) fits)
  | inr e ↦
      let p : Datapoint = record { timestamp = op.next_time; value = v; duration = duration } in
      let left : op.buffer_size < datapoints_in_buffer op + suc (length (numbers vs)) =
        rw e at more in
      rw e (elim (Bool-cases (ltb (datapoints_in_buffer op) op.buffer_size)) [
        | inl k ↦ rw k (
            dense_loop-overrun duration vs (append op p)
              (omega (arith, left, length-append op.buffer (p ∷ [])))
              (ground (arith, k, length-append op.buffer (p ∷ []))))
        | inr k ↦ rw k refl
      ])
]

as_int_small : (n : ℕ) → n < 2 ^ 31 → as_int (pos n) ≡ pos n
as_int_small n h = to_int_small n h

read_at_small :
    (dur : ℤ) (offset count : ℤ) (values : List ℕ) (op : ReadOperation)
    → offset ≡ pos (pos_part offset)
    → count ≡ pos (pos_part count)
    → pos_part count < 2 ^ 31
    → read_at dur offset count values op
      ≡ all_stored (dense_loop dur (take (pos_part count) (drop (pos_part offset) values)) op)
read_at_small dur (negsuc k) count values op h e small = grind arith
read_at_small dur (pos k) (negsuc n) values op h e small = grind arith
read_at_small dur (pos k) (pos n) values op h e small = rw (as_int_small n small) refl

-- The number of values from the aligned `next_time` up to the end of the file or of the read.
abbrev pub wanted_values : DenseFile → ReadOperation → ℕ → ℕ
wanted_values f op dur = pos_part ((min_ℤ f.max_timestamp op.end_time -ℤ op.next_time) /ℤ pos dur)

-- The place in the file of the value for `next_time`.
abbrev pub place : DenseFile → ReadOperation → ℕ → ℕ
place f op dur = pos_part ((op.next_time -ℤ f.min_timestamp) /ℤ pos dur)

-- The values of the file that the read wants.
abbrev pub wanted_part : DenseFile → List ℕ → ReadOperation → ℕ → List ℕ
wanted_part f values op dur = take (wanted_values f op dur) (drop (place f op dur) values)

-- Where the duration is positive, the aligned `next_time` is neither before the file's first time nor
-- past its last one or the end of the read, and fewer than 2 ^ 31 values are wanted: if the client's
-- buffer has room for the wanted values that are not NAN, Read returns and has put them behind what
-- the buffer had, one duration after the other from the aligned time on, whatever gaps lie between
-- them in the file. If it has no room for them, Read stores a datapoint behind the end of the buffer.
pub dense_read-consecutive :
    (f : DenseFile) (values : List ℕ) (op : ReadOperation) (dur : ℕ)
    → 0 < dur
    → f.duration ≡ pos dur
    → f.min_timestamp ≤ℤ (align f.duration op).next_time
    → (align f.duration op).next_time ≤ℤ f.max_timestamp
    → (align f.duration op).next_time ≤ℤ (align f.duration op).end_time
    → wanted_values f (align f.duration op) dur < 2 ^ 31
    → datapoints_in_buffer op ≤ op.buffer_size
    → let part : List ℕ = wanted_part f values (align f.duration op) dur in
      (HasRoom part op
        × (after : ReadOperation) × (dense_read f (some values) op ≡ some (returned after))
        × (after.buffer
            ≡ op.buffer ++ consecutive dur (align f.duration op).next_time (numbers part)))
      ⊎ (¬ HasRoom part op × (dense_read f (some values) op ≡ none))
unfolding dense_read
dense_read-consecutive f values op dur h same lo hi end small fits =
    let a : ReadOperation = align f.duration op in
    let open_up : ltb_ℤ f.max_timestamp a.next_time ≡ false = ground arith in
    let part : List ℕ = wanted_part f values a dur in
    let low : a.next_time ≤ℤ min_ℤ f.max_timestamp a.end_time = ground arith in
    let filled : ℕ = datapoints_in_buffer op in
    let same_filled : datapoints_in_buffer a ≡ filled = ap length (same_buffer f.duration op) in
    let same_size : a.buffer_size ≡ op.buffer_size = unfold align in ground arith in
    let loop =
      ap
        (λ d.
          read_at d ((a.next_time -ℤ f.min_timestamp) /ℤ d)
            ((min_ℤ f.max_timestamp a.end_time -ℤ a.next_time) /ℤ d) values a)
        same
      ∙ read_at_small (pos dur) _ _ values a (quotient_pos a.next_time f.min_timestamp dur lo)
          (quotient_pos (min_ℤ f.max_timestamp a.end_time) a.next_time dur low) small in
    elim (Bool-cases (leb (filled + length (numbers part)) op.buffer_size)) [
      | inl k ↦
          let room : HasRoom part op = ground (arith, k) in
          let (after, ends, all) =
            dense_loop-consecutive dur part a h (omega (arith, room, same_filled, same_size)) in
          inl (
            room,
            after,
            rw open_up (loop ∙ ap all_stored ends),
            all
                ∙ ap (λ (l : List Datapoint). l ++ consecutive dur a.next_time (numbers part))
                    (same_buffer f.duration op),
          )
      | inr k ↦
          let full : op.buffer_size < filled + length (numbers part) = ground (arith, k) in
          inr (
            λ room. omega (arith, room, full),
            rw open_up (
                loop
                ∙ ap all_stored (
                    dense_loop-overrun (pos dur) part a
                      (omega (arith, full, same_filled, same_size))
                      (omega (arith, fits, same_filled, same_size)))),
          )
    ]
