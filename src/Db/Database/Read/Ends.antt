-- ===== src/Db/Database/Read/Ends.antt =====
-- Database::Read: the loop ends.
use vqro.Base.{
  ℕ, zero, suc, ◌≤◌, ◌<◌, ℤ, pos, ◌≤ℤ◌, ◌<ℤ◌, ◌+ℤ◌, +ℤ_parts, List, [], ◌∷◌, ◌++◌, Bool, true,
  false, ◌==◌, Outcome, Ends, Halts, returned, thrown, running, Bool-cases, inl, inr, ◌≡◌, refl,
  sym, ap, ◌∙◌, arith, All, length,
}
use vqro.Db.Datapoint.{Datapoint}
use vqro.Db.ReadOp.{
  ReadOperation, read_operation, datapoints_in_buffer, clear_buffer, complete, time_after,
}
use vqro.Db.ReadOp.Chain.{Chain, Reading}
use vqro.Db.Database.Read.{read_loop, read_database, after_task}

-- The duration is not negative.
abbrev pub IsForward : Datapoint → Type 0
IsForward p = pos 0 ≤ℤ p.duration

time_after_forward : (p : Datapoint) → IsForward p → p.timestamp <ℤ time_after p
time_after_forward p h =
    ground (arith, +ℤ_parts p.timestamp (pos 1), +ℤ_parts p.timestamp p.duration)

Chain-le :
    (lo end : ℤ) (ps : List Datapoint) (hi : ℤ) → All IsForward ps → Chain lo end ps hi → lo ≤ℤ hi
Chain-le lo end [] hi f c = c
Chain-le lo end (p ∷ ps) hi f c =
    omega (arith, time_after_forward p f.0, Chain-le (time_after p) end ps hi f.1 c.2, c.0)

Chain-lt :
    (lo end : ℤ) (ps : List Datapoint) (hi : ℤ)
    → (length ps == 0) ≡ false
    → All IsForward ps
    → Chain lo end ps hi
    → lo <ℤ hi
Chain-lt lo end [] hi e f c = cc
Chain-lt lo end (p ∷ ps) hi e f c =
    omega (arith, time_after_forward p f.0, Chain-le (time_after p) end ps hi f.1 c.2, c.0)

-- At most `n` ticks are left of the range.
abbrev pub Left : ℕ → ReadOperation → Type 0
Left n op = op.end_time ≤ℤ op.next_time +ℤ pos n

Left-mono : (m n : ℕ) (op : ReadOperation) → m ≤ n → Left m op → Left n op
Left-mono m n op h l = omega (arith, +ℤ_parts op.next_time (pos m), +ℤ_parts op.next_time (pos n))

Left-complete : (op : ReadOperation) → complete op ≡ true → Left 0 op
Left-complete op h = ground (arith, +ℤ_parts op.next_time (pos 0))

Left-pos : (n : ℕ) (op : ReadOperation) → complete op ≡ false → Left n op → 0 < n
Left-pos n op h l = ground (arith, +ℤ_parts op.next_time (pos n))

module _ (op after : ReadOperation) (r : Reading op after) (empty : op.buffer ≡ []) where
  points-buffer : r.points ≡ after.buffer
  points-buffer = sym (r.appended ∙ ap (λ (l : List Datapoint). l ++ r.points) empty)

  Left-next :
      (n : ℕ)
      → complete op ≡ false
      → (datapoints_in_buffer after == 0) ≡ false
      → All IsForward after.buffer
      → Left (suc n) op
      → Left n (clear_buffer after)
  unfolding clear_buffer
  Left-next n going some_read forward l = elim r.onward [
    | inl chain ↦
        let up =
          Chain-lt op.next_time op.end_time r.points after.next_time (rw points-buffer some_read)
            (rw points-buffer forward) chain in
        rw r.same_end (
          omega
            (arith, l, up, +ℤ_parts op.next_time (pos (suc n)), +ℤ_parts after.next_time (pos n)))
    | inr done ↦
        Left-mono 0 n (record after { buffer = [] }) (omega arith)
          (Left-complete (record after { buffer = [] }) done)
  ]

module _ {S : Type 0} (read_series : S → ReadOperation → Outcome (S × ReadOperation))
    (busy : ℕ → Bool) (Fine : S → Type 0)
    (reading : (s : S) (op : ReadOperation) → Ends (λ r. Reading op r.1) (read_series s op))
    (halts : (s : S) (op : ReadOperation) → Fine s → op.buffer ≡ [] → Halts (read_series s op))
    (keeps : (s : S) (op : ReadOperation)
      → Fine s
      → op.buffer ≡ []
      → Ends (λ r. Fine r.0) (read_series s op))
    (forward : (s : S) (op : ReadOperation)
      → Fine s
      → op.buffer ≡ []
      → Ends (λ r. All IsForward r.1.buffer) (read_series s op)) where
  after_task-Halts :
      (rounds k n : ℕ) (op : ReadOperation) (out : List (List Datapoint))
      (o : Outcome (S × ReadOperation))
      → op.buffer ≡ []
      → complete op ≡ false
      → Left (suc n) op
      → Ends (λ r. Reading op r.1) o
      → Halts o
      → Ends (λ r. Fine r.0) o
      → Ends (λ r. All IsForward r.1.buffer) o
      → ((s : S) (next : ReadOperation) (out : List (List Datapoint))
          → Fine s
          → next.buffer ≡ []
          → Left n next
          → Halts (read_loop read_series busy rounds k s next out))
      → Halts (after_task read_series busy (read_loop read_series busy rounds k) out o)
  after_task-Halts rounds k n op out (returned (s, after)) empty going l r h fine f ih =
      elim (Bool-cases (datapoints_in_buffer after == 0)) [
        | inl e ↦ rw e tt
        | inr e ↦ rw e (
            ih s (clear_buffer after) _ fine (unfold clear_buffer in refl)
              (Left-next op after r empty n going e f l))
      ]
  after_task-Halts rounds k n op out (thrown (s, after)) empty going l r h fine f ih =
      elim (Bool-cases (datapoints_in_buffer after == 0)) [
        | inl e ↦ rw e tt
        | inr e ↦ rw e (
            ih s (clear_buffer after) _ fine (unfold clear_buffer in refl)
              (Left-next op after r empty n going e f l))
      ]
  after_task-Halts rounds k n op out running empty going l r h fine f ih = h

  read_loop-Halts :
      (rounds k n : ℕ) (s : S) (op : ReadOperation) (out : List (List Datapoint))
      → Fine s
      → op.buffer ≡ []
      → Left n op
      → n < rounds
      → Halts (read_loop read_series busy rounds k s op out)
  unfolding read_loop
  read_loop-Halts zero k n s op out fine empty l fuel = elim fuel [ ]
  read_loop-Halts (suc rounds) k zero s op out fine empty l fuel = elim (Bool-cases (complete op)) [
    | inl e ↦ rw e tt
    | inr e ↦ absurd (omega (arith, Left-pos 0 op e l))
  ]
  read_loop-Halts (suc rounds) k (suc n) s op out fine empty l fuel =
      elim (Bool-cases (complete op)) [
        | inl e ↦ rw e tt
        | inr e ↦ rw e (elim (Bool-cases (busy k)) [
          | inl b ↦ rw b tt
          | inr b ↦ rw b (
              after_task-Halts rounds (suc k) n op out (read_series s op) empty e l (reading s op)
                (halts s op fine empty) (keeps s op fine empty) (forward s op fine empty)
                (λ s' next out' fine' z l'.
                  read_loop-Halts rounds (suc k) n s' next out' fine' z l' (omega arith)))
        ])
      ]

  -- Where every read of a series that is fine ends, leaves it fine and adds datapoints of what is left of the range, none
  -- overlapping the one before, and none that it reads into an empty buffer has a negative
  -- duration, the loop ends in the rounds given if they are more than the ticks from `start` to
  -- `end`.
  pub read_database-Halts :
      (rounds n : ℕ) (s : S) (start end limit : ℤ) (latest : Bool) (size : ℕ)
      → Fine s
      → end ≤ℤ start +ℤ pos n
      → n < rounds
      → Halts (read_database read_series busy rounds s start end limit latest size)
  unfolding read_database
  read_database-Halts rounds n s start end limit latest size fine l fuel =
      read_loop-Halts rounds 0 n s (read_operation start end limit latest size) [] fine
        (unfold read_operation in refl) (unfold read_operation in l) fuel
