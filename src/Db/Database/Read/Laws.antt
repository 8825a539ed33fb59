-- ===== src/Db/Database/Read/Laws.antt =====
-- Database::Read: what the client is sent, and that the loop ends.
use vqro.Base.{
  flatten, ℕ, zero, suc, ℤ, List, [], ◌∷◌, ◌++◌, Bool, true, ◌==◌, Outcome, Ends, Ends-map,
  returned, thrown, running, Bool-cases, inl, inr, ◌≡◌, refl, sym, ap, ◌∙◌, append-nil,
  append_assoc,
}
use vqro.Db.Datapoint.{Datapoint}
use vqro.Db.ReadOp.{ReadOperation, read_operation, datapoints_in_buffer, clear_buffer, complete}
use vqro.Db.ReadOp.Chain.{Spread, Reading, Spread-append}
use vqro.Db.Database.Read.{Run, read_loop, read_database, hand_over, after_task}

module _ {S : Type 0} (read_series : S → ReadOperation → Outcome (S × ReadOperation))
    (busy : ℕ → Bool)
    (reading : (s : S) (op : ReadOperation) → Ends (λ r. Reading op r.1) (read_series s op)) where
  -- What the loop adds to the buffers handed over so far is spread over what was left of the range.
  abbrev Sent : ReadOperation → List (List Datapoint) → Run read_series busy → Type 0
  Sent op out run =
      (more : List (List Datapoint)) × (run.2 ≡ out ++ more)
      × Spread op.next_time op.end_time (flatten more)

  nothing :
      (op : ReadOperation) (out : List (List Datapoint)) (s : S) (op' : ReadOperation)
      → Sent op out (s, op', out)
  nothing op out s op' = ([], sym (append-nil out), tt)

  read_loop-complete :
      (rounds k : ℕ) (s : S) (op : ReadOperation) (out : List (List Datapoint))
      → complete op ≡ true
      → Ends (λ run. run.2 ≡ out) (read_loop read_series busy rounds k s op out)
  unfolding read_loop
  read_loop-complete zero k s op out h = tt
  read_loop-complete (suc rounds) k s op out h = rw h refl

  Sent-next :
      (rounds k : ℕ) (s : S) (op after : ReadOperation) (out : List (List Datapoint))
      → op.buffer ≡ []
      → Reading op after
      → Ends
          (Sent (clear_buffer after) (out ++ after.buffer ∷ []))
          (read_loop read_series busy rounds k s (clear_buffer after) (out ++ after.buffer ∷ []))
      → Ends
          (Sent op out)
          (read_loop read_series busy rounds k s (clear_buffer after) (out ++ after.buffer ∷ []))
  unfolding clear_buffer
  Sent-next rounds k s op after out empty r ih =
      let same : after.buffer ≡ r.points =
        r.appended ∙ ap (λ (l : List Datapoint). l ++ r.points) empty in
      elim r.onward [
        | inl chain ↦
            Ends-map _ (Sent op out)
              (read_loop read_series busy rounds k s (clear_buffer after)
                (out ++ after.buffer ∷ []))
              (λ run h. (
                after.buffer ∷ h.0,
                h.1 ∙ append_assoc out (after.buffer ∷ []) h.0,
                rw same (
                    Spread-append op.next_time after.next_time op.end_time r.points (flatten h.0)
                      chain (rw r.same_end at h.2)),
              ))
              ih
        | inr done ↦
            Ends-map _ (Sent op out)
              (read_loop read_series busy rounds k s (clear_buffer after)
                (out ++ after.buffer ∷ []))
              (λ run h. (after.buffer ∷ [], h, rw (append-nil after.buffer, same) r.spread))
              (read_loop-complete rounds k s (clear_buffer after) _ done)
      ]

  hand_over-Sent :
      (rounds k : ℕ) (s : S) (op after : ReadOperation) (out : List (List Datapoint))
      → op.buffer ≡ []
      → Reading op after
      → Ends
          (Sent (clear_buffer after) (out ++ after.buffer ∷ []))
          (read_loop read_series busy rounds k s (clear_buffer after) (out ++ after.buffer ∷ []))
      → Ends
          (Sent op out)
          (hand_over read_series busy (read_loop read_series busy rounds k) out (s, after))
  hand_over-Sent rounds k s op after out empty r ih =
      elim (Bool-cases (datapoints_in_buffer after == 0)) [
        | inl e ↦ rw e (nothing op out s after)
        | inr e ↦ rw e (Sent-next rounds k s op after out empty r ih)
      ]

  after_task-Sent :
      (rounds k : ℕ) (op : ReadOperation) (out : List (List Datapoint))
      (o : Outcome (S × ReadOperation))
      → op.buffer ≡ []
      → Ends (λ r. Reading op r.1) o
      → ((s : S) (after : ReadOperation) (out : List (List Datapoint))
          → Ends
              (Sent (clear_buffer after) out)
              (read_loop read_series busy rounds k s (clear_buffer after) out))
      → Ends (Sent op out) (after_task read_series busy (read_loop read_series busy rounds k) out o)
  after_task-Sent rounds k op out (returned (s, after)) empty r ih =
      hand_over-Sent rounds k s op after out empty r (ih s after _)
  after_task-Sent rounds k op out (thrown (s, after)) empty r ih =
      hand_over-Sent rounds k s op after out empty r (ih s after _)
  after_task-Sent rounds k op out running empty r ih = tt

  read_loop-Sent :
      (rounds k : ℕ) (s : S) (op : ReadOperation) (out : List (List Datapoint))
      → op.buffer ≡ []
      → Ends (Sent op out) (read_loop read_series busy rounds k s op out)
  unfolding read_loop
  read_loop-Sent zero k s op out empty = tt
  read_loop-Sent (suc rounds) k s op out empty =
      let round =
        after_task-Sent rounds (suc k) op out (read_series s op) empty (reading s op)
          (λ s' after out'.
            read_loop-Sent rounds (suc k) s' (clear_buffer after) out'
              (unfold clear_buffer in refl)) in
      elim (Bool-cases (complete op)) [
        | inl e ↦ rw e (nothing op out s op)
        | inr e ↦
            rw e (elim (Bool-cases (busy k)) [
              | inl b ↦ rw b (nothing op out s op)
              | inr b ↦ rw b round
            ])
      ]

  -- Where every read of the series adds datapoints of what is left of the range, none overlapping
  -- the one before, all that the client is sent, buffer after buffer, is one sequence of datapoints
  -- from `start` up to `end` of which none starts before the one before it is over. This holds of a
  -- loop that is left because the worker is busy, too.
  pub read_database-Spread :
      (rounds : ℕ) (s : S) (start end limit : ℤ) (latest : Bool) (size : ℕ)
      → Ends
          (λ run. Spread start end (flatten run.2))
          (read_database read_series busy rounds s start end limit latest size)
  unfolding read_database
  read_database-Spread rounds s start end limit latest size =
      Ends-map _ _ (read_loop read_series busy rounds 0 s _ []) (λ run h. rw h.1 h.2)
        (read_loop-Sent rounds 0 s (read_operation start end limit latest size) []
          (unfold read_operation in refl))
