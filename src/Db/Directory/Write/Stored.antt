-- ===== src/Db/Directory/Write/Stored.antt =====
-- DatapointDirectory::Write: what is on disk after it.
use vqro.Base.{
  ℕ, zero, suc, ◌+◌, ◌≤◌, ℤ, ltb_ℤ, leb_ℤ, none, some, List, [], ◌∷◌, ◌++◌, take, drop, length,
  length-drop, drop_all, take_append-drop, get_elem?, append_assoc, take_all, append-nil, Outcome,
  returned, thrown, running, and_then, ◌≡◌, refl, sym, ap, ◌∙◌, arith, true, Bool-cases, inl, inr,
  ◌==◌,
}
use vqro.Db.Datapoint.{Datapoint}
use vqro.Db.WriteOp.{WriteOperation, remaining, write_complete}
use vqro.Db.Directory.Write.{
  FileWriter, Writing, write_new, write_at, write_found, write_round, write_loop, written, inserted,
  after_write, with_limits, time_before,
}

drop-drop : {A : Type 0} (i n : ℕ) (xs : List A) → drop n (drop i xs) ≡ drop (i + n) xs
drop-drop zero n xs = ap (λ k. drop k xs) (omega arith)
drop-drop (suc i) n [] = drop_all n [] (omega arith) ∙ sym (drop_all (suc i + n) [] (omega arith))
drop-drop (suc i) n (x ∷ xs) =
    drop-drop i n xs ∙ ap (λ k. drop k (x ∷ xs)) {x = suc (i + n)} (omega arith)

module _ {D F : Type 0} (file : FileWriter D F) (stored : D → List Datapoint) where
  -- What the Write of a file, whatever it comes to, has put on disk: the datapoints that it says it
  -- has written, from the cursor on; where it throws, some of them.
  abbrev pub Wrote : D → WriteOperation → Outcome (D × F × ℕ) → Type 0
  Wrote d op (returned (d', f, n)) =
      (n ≤ length (remaining op)) × (stored d' ≡ stored d ++ take n (remaining op))
  Wrote d op (thrown (d', f, n)) = (k : ℕ) × (stored d' ≡ stored d ++ take k (remaining op))
  Wrote d op running = Unit

  -- From one state of the loop to another, `count` datapoints were put on disk and passed.
  pub record Progress (w v : Writing D F) : Type 0 where
    pub count : ℕ
    pub on_disk : stored v.disk ≡ stored w.disk ++ take count (remaining w.write_op)
    pub same_buffer : v.write_op.buffer ≡ w.write_op.buffer
    pub passed : v.write_op.cursor ≡ w.write_op.cursor + count

  remaining-Progress :
      (w v : Writing D F) (p : Progress w v)
      → remaining v.write_op ≡ drop p.count (remaining w.write_op)
  remaining-Progress w v p =
      ap (λ c. drop c v.write_op.buffer) p.passed
      ∙ ap (drop (w.write_op.cursor + p.count)) p.same_buffer
      ∙ sym (drop-drop w.write_op.cursor p.count w.write_op.buffer)

  stored_on :
      (w v : Writing D F) (p : Progress w v) (k : ℕ)
      → stored v.disk ++ take k (remaining v.write_op)
        ≡ stored w.disk ++ take (p.count + k) (remaining w.write_op)
  stored_on w v p k =
      let rest : List Datapoint = remaining w.write_op in
      ap (λ (l : List Datapoint). stored v.disk ++ take k l) (remaining-Progress w v p)
      ∙ ap (λ (l : List Datapoint). l ++ take k (drop p.count rest)) p.on_disk
      ∙ append_assoc (stored w.disk) (take p.count rest) (take k (drop p.count rest))
      ∙ ap (λ (l : List Datapoint). stored w.disk ++ l) (take_append-drop p.count k rest)

  -- What is on disk where the loop ends that began at `w`.
  abbrev pub Stored : Writing D F → Outcome (Writing D F) → Type 0
  Stored w (returned v) = stored v.disk ≡ stored w.disk ++ remaining w.write_op
  Stored w (thrown v) = (k : ℕ) × (stored v.disk ≡ stored w.disk ++ take k (remaining w.write_op))
  Stored w running = Unit

  -- What a piece of the loop has done since state `w`.
  abbrev pub Stores : Writing D F → Outcome (Writing D F) → Type 0
  Stores w (returned v) = Progress w v
  Stores w (thrown v) = (k : ℕ) × (stored v.disk ≡ stored w.disk ++ take k (remaining w.write_op))
  Stores w running = Unit

  Stores-from :
      (w v : Writing D F) (o : Outcome (Writing D F)) → Progress w v → Stores v o → Stores w o
  Stores-from w v (returned u) p q = record {
    count = p.count + q.count;
    on_disk = q.on_disk ∙ stored_on w v p q.count;
    same_buffer = q.same_buffer ∙ p.same_buffer;
    passed = omega (arith, p.passed, q.passed);
  }
  Stores-from w v (thrown u) p q = (p.count + q.0, q.1 ∙ stored_on w v p q.0)
  Stores-from w v running p q = tt

  module _ (well : (d : D) (f : F) (op : WriteOperation) → Wrote d op (file.write d f op)) where
    -- Limits, the file list and the position in it have no part in what is stored.
    Progress-here :
        (w v : Writing D F)
        → stored v.disk ≡ stored w.disk
        → v.write_op.buffer ≡ w.write_op.buffer
        → v.write_op.cursor ≡ w.write_op.cursor
        → Progress w v
    Progress-here w v disk buffer cursor = record {
      count = 0;
      on_disk = disk ∙ sym (append-nil (stored w.disk));
      same_buffer = buffer;
      passed = omega (arith, cursor);
    }

    new-Stores :
        (w : Writing D F) (count : ℕ) (time : ℤ) (o : Outcome (D × F × ℕ))
        → Wrote w.disk (with_limits file count time w.write_op) o
        → Stores w (
            and_then o
              (λ r. returned (inserted file w (with_limits file count time w.write_op) r))
              (λ r. record w { disk = r.0; write_op = with_limits file count time w.write_op }))
    new-Stores w count time (returned (d, f, n)) h = record {
      count = n;
      on_disk = h.1;
      same_buffer = refl;
      passed = refl;
    }
    new-Stores w count time (thrown r) h = h
    new-Stores w count time running h = tt

    write_new-Stores : (t : ℤ) (w : Writing D F) → Stores w (write_new file t w)
    unfolding write_new
    write_new-Stores t w =
        new-Stores w file.sparse_capacity _ (file.write w.disk (file.new_sparse t) _) (well _ _ _)

    existing-Stores :
        (t : ℤ) (w : Writing D F) (op : WriteOperation) (o : Outcome (D × F × ℕ))
        → op ≡ w.write_op
        → Wrote w.disk w.write_op o
        → Stores w (
            and_then o
              (λ r. after_write file t (written file w op r) r.2)
              (λ r. record (written file w op r) { file_it = w.file_it; write_op = op }))
    existing-Stores t w op (returned (d, f, n)) same h =
        let v : Writing D F = written file w op (d, f, n) in
        let p : Progress w v = record {
          count = n;
          on_disk = h.1;
          same_buffer = ap (λ (o : WriteOperation). o.buffer) same;
          passed = ap (λ (o : WriteOperation). o.cursor + n) same;
        } in
        elim (Bool-cases (n == 0)) [
          | inl e ↦ rw e (Stores-from w v (write_new file t v) p (write_new-Stores t v))
          | inr e ↦ rw e p
        ]
    existing-Stores t w op (thrown r) same h = h
    existing-Stores t w op running same h = tt

    write_at-Stores :
        (t : ℤ) (w : Writing D F) (f : F) (count : ℕ) → Stores w (write_at file t w f count)
    write_at-Stores t w f count =
        let limit : ℤ = time_before file (get_elem? w.datapoint_files (suc w.file_it)) in
        let op : WriteOperation = with_limits file count limit w.write_op in
        let v : Writing D F = record w { write_op = op } in
        let here : Progress w v = Progress-here w v refl refl refl in
        elim (Bool-cases (count == 0)) [
          | inl e ↦ rw e (Progress-here w _ refl refl refl)
          | inr e ↦ rw e (elim (Bool-cases (ltb_ℤ limit t)) [
            | inl late ↦ rw late (Progress-here w _ refl refl refl)
            | inr room ↦ rw room (elim (Bool-cases (leb_ℤ (file.min_timestamp f) t)) [
              | inl begun ↦ rw begun (
                  Stores-from w v _ here
                    (existing-Stores t v op (file.write w.disk f op) refl (well w.disk f op)))
              | inr future ↦ rw future (Stores-from w v _ here (write_new-Stores t v))
            ])
          ])
        ]

    write_round-Stores : (t : ℤ) (w : Writing D F) → Stores w (write_round file t w)
    unfolding write_round
    write_round-Stores t w =
        elim (get_elem? w.datapoint_files w.file_it) as (λ o. Stores w (write_found file t w o)) [
          | none ↦ write_new-Stores t w
          | some f ↦
              elim (file.remaining_writable w.disk f)
                as (λ c.
                  Stores w (elim c [ none ↦ thrown w | some count ↦ write_at file t w f count ])) [
                    | none ↦ (0, sym (append-nil (stored w.disk)))
                    | some count ↦ write_at-Stores t w f count
                  ]
        ]

    round-Stores :
        (w : Writing D F) (o : Outcome (Writing D F)) (go : Writing D F → Outcome (Writing D F))
        → Stores w o
        → ((v : Writing D F) → Stores v (go v))
        → Stores w (and_then o go (λ v. v))
    round-Stores w (returned v) go h rest = Stores-from w v (go v) h (rest v)
    round-Stores w (thrown v) go h rest = h
    round-Stores w running go h rest = tt

    write_loop-Stores : (rounds : ℕ) (w : Writing D F) → Stores w (write_loop file rounds w)
    unfolding write_loop
    write_loop-Stores zero w = tt
    write_loop-Stores (suc rounds) w = elim (Bool-cases (write_complete w.write_op)) [
      | inl e ↦ rw e (Progress-here w w refl refl refl)
      | inr e ↦
          rw e
            (elim (get_elem? w.write_op.buffer w.write_op.cursor)
              as (λ o. Stores w (elim o [
                | none ↦ running
                | some p ↦
                    and_then (write_round file p.timestamp w) (λ v. write_loop file rounds v)
                      (λ v. v)
              ])) [
                | none ↦ tt
                | some p ↦
                    round-Stores w (write_round file p.timestamp w) (write_loop file rounds)
                      (write_round-Stores p.timestamp w) (write_loop-Stores rounds)
              ])
    ]

    -- The loop returns only with the cursor at the end of the buffer.
    Completes : Outcome (Writing D F) → Type 0
    Completes (returned v) = write_complete v.write_op ≡ true
    Completes (thrown v) = Unit
    Completes running = Unit

    round-Completes :
        (o : Outcome (Writing D F)) (go : Writing D F → Outcome (Writing D F))
        → ((v : Writing D F) → Completes (go v))
        → Completes (and_then o go (λ v. v))
    unfolding Completes
    round-Completes (returned v) go h = h v
    round-Completes (thrown v) go h = tt
    round-Completes running go h = tt

    write_loop-Completes : (rounds : ℕ) (w : Writing D F) → Completes (write_loop file rounds w)
    unfolding Completes write_loop
    write_loop-Completes zero w = tt
    write_loop-Completes (suc rounds) w = elim (Bool-cases (write_complete w.write_op)) [
      | inl e ↦ rw e e
      | inr e ↦
          rw e
            (elim (get_elem? w.write_op.buffer w.write_op.cursor)
              as (λ o. Completes (elim o [
                | none ↦ running
                | some p ↦
                    and_then (write_round file p.timestamp w) (λ v. write_loop file rounds v)
                      (λ v. v)
              ])) [
                | none ↦ tt
                | some p ↦
                    round-Completes (write_round file p.timestamp w) (write_loop file rounds)
                      (write_loop-Completes rounds)
              ])
    ]

    all-Stored :
        (w : Writing D F) (o : Outcome (Writing D F)) → Stores w o → Completes o → Stored w o
    unfolding Completes write_complete
    all-Stored w (returned v) p e =
        let rest : List Datapoint = remaining w.write_op in
        let end : p.count + w.write_op.cursor ≡ length w.write_op.buffer =
          ground (arith, p.passed, ap length p.same_buffer) in
        p.on_disk
        ∙ ap (λ (l : List Datapoint). stored w.disk ++ l)
            (take_all p.count rest
              (omega (arith, length-drop w.write_op.cursor w.write_op.buffer, end)))
    all-Stored w (thrown v) p e = p
    all-Stored w running p e = tt

    -- Where the Write of each file puts on disk what it says it has written, from the cursor on, and
    -- a first part of that where it throws: DatapointDirectory::Write, if it returns, has put every
    -- datapoint from the cursor on to disk, once and in their order, however they are spread over
    -- files; if it throws, a first part of them.
    pub write_loop-Stored : (rounds : ℕ) (w : Writing D F) → Stored w (write_loop file rounds w)
    write_loop-Stored rounds w =
        all-Stored w (write_loop file rounds w) (write_loop-Stores rounds w)
          (write_loop-Completes rounds w)
