-- ===== src/Db/Flush/Rounds/Laws.antt =====
-- What a round of the flusher flushes.
use vqro.Base.{
  ℕ, suc, ◌%◌, ◌==◌, ◌<◌, ◌⊎◌, inl, inr, ℤ, ◌+ℤ◌, ◌≤ℤ◌, ◌<ℤ◌, List, [], ◌∷◌, ◌++◌, All, All-append,
  length, Bool-cases, true, false, Outcome, returned, thrown, running, and_then, ◌≡◌, refl, ap,
  subst, ◌∙◌, arith, length-append, ◌+◌,
}
use vqro.Db.Flush.Rounds.{
  Round, is_due, later_clock, insert_largest, largest_first, after_flush, next_series, flush_loop,
  flush_round,
}

length-snoc :
    {A : Type 0} (xs : List A) (x : A) (n : ℕ) → length (xs ++ x ∷ []) + n ≡ length xs + suc n
length-snoc xs x n = omega (arith, length-append xs (x ∷ []))

module _ {S D : Type 0} (size : S → ℕ) (flush : S → D → Outcome (S × D)) (interval : ℤ) where
  -- What holds of the round that is returned.
  abbrev pub IfReturned : (Round S D → Type 0) → Outcome (Round S D) → Type 0
  IfReturned P (returned r) = P r
  IfReturned P (thrown r) = Unit
  IfReturned P running = Unit

  abbrev pub Empties : Outcome (S × D) → Type 0
  Empties (returned p) = size p.0 ≡ 0
  Empties (thrown p) = Unit
  Empties running = Unit

  abbrev pub IsEmpty : S → Type 0
  IsEmpty s = size s ≡ 0

  -- No reading of the clock has come to the deadline.
  abbrev pub NeverDue : ℤ → List ℤ → Type 0
  NeverDue deadline clock = All (λ now. now <ℤ deadline) clock

  never_due :
      (deadline : ℤ) (clock : List ℤ) → NeverDue deadline clock → is_due deadline clock ≡ false
  never_due deadline [] h = refl
  never_due deadline (now ∷ clock) h = ground arith

  later-NeverDue :
      (deadline : ℤ) (clock : List ℤ)
      → NeverDue deadline clock
      → NeverDue deadline (later_clock clock)
  later-NeverDue deadline [] h = tt
  later-NeverDue deadline (now ∷ clock) h = h.1

  -- All series that were passed are empty, and none is left out.
  abbrev pub AllFlushed : ℕ → ℤ → Round S D → Type 0
  AllFlushed count deadline r =
      All IsEmpty r.passed × (length r.passed ≡ count) × (r.resort_deadline ≡ deadline)

  module _ (empties : (s : S) (d : D) → Empties (flush s d)) where
    next-AllFlushed :
        (go : Round S D → Outcome (Round S D)) (rest : List S) (count : ℕ) (r : Round S D)
        → NeverDue r.resort_deadline r.clock
        → ((c : List ℤ)
            → NeverDue r.resort_deadline c
            → IfReturned (AllFlushed count r.resort_deadline) (go (record r { clock = c })))
        → IfReturned
            (AllFlushed count r.resort_deadline)
            (next_series size flush interval go rest r)
    next-AllFlushed go rest count r never h = elim (Bool-cases (r.flushed % 50 == 0)) [
      | inl e ↦
          rw (e, never_due r.resort_deadline r.clock never)
            (h (later_clock r.clock) (later-NeverDue r.resort_deadline r.clock never))
      | inr e ↦ rw e (h r.clock never)
    ]

    flushed-AllFlushed :
        (go : Round S D → Outcome (Round S D)) (rest : List S) (count : ℕ) (r : Round S D)
        (o : Outcome (S × D))
        → Empties o
        → NeverDue r.resort_deadline r.clock
        → ((p : S × D) (c : List ℤ)
            → IsEmpty p.0
            → NeverDue r.resort_deadline c
            → IfReturned
                (AllFlushed count r.resort_deadline)
                (go (record (after_flush size flush interval r p) { clock = c })))
        → IfReturned (AllFlushed count r.resort_deadline) (
            and_then o
              (λ p. next_series size flush interval go rest (after_flush size flush interval r p))
              (λ p. after_flush size flush interval r p))
    flushed-AllFlushed go rest count r (returned p) e never h =
        next-AllFlushed go rest count (after_flush size flush interval r p) never (λ c n. h p c e n)
    flushed-AllFlushed go rest count r (thrown p) e never h = tt
    flushed-AllFlushed go rest count r running e never h = tt

    flush_loop-AllFlushed :
        (ss : List S) (r : Round S D)
        → All IsEmpty r.passed
        → NeverDue r.resort_deadline r.clock
        → IfReturned
            (AllFlushed (length r.passed + length ss) r.resort_deadline)
            (flush_loop size flush interval r ss)
    unfolding flush_loop
    flush_loop-AllFlushed [] r h never = (h, omega arith, refl)
    flush_loop-AllFlushed (s ∷ ss) r h never =
        let count : ℕ = length r.passed + suc (length ss) in
        let more : (t : S) (q : Round S D) → length (r.passed ++ t ∷ []) + length ss ≡ count =
          λ t q. length-snoc r.passed t (length ss) in
        elim (Bool-cases (size s == 0)) [
          | inl e ↦
              let skipped : Round S D = record r { passed = r.passed ++ s ∷ [] } in
              rw e (
                subst
                  (λ n.
                    IfReturned (AllFlushed n r.resort_deadline)
                      (flush_loop size flush interval skipped ss))
                  (more s r)
                  (flush_loop-AllFlushed ss skipped
                    (All-append IsEmpty r.passed (s ∷ []) h (ground (arith, e), tt)) never))
          | inr e ↦ rw e (
              flushed-AllFlushed (λ q. flush_loop size flush interval q ss) ss count r
                (flush s r.disk) (empties s r.disk) never
                (λ p c empty n.
                  let on : Round S D = record (after_flush size flush interval r p) { clock = c } in
                  subst
                    (λ k.
                      IfReturned (AllFlushed k r.resort_deadline)
                        (flush_loop size flush interval on ss))
                    (more p.0 r)
                    (flush_loop-AllFlushed ss on
                      (All-append IsEmpty r.passed (p.0 ∷ []) h (empty, tt)) n)))
        ]

    length-insert_largest :
        (a : S) (bs : List S) → length (insert_largest size flush interval a bs) ≡ suc (length bs)
    unfolding insert_largest
    length-insert_largest a [] = refl
    length-insert_largest a (b ∷ bs) = ground (arith, length-insert_largest a bs)

    length-largest_first :
        (as' : List S) → length (largest_first size flush interval as') ≡ length as'
    unfolding largest_first
    length-largest_first [] = refl
    length-largest_first (a ∷ as') =
        length-insert_largest a (largest_first size flush interval as')
        ∙ ap suc (length-largest_first as')

    -- Where a flush that returns leaves its series empty, and the clock does not come to the deadline,
    -- a round that returns has passed all series of the table, all of them are empty then, and the
    -- deadline is as it was.
    pub flush_round-AllFlushed :
        (d : D) (deadline : ℤ) (clock : List ℤ) (table : List S)
        → NeverDue deadline clock
        → IfReturned
            (AllFlushed (length table) deadline)
            (flush_round size flush interval d deadline clock table)
    unfolding flush_round
    flush_round-AllFlushed d deadline clock table never =
        let start : Round S D = record {
          disk = d;
          passed = [];
          flushed = 0;
          resort_deadline = deadline;
          clock = clock;
        } in
        let sorted : List S = largest_first size flush interval table in
        subst
          (λ n. IfReturned (AllFlushed n deadline) (flush_loop size flush interval start sorted))
          (omega (arith, length-largest_first table)) (flush_loop-AllFlushed sorted start tt never)

  -- Where the clock is past the deadline, a round flushes fewer than fifty series, or fifty, and is cut.
  abbrev pub AtMostFifty : ℤ → Round S D → Type 0
  AtMostFifty deadline r =
      (r.flushed < 50) ⊎ ((r.flushed ≡ 50) × (r.resort_deadline ≡ deadline +ℤ interval))

  next-AtMostFifty :
      (go : Round S D → Outcome (Round S D)) (rest : List S) (r : Round S D)
      → r.flushed < 51
      → 0 < r.flushed
      → is_due r.resort_deadline r.clock ≡ true
      → (r.flushed < 50 → IfReturned (AtMostFifty r.resort_deadline) (go r))
      → IfReturned (AtMostFifty r.resort_deadline) (next_series size flush interval go rest r)
  next-AtMostFifty go rest r below some_flushed due h = elim (Bool-cases (r.flushed % 50 == 0)) [
    | inl e ↦ rw (e, due) (inr (ground arith, refl))
    | inr e ↦ rw e (h (ground arith))
  ]

  flushed-AtMostFifty :
      (go : Round S D → Outcome (Round S D)) (rest : List S) (r : Round S D) (o : Outcome (S × D))
      → r.flushed < 50
      → is_due r.resort_deadline r.clock ≡ true
      → ((p : S × D)
          → suc r.flushed < 50
          → IfReturned (AtMostFifty r.resort_deadline) (go (after_flush size flush interval r p)))
      → IfReturned (AtMostFifty r.resort_deadline) (
          and_then o
            (λ p. next_series size flush interval go rest (after_flush size flush interval r p))
            (λ p. after_flush size flush interval r p))
  flushed-AtMostFifty go rest r (returned p) few due h =
      next-AtMostFifty go rest (after_flush size flush interval r p) (omega arith) (omega arith) due
        (h p)
  flushed-AtMostFifty go rest r (thrown p) few due h = tt
  flushed-AtMostFifty go rest r running few due h = tt

  flush_loop-AtMostFifty :
      (ss : List S) (r : Round S D)
      → r.flushed < 50
      → is_due r.resort_deadline r.clock ≡ true
      → IfReturned (AtMostFifty r.resort_deadline) (flush_loop size flush interval r ss)
  unfolding flush_loop
  flush_loop-AtMostFifty [] r few due = inl few
  flush_loop-AtMostFifty (s ∷ ss) r few due = elim (Bool-cases (size s == 0)) [
    | inl e ↦ rw e (flush_loop-AtMostFifty ss (record r { passed = r.passed ++ s ∷ [] }) few due)
    | inr e ↦ rw e (
        flushed-AtMostFifty (λ q. flush_loop size flush interval q ss) ss r (flush s r.disk) few due
          (λ p fewer. flush_loop-AtMostFifty ss (after_flush size flush interval r p) fewer due))
  ]

  -- Where the first reading of the clock is at the deadline or behind it, a round that returns has
  -- flushed fewer than fifty series, or fifty, and the deadline is then later by the interval only,
  -- however late it is.
  pub flush_round-AtMostFifty :
      (d : D) (deadline now : ℤ) (clock : List ℤ) (table : List S)
      → deadline ≤ℤ now
      → IfReturned
          (AtMostFifty deadline)
          (flush_round size flush interval d deadline (now ∷ clock) table)
  unfolding flush_round
  flush_round-AtMostFifty d deadline now clock table late =
      flush_loop-AtMostFifty (largest_first size flush interval table)
        (record {
          disk = d;
          passed = [];
          flushed = 0;
          resort_deadline = deadline;
          clock = now ∷ clock;
        })
        (omega arith) (ground arith)
