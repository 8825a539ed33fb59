-- ===== src/Db/Flush/Rounds.antt =====
-- Database::FlushWriteBuffers (vqro/db/db.cc): the rounds of the flusher's thread. `size` is
-- DatapointsBuffered of a series, `flush` its FlushBufferedDatapoints, which changes the disk `D`. The
-- readings of the clock that the loop over the series makes are a list.
pub mod Laws
use vqro.Base.{
  ℕ, zero, suc, ◌%◌, ◌==◌, ltb, leb_ℤ, ℤ, ◌+ℤ◌, List, [], ◌∷◌, ◌++◌, Bool, false, if◌then◌else◌,
  Outcome, returned, thrown, running, and_then,
}

-- Is it time to sort the series again?
abbrev pub is_due : ℤ → List ℤ → Bool
is_due deadline [] = false
is_due deadline (now ∷ clock) = leb_ℤ deadline now

abbrev pub later_clock : List ℤ → List ℤ
later_clock [] = []
later_clock (now ∷ clock) = clock

-- Where a round stands: the disk, the series that the loop has passed, how many it has flushed, and
-- the deadline for sorting again.
pub record Round (S D : Type 0) : Type 0 where
  pub disk : D
  pub passed : List S
  pub flushed : ℕ
  pub resort_deadline : ℤ
  pub clock : List ℤ

module _ {S D : Type 0} (size : S → ℕ) (flush : S → D → Outcome (S × D))
    (flusher_resort_interval : ℤ) where
  -- The largest buffers come first; std::sort may order those of one size in any way.
  unfoldable pub insert_largest : S → List S → List S
  insert_largest a [] = a ∷ []
  insert_largest a (b ∷ bs) =
      let rest : List S = insert_largest a bs in
      if ltb (size a) (size b) then b ∷ rest else a ∷ b ∷ bs

  unfoldable pub largest_first : List S → List S
  unfolding insert_largest
  largest_first [] = []
  largest_first (a ∷ as') = insert_largest a (largest_first as')

  abbrev pub after_flush : Round S D → S × D → Round S D
  after_flush r (s, d) = record r { disk = d; passed = r.passed ++ s ∷ []; flushed = suc r.flushed }

  -- The break, with the series that are left as they are.
  abbrev pub cut : Round S D → List S → Round S D
  cut r rest = record r {
    passed = r.passed ++ rest;
    resort_deadline = r.resort_deadline +ℤ flusher_resort_interval;
    clock = later_clock r.clock;
  }

  -- Every fifty flushes the clock is read.
  abbrev pub next_series :
      (Round S D → Outcome (Round S D)) → List S → Round S D → Outcome (Round S D)
  next_series go rest r =
      let timed : Outcome (Round S D) = go (record r { clock = later_clock r.clock }) in
      let on : Outcome (Round S D) = go r in
      if r.flushed % 50 == 0
      then (if is_due r.resort_deadline r.clock then returned (cut r rest) else timed)
      else on

  -- The loop over the series. Where a flush throws, nothing catches it.
  unfoldable pub flush_loop : Round S D → List S → Outcome (Round S D)
  flush_loop r [] = returned r
  flush_loop r (s ∷ ss) =
      let skip : Outcome (Round S D) = flush_loop (record r { passed = r.passed ++ s ∷ [] }) ss in
      let flushed : Outcome (Round S D) =
        and_then (flush s r.disk) (λ p. next_series (λ r'. flush_loop r' ss) ss (after_flush r p))
          (λ p. after_flush r p) in
      if size s == 0 then skip else flushed

  -- One round, over the series of the table.
  unfoldable pub flush_round : D → ℤ → List ℤ → List S → Outcome (Round S D)
  unfolding largest_first flush_loop
  flush_round d deadline clock table =
      flush_loop
        (record { disk = d; passed = []; flushed = 0; resort_deadline = deadline; clock = clock })
        (largest_first table)

  -- As many rounds as are asked for; `others` is what happens to the series between two of them, and
  -- the sleep after a round without a flush is a part of that.
  unfoldable pub flush_write_buffers :
      (ℕ → List S → List S) → ℕ → D → ℤ → List ℤ → List S → Outcome (Round S D)
  unfolding flush_round
  flush_write_buffers others zero d deadline clock table = flush_round d deadline clock table
  flush_write_buffers others (suc n) d deadline clock table =
      and_then (flush_round d deadline clock table)
        (λ r. flush_write_buffers others n r.disk r.resort_deadline r.clock (others n r.passed))
        (λ r. r)
