-- ===== src/Db/ReadOp/Chain.antt =====
-- What a read adds to its buffer: datapoints one after the other, none overlapping the one before.
use vqro.Base.{
  ◌≤◌, ℤ, ◌≤ℤ◌, ◌<ℤ◌, List, [], ◌∷◌, ◌++◌, ◌≡◌, refl, length, length-append, arith, append-nil,
  append_assoc, true, inl, ◌⊎◌,
}
use vqro.Db.Datapoint.{Datapoint}
use vqro.Db.ReadOp.{ReadOperation, time_after, append, has_space, complete}

-- `Chain lo end points hi`: the datapoints start at `lo` or later and before `end`, each starts no
-- earlier than its predecessor is over, and the last is over no later than `hi`.
abbrev pub Chain : ℤ → ℤ → List Datapoint → ℤ → Type 0
Chain lo end [] hi = lo ≤ℤ hi
Chain lo end (p ∷ ps) hi =
    (lo ≤ℤ p.timestamp) × (p.timestamp <ℤ end) × Chain (time_after p) end ps hi

pub Chain-weaken_left :
    (lo lo' end : ℤ) (ps : List Datapoint) (hi : ℤ)
    → lo ≤ℤ lo'
    → Chain lo' end ps hi
    → Chain lo end ps hi
Chain-weaken_left lo lo' end [] hi h c = omega arith
Chain-weaken_left lo lo' end (p ∷ ps) hi h c = (omega arith, c.1, c.2)

pub Chain-append :
    (lo mid hi end : ℤ) (ps qs : List Datapoint)
    → Chain lo end ps mid
    → Chain mid end qs hi
    → Chain lo end (ps ++ qs) hi
Chain-append lo mid hi end [] qs c d = Chain-weaken_left lo mid end qs hi c d
Chain-append lo mid hi end (p ∷ ps) qs c d =
    (c.0, c.1, Chain-append (time_after p) mid hi end ps qs c.2 d)

-- `after` is `before` with further datapoints, which form a chain between their `next_time`s.
pub record Extends (before after : ReadOperation) : Type 0 where
  pub points : List Datapoint
  pub appended : after.buffer ≡ before.buffer ++ points
  pub chain : Chain before.next_time before.end_time points after.next_time
  pub same_end : after.end_time ≡ before.end_time
  pub same_size : after.buffer_size ≡ before.buffer_size

-- The cursor has not passed the end of the buffer.
abbrev pub Fits : ReadOperation → Type 0
Fits op = length op.buffer ≤ op.buffer_size

pub Extends-refl : (op : ReadOperation) → Extends op op
Extends-refl op = record {
  points = [];
  appended = rw append-nil;
  chain = omega arith;
  same_end = refl;
  same_size = refl;
}

pub Extends-trans : {a b c : ReadOperation} → Extends a b → Extends b c → Extends a c
Extends-trans {a} {b} {c} x y = record {
  points = x.points ++ y.points;
  appended = rw (y.appended, x.appended, append_assoc);
  chain =
      Chain-append a.next_time b.next_time c.next_time a.end_time x.points y.points x.chain
        (rw x.same_end at y.chain);
  same_end = rw (y.same_end, x.same_end);
  same_size = rw (y.same_size, x.same_size);
}

pub append-Extends :
    (op : ReadOperation) (p : Datapoint)
    → op.next_time ≤ℤ p.timestamp
    → p.timestamp <ℤ op.end_time
    → Extends op (append op p)
append-Extends op p lo hi = record {
  points = p ∷ [];
  appended = refl;
  chain = (lo, hi, omega arith);
  same_end = refl;
  same_size = refl;
}

pub append-Fits :
    (op : ReadOperation) (p : Datapoint) → has_space op ≡ true → Fits op → Fits (append op p)
append-Fits op p space fits = ground (arith, length-append op.buffer (p ∷ []))

-- The datapoints lie in the range from `lo` to `end`, and none starts before the one before is over.
abbrev pub Spread : ℤ → ℤ → List Datapoint → Type 0
Spread lo end [] = Unit
Spread lo end (p ∷ ps) = (lo ≤ℤ p.timestamp) × (p.timestamp <ℤ end) × Spread (time_after p) end ps

pub Chain-Spread :
    (lo end : ℤ) (ps : List Datapoint) (hi : ℤ) → Chain lo end ps hi → Spread lo end ps
Chain-Spread lo end [] hi c = tt
Chain-Spread lo end (p ∷ ps) hi c = (c.0, c.1, Chain-Spread (time_after p) end ps hi c.2)

pub Spread-weaken_left :
    (lo lo' end : ℤ) (ps : List Datapoint) → lo ≤ℤ lo' → Spread lo' end ps → Spread lo end ps
Spread-weaken_left lo lo' end [] h s = tt
Spread-weaken_left lo lo' end (p ∷ ps) h s = (omega arith, s.1, s.2)

-- A chain, and behind it datapoints that are spread from its end on.
pub Spread-append :
    (lo mid end : ℤ) (ps qs : List Datapoint)
    → Chain lo end ps mid
    → Spread mid end qs
    → Spread lo end (ps ++ qs)
Spread-append lo mid end [] qs c s = Spread-weaken_left lo mid end qs c s
Spread-append lo mid end (p ∷ ps) qs c s =
    (c.0, c.1, Spread-append (time_after p) mid end ps qs c.2 s)

-- One call of a series' Read: it adds datapoints of the wanted range, and either `next_time` is where
-- the last of them is over, or the operation is complete.
pub record Reading (before after : ReadOperation) : Type 0 where
  pub points : List Datapoint
  pub appended : after.buffer ≡ before.buffer ++ points
  pub spread : Spread before.next_time before.end_time points
  pub onward :
      Chain before.next_time before.end_time points after.next_time ⊎ (complete after ≡ true)
  pub same_end : after.end_time ≡ before.end_time
  pub same_size : after.buffer_size ≡ before.buffer_size

pub Extends-Reading : {before after : ReadOperation} → Extends before after → Reading before after
Extends-Reading {before} {after} x = record {
  points = x.points;
  appended = x.appended;
  spread = Chain-Spread before.next_time before.end_time x.points after.next_time x.chain;
  onward = inl x.chain;
  same_end = x.same_end;
  same_size = x.same_size;
}
