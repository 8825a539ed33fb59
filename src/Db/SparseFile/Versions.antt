-- ===== src/Db/SparseFile/Versions.antt =====
-- SparseFile::Read: of the datapoints written for one timestamp, which one is returned.
use vqro.Base.{
  subst, ℕ, zero, suc, ℤ, ◌≤ℤ◌, ◌<ℤ◌, false, Bool-cases, inl, inr, ◌≢◌, List, [], ◌∷◌, ◌++◌, ◌≡◌,
  refl, ap, sym, ◌∙◌, ltb_ℤ, eqb_ℤ, eqb_ℤ→eq, eqb_ℤ_refl, arith, All, All-append, append_assoc,
  append-nil,
}
use mathlib.Core.List.{reverse, reverse-cons, reverse-reverse}
use vqro.Db.Datapoint.{Datapoint}
use vqro.Db.ReadOp.{ReadOperation, append}
use vqro.Db.Order.{
  from_lower_bound, versions, versions-stable_sort, stable_sort-IsSorted, SortedFrom, IsSorted,
  SortedFrom-IsSorted,
}
use vqro.Db.SparseFile.Read.{
  copy, read_datapoints, wanted, latest, scan_back, same_time, after_same_time,
}
use vqro.Db.SparseFile.Laws.{latest-timestamp}

-- `q` is the last of the list `all` that has the duration `d`.
abbrev pub LastWith : ℤ → List Datapoint → Datapoint → Type 0
LastWith d all q =
    (earlier : List Datapoint) × (later : List Datapoint) × (all ≡ earlier ++ q ∷ later)
    × (q.duration ≡ d)
    × All (λ p. p.duration ≢ d) later

-- `q` is the last datapoint written to the file for its timestamp with the duration that was first
-- written for that timestamp.
abbrev pub LatestVersion : List Datapoint → Datapoint → Type 0
LatestVersion file q =
    (original : Datapoint) × (updates : List Datapoint) × (versions q.timestamp file
      ≡ original ∷ updates)
    × LastWith original.duration (original ∷ updates) q

eqb_ℤ→ne : (a b : ℤ) → eqb_ℤ a b ≡ false → a ≢ b
eqb_ℤ→ne a b h e = ground arith

scan_back-LastWith :
    (o : Datapoint) (ps : List Datapoint) → LastWith o.duration (o ∷ reverse ps) (scan_back o ps)
unfolding scan_back
scan_back-LastWith o [] = ([], [], refl, refl, tt)
scan_back-LastWith o (p ∷ ps) = elim (Bool-cases (eqb_ℤ p.duration o.duration)) [
  | inl e ↦ rw e (
    o ∷ reverse ps,
    [],
    ap (λ (l : List Datapoint). o ∷ l) (reverse-cons p ps),
    eqb_ℤ→eq _ _ e,
    tt,
  )
  | inr e ↦
      let (pre, post, split, d, rest) = scan_back-LastWith o ps in
      rw e (
        pre,
        post ++ p ∷ [],
        ap (λ (l : List Datapoint). o ∷ l) (reverse-cons p ps)
            ∙ ap (λ (l : List Datapoint). l ++ p ∷ []) split
            ∙ append_assoc pre _ (p ∷ []),
        d,
        All-append _ post (p ∷ []) rest (eqb_ℤ→ne _ _ e, tt),
      )
]

-- The datapoint chosen among those of one timestamp is the last with the original duration.
pub latest-LastWith :
    (o : Datapoint) (later : List Datapoint) → LastWith o.duration (o ∷ later) (latest o later)
unfolding latest
latest-LastWith o later = rw (reverse-reverse later) at (scan_back-LastWith o (reverse later))

versions-from_lower_bound :
    (n t : ℤ) (ps : List Datapoint) → n ≤ℤ t → versions t (from_lower_bound n ps) ≡ versions t ps
unfolding from_lower_bound
versions-from_lower_bound n t [] h = refl
versions-from_lower_bound n t (p ∷ ps) h = ground (arith, versions-from_lower_bound n t ps h)

SortedFrom-weaken :
    (lo lo' : ℤ) (ps : List Datapoint) → lo ≤ℤ lo' → SortedFrom lo' ps → SortedFrom lo ps
SortedFrom-weaken lo lo' [] h s = tt
SortedFrom-weaken lo lo' (p ∷ ps) h s = (omega arith, s.1)

versions-after_same_time :
    (t t' : ℤ) (ps : List Datapoint) → t <ℤ t' → versions t' (after_same_time t ps) ≡ versions t' ps
unfolding after_same_time
versions-after_same_time t t' [] h = refl
versions-after_same_time t t' (p ∷ ps) h = ground (arith, versions-after_same_time t t' ps h)

versions-above : (t lo : ℤ) (ps : List Datapoint) → t <ℤ lo → SortedFrom lo ps → versions t ps ≡ []
versions-above t lo [] h s = refl
versions-above t lo (p ∷ ps) h s = ground (arith, versions-above t p.timestamp ps (omega arith) s.1)

versions-same_time :
    (t : ℤ) (ps : List Datapoint) → SortedFrom t ps → versions t ps ≡ same_time t ps
unfolding same_time
versions-same_time t [] s = refl
versions-same_time t (p ∷ ps) s = elim (Bool-cases (eqb_ℤ p.timestamp t)) [
  | inl e ↦ rw e (
      ap (λ (l : List Datapoint). p ∷ l)
        (versions-same_time t ps (subst (λ x. SortedFrom x ps) (eqb_ℤ→eq p.timestamp t e) s.1)))
  | inr e ↦ rw e (versions-above t p.timestamp ps (ground arith) s.1)
]

SortedFrom-after_same_time :
    (t : ℤ) (ps : List Datapoint) → SortedFrom t ps → SortedFrom t (after_same_time t ps)
unfolding after_same_time
SortedFrom-after_same_time t [] s = tt
SortedFrom-after_same_time t (p ∷ ps) s = elim (Bool-cases (eqb_ℤ p.timestamp t)) [
  | inl e ↦ rw e (SortedFrom-after_same_time t ps (SortedFrom-weaken t p.timestamp ps s.0 s.1))
  | inr e ↦ rw e s
]

-- The rest of a sorted file from some point on: it has all versions of its timestamps.
abbrev Tail : List Datapoint → List Datapoint → Type 0
Tail file [] = Unit
Tail file (p ∷ ps) =
    ((t : ℤ) → p.timestamp ≤ℤ t → versions t file ≡ versions t (p ∷ ps)) × SortedFrom p.timestamp ps

-- What stands in front of a list that is sorted from `lo` and holds all versions from `lo` on.
Tail-intro :
    (file it : List Datapoint) (lo : ℤ)
    → SortedFrom lo it
    → ((t : ℤ) → lo ≤ℤ t → versions t file ≡ versions t it)
    → Tail file it
Tail-intro file [] lo s v = tt
Tail-intro file (p ∷ ps) lo s v = (λ t h. v t (omega arith), s.1)

All-above :
    (t lo : ℤ) (ps : List Datapoint) → t <ℤ lo → SortedFrom lo ps → All (λ p. t <ℤ p.timestamp) ps
All-above t lo [] h s = tt
All-above t lo (p ∷ ps) h s = (omega arith, All-above t p.timestamp ps (omega arith) s.1)

after_same_time-All :
    (t : ℤ) (ps : List Datapoint)
    → SortedFrom t ps
    → All (λ p. t <ℤ p.timestamp) (after_same_time t ps)
unfolding after_same_time
after_same_time-All t [] s = tt
after_same_time-All t (p ∷ ps) s = elim (Bool-cases (eqb_ℤ p.timestamp t)) [
  | inl e ↦ rw e (after_same_time-All t ps (SortedFrom-weaken t p.timestamp ps s.0 s.1))
  | inr e ↦ rw e (ground arith, All-above t p.timestamp ps (ground arith) s.1)
]

Tail-next_list :
    (file it : List Datapoint) (t : ℤ)
    → SortedFrom t it
    → All (λ p. t <ℤ p.timestamp) it
    → ((t' : ℤ) → t <ℤ t' → versions t' file ≡ versions t' it)
    → Tail file it
Tail-next_list file [] t s a v = tt
Tail-next_list file (p ∷ ps) t s a v = (λ t' h. v t' (omega (arith, a.0)), s.1)

versions-skip :
    (t : ℤ) (p : Datapoint) (ps : List Datapoint)
    → p.timestamp <ℤ t
    → versions t (p ∷ ps) ≡ versions t ps
versions-skip t p ps h = ground arith

Tail-next :
    (file : List Datapoint) (p : Datapoint) (ps : List Datapoint)
    → Tail file (p ∷ ps)
    → Tail file (after_same_time p.timestamp ps)
Tail-next file p ps tail =
    Tail-next_list file _ p.timestamp (SortedFrom-after_same_time p.timestamp ps tail.1)
      (after_same_time-All p.timestamp ps tail.1)
      λ t h.
        tail.0 t (omega arith)
        ∙ versions-skip t p ps h
        ∙ sym (versions-after_same_time p.timestamp t ps h)

Tail-latest :
    (file : List Datapoint) (p : Datapoint) (ps : List Datapoint)
    → Tail file (p ∷ ps)
    → LatestVersion file (latest p (same_time p.timestamp ps))
Tail-latest file p ps tail = (
  p,
  same_time p.timestamp ps,
  ap (λ t. versions t file) (latest-timestamp p ps)
      ∙ tail.0 p.timestamp (omega arith)
      ∙ rw (eqb_ℤ_refl p.timestamp)
          (ap (λ (l : List Datapoint). p ∷ l) (versions-same_time p.timestamp ps tail.1)),
  latest-LastWith p (same_time p.timestamp ps),
)

-- The datapoints that a read adds to the buffer.
abbrev pub Adds : (Datapoint → Type 0) → ReadOperation → ReadOperation → Type 0
Adds P before after =
    (points : List Datapoint) × (after.buffer ≡ before.buffer ++ points) × All P points

Adds-cons :
    (P : Datapoint → Type 0) (op after : ReadOperation) (q : Datapoint)
    → P q
    → Adds P (append op q) after
    → Adds P op after
Adds-cons P op after q h (points, e, a) =
    (q ∷ points, e ∙ append_assoc op.buffer (q ∷ []) points, (h, a))

copy-LatestVersion :
    (file : List Datapoint) (fuel : ℕ) (it : List Datapoint) (op : ReadOperation)
    → Tail file it
    → Adds (LatestVersion file) op (copy fuel it op)
unfolding copy
copy-LatestVersion file zero it op tail = ([], sym (append-nil op.buffer), tt)
copy-LatestVersion file (suc fuel) [] op tail = ([], sym (append-nil op.buffer), tt)
copy-LatestVersion file (suc fuel) (p ∷ ps) op tail =
    let q : Datapoint = latest p (same_time p.timestamp ps) in
    let next : List Datapoint = after_same_time p.timestamp ps in
    let added = copy-LatestVersion file fuel next (append op q) (Tail-next file p ps tail) in
    elim (Bool-cases (wanted p op)) [
      | inl w ↦ rw w (
          Adds-cons (LatestVersion file) op (copy fuel next (append op q)) q
            (Tail-latest file p ps tail) added)
      | inr w ↦ rw w ([], sym (append-nil op.buffer), tt)
    ]

SortedFrom-from_lower_bound :
    (n : ℤ) (ps : List Datapoint) → IsSorted ps → SortedFrom n (from_lower_bound n ps)
unfolding from_lower_bound
SortedFrom-from_lower_bound n [] s = tt
SortedFrom-from_lower_bound n (p ∷ ps) s = elim (Bool-cases (ltb_ℤ p.timestamp n)) [
  | inl e ↦ rw e (SortedFrom-from_lower_bound n ps (SortedFrom-IsSorted p.timestamp ps s))
  | inr e ↦ rw e (ground arith, s)
]

-- Every datapoint that SparseFile::Read returns is, of those that the file holds for its timestamp,
-- the one written last among those with the duration that was written first.
pub read_datapoints-LatestVersion :
    (file : List Datapoint) (op : ReadOperation)
    → Adds (LatestVersion file) op (read_datapoints file op)
unfolding read_datapoints
read_datapoints-LatestVersion file op = copy-LatestVersion file _ _ op (
    Tail-intro file _ op.next_time
      (SortedFrom-from_lower_bound op.next_time _ (stable_sort-IsSorted file))
      λ t h. sym (versions-from_lower_bound op.next_time t _ h ∙ versions-stable_sort t file))
