-- ===== src/Db/SparseFile/Laws.antt =====
-- SparseFile::Read: which datapoints are returned.
use vqro.Base.{
  ℕ, zero, suc, ℤ, true, Bool-cases, inl, inr, List, [], ◌∷◌, ◌≡◌, refl, eqb_ℤ→eq, arith, All,
  All-append,
}
use mathlib.Core.List.{reverse, reverse-cons}
use vqro.Db.Datapoint.{Datapoint}
use vqro.Db.ReadOp.{ReadOperation, append}
use vqro.Db.ReadOp.Chain.{Extends, Extends-refl, Extends-trans, append-Extends, append-Fits, Fits}
use vqro.Db.SparseFile.Read.{
  copy, read_datapoints, wanted, latest, scan_back, same_time, read_datapoints,
}

abbrev At : ℤ → Datapoint → Type 0
At t p = p.timestamp ≡ t

scan_back-At :
    (t : ℤ) (original : Datapoint) (ps : List Datapoint)
    → At t original
    → All (At t) ps
    → At t (scan_back original ps)
unfolding scan_back
scan_back-At t original [] h a = h
scan_back-At t original (p ∷ ps) h a = ground (arith, scan_back-At t original ps h a.1)

reverse-All {κ} : (P : Datapoint → Type κ) (ps : List Datapoint) → All P ps → All P (reverse ps)
reverse-All P [] a = tt
reverse-All P (p ∷ ps) a =
    rw (reverse-cons p ps) (All-append P (reverse ps) (p ∷ []) (reverse-All P ps a.1) (a.0, tt))

same_time-All : (t : ℤ) (ps : List Datapoint) → All (At t) (same_time t ps)
unfolding same_time
same_time-All t [] = tt
same_time-All t (p ∷ ps) = ground (arith, same_time-All t ps, eqb_ℤ→eq p.timestamp t)

pub latest-timestamp :
    (p : Datapoint) (ps : List Datapoint)
    → (latest p (same_time p.timestamp ps)).timestamp ≡ p.timestamp
unfolding latest
latest-timestamp p ps =
    scan_back-At p.timestamp p _ refl
      (reverse-All (At p.timestamp) _ (same_time-All p.timestamp ps))

pub wanted-Extends :
    (p : Datapoint) (ps : List Datapoint) (op : ReadOperation)
    → wanted p op ≡ true
    → Extends op (append op (latest p (same_time p.timestamp ps)))
wanted-Extends p ps op w =
    append-Extends op _ (rw latest-timestamp (ground arith)) (rw latest-timestamp (ground arith))

copy-Extends : (fuel : ℕ) (it : List Datapoint) (op : ReadOperation) → Extends op (copy fuel it op)
unfolding copy
copy-Extends zero it op = Extends-refl op
copy-Extends (suc fuel) [] op = Extends-refl op
copy-Extends (suc fuel) (p ∷ ps) op = elim (Bool-cases (wanted p op)) [
  | inl w ↦ rw w (Extends-trans (wanted-Extends p ps op w) (copy-Extends fuel _ _))
  | inr w ↦ rw w (Extends-refl op)
]

copy-Fits : (fuel : ℕ) (it : List Datapoint) (op : ReadOperation) → Fits op → Fits (copy fuel it op)
unfolding copy
copy-Fits zero it op f = f
copy-Fits (suc fuel) [] op f = f
copy-Fits (suc fuel) (p ∷ ps) op f = elim (Bool-cases (wanted p op)) [
  | inl w ↦ rw w (copy-Fits fuel _ _ (append-Fits op _ (ground arith) f))
  | inr w ↦ rw w f
]

-- SparseFile::Read appends datapoints of the wanted range, none of which overlaps the one before,
-- and moves `next_time` to where the last one is over.
pub read_datapoints-Extends :
    (points : List Datapoint) (op : ReadOperation) → Extends op (read_datapoints points op)
unfolding read_datapoints
read_datapoints-Extends points op = copy-Extends _ _ op

-- SparseFile::Read does not move the cursor past the end of the buffer, whatever the file holds,
-- where it has not passed it before.
pub read_datapoints-Fits :
    (points : List Datapoint) (op : ReadOperation) → Fits op → Fits (read_datapoints points op)
unfolding read_datapoints
read_datapoints-Fits points op f = copy-Fits _ _ op f
