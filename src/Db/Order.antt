-- ===== src/Db/Order.antt =====
-- What the code takes from <algorithm> on datapoints: std::stable_sort, std::lower_bound and
-- std::upper_bound, all by operator<, that is, by timestamp.
use mathlib.Core.List.Perm
use mathlib.Core.List.{Perm}
use vqro.Base.{
  ℕ, ℤ, ◌≤ℤ◌, Bool-cases, inl, inr, List, [], ◌∷◌, ◌≡◌, refl, eqb_ℤ, ltb_ℤ, if◌then◌else◌, arith,
  length, suc,
}
use vqro.Db.Datapoint.{Datapoint, before}

-- A datapoint goes in front of those that are not before it: of two with one timestamp the one that
-- stood first stays first.
pub insert : Datapoint → List Datapoint → List Datapoint
insert p [] = p ∷ []
insert p (q ∷ qs) = if before q p then q ∷ insert p qs else p ∷ q ∷ qs

unfoldable pub stable_sort : List Datapoint → List Datapoint
unfolding insert
stable_sort [] = []
stable_sort (p ∷ ps) = insert p (stable_sort ps)

-- Timestamps do not fall along the list, from `lo` on.
abbrev pub SortedFrom : ℤ → List Datapoint → Type 0
SortedFrom lo [] = Unit
SortedFrom lo (p ∷ ps) = (lo ≤ℤ p.timestamp) × SortedFrom p.timestamp ps

abbrev pub IsSorted : List Datapoint → Type 0
IsSorted [] = Unit
IsSorted (p ∷ ps) = SortedFrom p.timestamp ps

-- The elements from the first that is not before `t`: std::lower_bound.
unfoldable pub from_lower_bound : ℤ → List Datapoint → List Datapoint
from_lower_bound t [] = []
from_lower_bound t (p ∷ ps) =
    let rest = from_lower_bound t ps in if ltb_ℤ p.timestamp t then rest else p ∷ ps

-- The position of the first element after `t`: std::upper_bound.
unfoldable pub upper_bound : ℤ → List Datapoint → ℕ
upper_bound t [] = 0
upper_bound t (p ∷ ps) = let rest = upper_bound t ps in if ltb_ℤ t p.timestamp then 0 else suc rest

insert-SortedFrom :
    (lo : ℤ) (p : Datapoint) (qs : List Datapoint)
    → lo ≤ℤ p.timestamp
    → SortedFrom lo qs
    → SortedFrom lo (insert p qs)
unfolding insert
insert-SortedFrom lo p [] h s = (h, tt)
insert-SortedFrom lo p (q ∷ qs) h s = elim (Bool-cases (before q p)) [
  | inl e ↦ rw e (s.0, insert-SortedFrom q.timestamp p qs (ground arith) s.1)
  | inr e ↦ rw e (h, (ground arith, s.1))
]

pub insert-IsSorted : (p : Datapoint) (qs : List Datapoint) → IsSorted qs → IsSorted (insert p qs)
unfolding insert
insert-IsSorted p [] s = tt
insert-IsSorted p (q ∷ qs) s = elim (Bool-cases (before q p)) [
  | inl e ↦ rw e (insert-SortedFrom q.timestamp p qs (ground arith) s)
  | inr e ↦ rw e (ground arith, s)
]

pub stable_sort-IsSorted : (ps : List Datapoint) → IsSorted (stable_sort ps)
unfolding stable_sort
stable_sort-IsSorted [] = tt
stable_sort-IsSorted (p ∷ ps) = insert-IsSorted p (stable_sort ps) (stable_sort-IsSorted ps)

insert-id : (p : Datapoint) (ps : List Datapoint) → SortedFrom p.timestamp ps → insert p ps ≡ p ∷ ps
unfolding insert
insert-id p [] s = refl
insert-id p (q ∷ qs) s = ground arith

pub SortedFrom-IsSorted : (lo : ℤ) (ps : List Datapoint) → SortedFrom lo ps → IsSorted ps
SortedFrom-IsSorted lo [] s = tt
SortedFrom-IsSorted lo (p ∷ ps) s = s.1

-- A sorted list is left as it is.
pub stable_sort-id : (ps : List Datapoint) → IsSorted ps → stable_sort ps ≡ ps
unfolding stable_sort
stable_sort-id [] s = refl
stable_sort-id (p ∷ ps) s =
    rw (stable_sort-id ps (SortedFrom-IsSorted p.timestamp ps s)) (insert-id p ps s)

length-insert : (p : Datapoint) (ps : List Datapoint) → length (insert p ps) ≡ suc (length ps)
unfolding insert
length-insert p [] = refl
length-insert p (q ∷ qs) = ground (arith, length-insert p qs)

pub length-stable_sort : (ps : List Datapoint) → length (stable_sort ps) ≡ length ps
unfolding stable_sort
length-stable_sort [] = refl
length-stable_sort (p ∷ ps) = omega (arith, length-insert p (stable_sort ps), length-stable_sort ps)

-- The datapoints with the timestamp `t`, in their order.
abbrev pub versions : ℤ → List Datapoint → List Datapoint
versions t [] = []
versions t (p ∷ ps) = if eqb_ℤ p.timestamp t then p ∷ versions t ps else versions t ps

versions-insert :
    (t : ℤ) (p : Datapoint) (qs : List Datapoint) → versions t (insert p qs) ≡ versions t (p ∷ qs)
unfolding insert
versions-insert t p [] = refl
versions-insert t p (q ∷ qs) = ground (arith, versions-insert t p qs)

-- Stability: sorting keeps the order of the datapoints that share a timestamp.
pub versions-stable_sort :
    (t : ℤ) (ps : List Datapoint) → versions t (stable_sort ps) ≡ versions t ps
unfolding stable_sort
versions-stable_sort t [] = refl
versions-stable_sort t (p ∷ ps) =
    rw (versions-insert t p (stable_sort ps), versions-stable_sort t ps)

insert-Perm : (p : Datapoint) (qs : List Datapoint) → Perm (insert p qs) (p ∷ qs)
unfolding insert
insert-Perm p [] = Perm.refl (p ∷ [])
insert-Perm p (q ∷ qs) = elim (Bool-cases (before q p)) [
  | inl e ↦ rw e (Perm.trans (Perm.cons q (insert-Perm p qs)) (Perm.swap p q qs))
  | inr e ↦ rw e (Perm.refl (p ∷ q ∷ qs))
]

pub stable_sort-Perm : (ps : List Datapoint) → Perm (stable_sort ps) ps
unfolding stable_sort
stable_sort-Perm [] = Perm.refl []
stable_sort-Perm (p ∷ ps) =
    Perm.trans (insert-Perm p (stable_sort ps)) (Perm.cons p (stable_sort-Perm ps))
