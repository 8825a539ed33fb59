-- ===== src/Db/DenseFile/Write/Laws.antt =====
-- Which values DenseFile::Write takes.
use vqro.Base.{
  ℕ, zero, suc, ◌+◌, ◌<◌, ◌≤◌, List, [], ◌∷◌, map, take, drop, length, get_elem?, none, some, ◌≡◌,
  refl, ap, arith, Option-cases, inl, inr,
}
use vqro.Db.Datapoint.{Datapoint}
use vqro.Db.DenseFile.Write.{take_values}

pub drop-get_elem? :
    (it : ℕ) (ps : List Datapoint) (p : Datapoint)
    → get_elem? ps it ≡ some p
    → drop it ps ≡ p ∷ drop (suc it) ps
drop-get_elem? it [] p e = cc
drop-get_elem? zero (q ∷ ps) p e = let same : q ≡ p = cc in ap (λ r. r ∷ ps) same
drop-get_elem? (suc it) (q ∷ ps) p e = drop-get_elem? it ps p e

get_elem?-none : (it : ℕ) (ps : List Datapoint) → get_elem? ps it ≡ none → length ps ≤ it
get_elem?-none it [] e = omega arith
get_elem?-none zero (q ∷ ps) e = cc
get_elem?-none (suc it) (q ∷ ps) e = omega (arith, get_elem?-none it ps e)

-- Where the buffer goes on behind them, the values that DenseFile::Write takes for the `n` datapoints
-- from the cursor on are those of the `n` datapoints behind the first: the value at the cursor is not
-- among them, and the one behind the last is.
pub take_values-shifted :
    (behind n : ℕ) (buffer : List Datapoint) (it : ℕ)
    → it + n < length buffer
    → take_values behind n buffer it
      ≡ map (λ (p : Datapoint). p.value) (take n (drop (it + 1) buffer))
unfolding take_values
take_values-shifted behind zero buffer it h = refl
take_values-shifted behind (suc n) buffer it h = elim (Option-cases (get_elem? buffer (it + 1))) [
  | inl e ↦ absurd (omega (arith, h, get_elem?-none (it + 1) buffer e))
  | inr (p, e) ↦
      let next : suc (it + 1) ≡ it + 1 + 1 = omega arith in
      rw (e, drop-get_elem? (it + 1) buffer p e, next)
        (ap (λ (vs : List ℕ). p.value ∷ vs)
          (take_values-shifted behind n buffer (it + 1) (omega (arith, h))))
]
