-- ===== src/Db/Directory/Find/Laws.antt =====
-- DatapointDirectory::FindFirstPotentialFile: when it ends, and what it finds.
use vqro.Base.{
  ℕ, zero, suc, ◌+◌, ◌-◌, ◌/◌, ◌≤◌, ◌<◌, ℤ, ◌≤ℤ◌, ◌<ℤ◌, some, List, [], ◌∷◌, ◌≡◌, ◌≢◌, refl, ltb,
  ltb_ℤ, get_elem?, length, All, arith, Bool-cases, inl, inr, ap, true,
}
use vqro.Db.Directory.Find.{found, out_of_bounds, searching, find_loop, find_first_potential_file}

pub get_elem?-All {ℓ κ} :
    {A : Type ℓ} (P : A → Type κ) (xs : List A) (i : ℕ)
    → i < length xs
    → All P xs
    → (x : A) × (get_elem? xs i ≡ some x) × P x
get_elem?-All P [] i h a = elim h [ ]
get_elem?-All P (x ∷ xs) zero h a = (x, refl, a.0)
get_elem?-All P (x ∷ xs) (suc i) h a = get_elem?-All P xs i (omega arith) a.1

find_loop_diverges :
    (rounds : ℕ) (mins : List ℤ) (t : ℤ) (left middle : ℕ)
    → 3 ≤ length mins
    → All (λ x. x <ℤ t) mins
    → left < length mins
    → find_loop rounds mins t left (length mins) middle ≡ searching
unfolding find_loop
find_loop_diverges zero mins t left middle three below h = refl
find_loop_diverges (suc rounds) mins t left middle three below h =
    let mid : ℕ = (length mins - left) / 2 in
    let (x, e, lt) = get_elem?-All (λ x. x <ℤ t) mins mid (omega arith) below in
    let ih = find_loop_diverges rounds mins t (mid + 1) mid three below (omega arith) in
    rw e (ground (arith, ih))

-- With three files or more, all of which begin before the timestamp that is looked for, the loop
-- never ends, however many rounds it is given.
pub find_first_potential_file_diverges :
    (rounds : ℕ) (mins : List ℤ) (t : ℤ)
    → 3 ≤ length mins
    → All (λ x. x <ℤ t) mins
    → find_first_potential_file rounds mins t ≡ searching
unfolding find_first_potential_file
find_first_potential_file_diverges rounds mins t three below =
    find_loop_diverges rounds mins t 0 0 three below (omega arith)

-- The index is that of the last file that begins at `t` or before, or 0 if there is none.
pub data IsLastUpTo (mins : List ℤ) (t : ℤ) (i : ℕ) : Type 0 where
  none_up_to : i ≡ 0 → All (λ x. t <ℤ x) mins → IsLastUpTo mins t i
  last_up_to :
      (x : ℤ)
      → get_elem? mins i ≡ some x
      → x ≤ℤ t
      → ((j : ℕ) (y : ℤ) → i < j → get_elem? mins j ≡ some y → t <ℤ y)
      → IsLastUpTo mins t i

get_elem?-lt {ℓ} :
    {A : Type ℓ} (xs : List A) (i : ℕ) → i < length xs → (x : A) × (get_elem? xs i ≡ some x)
get_elem?-lt [] i h = elim h [ ]
get_elem?-lt (x ∷ xs) zero h = (x, refl)
get_elem?-lt (x ∷ xs) (suc i) h = get_elem?-lt xs i (omega arith)

find_loop-ne-out_of_bounds :
    (rounds : ℕ) (mins : List ℤ) (t : ℤ) (left right middle : ℕ)
    → right ≤ length mins
    → find_loop rounds mins t left right middle ≢ out_of_bounds
unfolding find_loop
find_loop-ne-out_of_bounds zero mins t left right middle h e = cc
find_loop-ne-out_of_bounds (suc rounds) mins t left right middle h e =
    elim (Bool-cases (ltb left right)) [
      | inl more ↦
          let mid : ℕ = (right - left) / 2 in
          let (x, at) = get_elem?-lt mins mid (ground arith) in
          let lower = find_loop-ne-out_of_bounds rounds mins t left mid mid (ground arith) in
          let upper = find_loop-ne-out_of_bounds rounds mins t (mid + 1) right mid h in
          ground (arith, at)
      | inr done ↦ ground arith
    ]

-- The loop never reads outside of the vector.
pub find_first_potential_file-ne-out_of_bounds :
    (rounds : ℕ) (mins : List ℤ) (t : ℤ) → find_first_potential_file rounds mins t ≢ out_of_bounds
unfolding find_first_potential_file
find_first_potential_file-ne-out_of_bounds rounds mins t =
    find_loop-ne-out_of_bounds rounds mins t 0 (length mins) 0 (omega arith)

find_loop_early :
    (rounds : ℕ) (mins : List ℤ) (t : ℤ) (right middle : ℕ)
    → right ≤ length mins
    → right < rounds
    → All (λ x. t <ℤ x) mins
    → (right ≡ 0 → middle ≡ 0)
    → find_loop rounds mins t 0 right middle ≡ found 0
unfolding find_loop
find_loop_early zero mins t right middle h fuel above m = absurd (omega arith)
find_loop_early (suc rounds) mins t zero middle h fuel above m = ap found (m refl)
find_loop_early (suc rounds) mins t (suc right) middle h fuel above m =
    let mid : ℕ = (suc right - 0) / 2 in
    let (x, at, lt) = get_elem?-All (λ x. t <ℤ x) mins mid (omega arith) above in
    let ih = find_loop_early rounds mins t mid mid (omega arith) (omega arith) above (λ e. e) in
    rw at (ground (arith, ih))

-- Where every file begins after the timestamp, the search ends at the first file, within one round
-- more than there are files.
pub find_first_potential_file_early :
    (rounds : ℕ) (mins : List ℤ) (t : ℤ)
    → length mins < rounds
    → All (λ x. t <ℤ x) mins
    → find_first_potential_file rounds mins t ≡ found 0
unfolding find_first_potential_file
find_first_potential_file_early rounds mins t fuel above =
    find_loop_early rounds mins t (length mins) 0 (omega arith) fuel above (λ _. refl)

-- With two files at most, in order, three rounds find the last file that begins at the timestamp or
-- before.
pub find_first_potential_file-IsLastUpTo :
    (a b t : ℤ)
    → a ≤ℤ b
    → (i : ℕ) × (find_first_potential_file 3 (a ∷ b ∷ []) t ≡ found i) × IsLastUpTo (a ∷ b ∷ []) t i
unfolding find_first_potential_file find_loop
find_first_potential_file-IsLastUpTo a b t h = elim (Bool-cases (ltb_ℤ t b)) [
  | inl before_b ↦ elim (Bool-cases (ltb_ℤ t a)) [
    | inl before_a ↦
        (0, rw (before_b, before_a), none_up_to refl (ground arith, (ground arith, tt)))
    | inr from_a ↦ (0, ground arith, last_up_to a refl (ground arith) (two_above before_b))
  ]
  | inr from_b ↦ (1, ground arith, last_up_to b refl (ground arith) none_above)
]
  where
    two_above :
        ltb_ℤ t b ≡ true → (j : ℕ) (y : ℤ) → 0 < j → get_elem? (a ∷ b ∷ []) j ≡ some y → t <ℤ y
    two_above e zero y lt at = absurd (omega arith)
    two_above e (suc zero) y lt at = ground arith
    two_above e (suc (suc j)) y lt at = cc

    none_above : (j : ℕ) (y : ℤ) → 1 < j → get_elem? (a ∷ b ∷ []) j ≡ some y → t <ℤ y
    none_above zero y lt at = absurd (omega arith)
    none_above (suc zero) y lt at = absurd (omega arith)
    none_above (suc (suc j)) y lt at = cc
