-- ===== src/Db/WriteBuffer/Blocks.antt =====
-- A list of blocks of one size, indexed by quotient and remainder, is one flat list.
use vqro.Base.{
  flatten, ℕ, zero, suc, ◌-◌, ◌*◌, ◌/◌, ◌%◌, ◌≤◌, ◌<◌, Option, none, some, List, [], ◌∷◌, ◌++◌, ◌≡◌,
  refl, ap, sym, ◌∙◌, length, get_elem?, set, take, arith, length-append, append_assoc, append-nil,
}
use native.Mathlib.Decide.{dec_lt}
use native.Mathlib.Nat.{div-eq_of_lt, mod-eq_of_lt, mod-eq-sub-mod, div-eq-sub-div}

pub quotient_step : (k i : ℕ) → 0 < k → k ≤ i → i / k ≡ suc ((i - k) / k)
quotient_step k i pos h = div-eq-sub-div pos h ∙ omega arith

module _ {ℓ} {A : Type ℓ} where
  -- Every block has `k` elements.
  abbrev pub Blocks : ℕ → List (List A) → Type 0
  Blocks k [] = Unit
  Blocks k (b ∷ bs) = (length b ≡ k) × Blocks k bs

  pub length-flatten :
      (k : ℕ) (bs : List (List A)) → Blocks k bs → length (flatten bs) ≡ k * length bs
  length-flatten k [] h = omega arith
  length-flatten k (b ∷ bs) h =
      omega (arith, length-append b (flatten bs), length-flatten k bs h.1, h.0)

  pub get_elem?-append_left :
      (xs ys : List A) (i : ℕ) → i < length xs → get_elem? (xs ++ ys) i ≡ get_elem? xs i
  get_elem?-append_left [] ys i h = elim h [ ]
  get_elem?-append_left (x ∷ xs) ys zero h = refl
  get_elem?-append_left (x ∷ xs) ys (suc i) h = get_elem?-append_left xs ys i (omega arith)

  pub get_elem?-append_right :
      (xs ys : List A) (i : ℕ)
      → length xs ≤ i
      → get_elem? (xs ++ ys) i ≡ get_elem? ys (i - length xs)
  get_elem?-append_right [] ys i h = ap (get_elem? ys) (omega arith)
  get_elem?-append_right (x ∷ xs) ys zero h = absurd (omega arith)
  get_elem?-append_right (x ∷ xs) ys (suc i) h =
      get_elem?-append_right xs ys i (omega arith) ∙ ap (get_elem? ys) (omega arith)

  pub set-append_left :
      (xs ys : List A) (i : ℕ) (v : A) → i < length xs → set (xs ++ ys) i v ≡ set xs i v ++ ys
  set-append_left [] ys i v h = elim h [ ]
  set-append_left (x ∷ xs) ys zero v h = refl
  set-append_left (x ∷ xs) ys (suc i) v h =
      ap (λ (l : List A). x ∷ l) (set-append_left xs ys i v (omega arith))

  pub set-append_right :
      (xs ys : List A) (i : ℕ) (v : A)
      → length xs ≤ i
      → set (xs ++ ys) i v ≡ xs ++ set ys (i - length xs) v
  set-append_right [] ys i v h = ap (λ n. set ys n v) (omega arith)
  set-append_right (x ∷ xs) ys zero v h = absurd (omega arith)
  set-append_right (x ∷ xs) ys (suc i) v h =
      ap (λ (l : List A). x ∷ l)
        (set-append_right xs ys i v (omega arith) ∙ ap (λ n. xs ++ set ys n v) (omega arith))

  pub length-set : (xs : List A) (i : ℕ) (v : A) → length (set xs i v) ≡ length xs
  length-set [] i v = refl
  length-set (x ∷ xs) zero v = refl
  length-set (x ∷ xs) (suc i) v = ap suc (length-set xs i v)

  abbrev pub in_block : Option (List A) → ℕ → Option A
  in_block none j = none
  in_block (some b) j = get_elem? b j

  abbrev pub set_block : List (List A) → ℕ → Option (List A) → ℕ → A → List (List A)
  set_block bs q none j v = bs
  set_block bs q (some b) j v = set bs q (set b j v)

module _ {ℓ} {A : Type ℓ} (k : ℕ) (pos : 0 < k) where
  pub get_elem?-flatten :
      (bs : List (List A)) (i : ℕ)
      → Blocks k bs
      → in_block (get_elem? bs (i / k)) (i % k) ≡ get_elem? (flatten bs) i
  get_elem?-flatten [] i h = refl
  get_elem?-flatten (b ∷ bs) i h = elim (dec_lt i k) [
    | yes lt ↦
        rw (div-eq_of_lt lt, mod-eq_of_lt lt)
          (sym (get_elem?-append_left b (flatten bs) i (omega (arith, h.0))))
    | no ge ↦
        rw (quotient_step k i pos (omega arith), mod-eq-sub-mod {n = i} {m = k} (omega arith))
          (get_elem?-flatten bs (i - k) h.1
            ∙ ap (get_elem? (flatten bs)) (omega (arith, h.0))
            ∙ sym (get_elem?-append_right b (flatten bs) i (omega (arith, h.0))))
  ]

  pub flatten-set_block :
      (bs : List (List A)) (i : ℕ) (v : A)
      → Blocks k bs
      → flatten (set_block bs (i / k) (get_elem? bs (i / k)) (i % k) v) ≡ set (flatten bs) i v
  flatten-set_block [] i v h = refl
  flatten-set_block (b ∷ bs) i v h = elim (dec_lt i k) [
    | yes lt ↦
        rw (div-eq_of_lt lt, mod-eq_of_lt lt)
          (sym (set-append_left b (flatten bs) i v (omega (arith, h.0))))
    | no ge ↦
        rw (quotient_step k i pos (omega arith), mod-eq-sub-mod {n = i} {m = k} (omega arith))
          (skip_block (get_elem? bs ((i - k) / k))
            ∙ ap (λ (l : List A). b ++ l) (flatten-set_block bs (i - k) v h.1)
            ∙ ap (λ n. b ++ set (flatten bs) n v) (omega (arith, h.0))
            ∙ sym (set-append_right b (flatten bs) i v (omega (arith, h.0))))
  ]
    where
      skip_block :
          (o : Option (List A))
          → flatten (set_block (b ∷ bs) (suc ((i - k) / k)) o ((i - k) % k) v)
            ≡ b ++ flatten (set_block bs ((i - k) / k) o ((i - k) % k) v)
      skip_block none = refl
      skip_block (some c) = refl

  pub Blocks-set_block :
      (bs : List (List A)) (q : ℕ) (j : ℕ) (v : A)
      → Blocks k bs
      → Blocks k (set_block bs q (get_elem? bs q) j v)
  Blocks-set_block [] q j v h = tt
  Blocks-set_block (b ∷ bs) zero j v h = (length-set b j v ∙ h.0, h.1)
  Blocks-set_block (b ∷ bs) (suc q) j v h = later (get_elem? bs q) (Blocks-set_block bs q j v h.1)
    where
      later :
          (o : Option (List A))
          → Blocks k (set_block bs q o j v)
          → Blocks k (set_block (b ∷ bs) (suc q) o j v)
      later none r = h
      later (some c) r = (h.0, r)

module _ {ℓ} {A : Type ℓ} where
  pub Blocks-append :
      (k : ℕ) (bs cs : List (List A)) → Blocks k bs → Blocks k cs → Blocks k (bs ++ cs)
  Blocks-append k [] cs h r = r
  Blocks-append k (b ∷ bs) cs h r = (h.0, Blocks-append k bs cs h.1 r)

  pub flatten-append : (bs : List (List A)) (b : List A) → flatten (bs ++ b ∷ []) ≡ flatten bs ++ b
  flatten-append [] b = append-nil b
  flatten-append (c ∷ bs) b =
      ap (λ (l : List A). c ++ l) (flatten-append bs b) ∙ sym (append_assoc c (flatten bs) b)

  pub take-append_left : (n : ℕ) (xs ys : List A) → n ≤ length xs → take n (xs ++ ys) ≡ take n xs
  take-append_left zero xs ys h = refl
  take-append_left (suc n) [] ys h = absurd (omega arith)
  take-append_left (suc n) (x ∷ xs) ys h =
      ap (λ (l : List A). x ∷ l) (take-append_left n xs ys (omega arith))

  -- Storing at the end of the part in use makes it one longer.
  pub take-set :
      (n : ℕ) (xs : List A) (v : A)
      → n < length xs
      → take (suc n) (set xs n v) ≡ take n xs ++ v ∷ []
  take-set n [] v h = elim h [ ]
  take-set zero (x ∷ xs) v h = refl
  take-set (suc n) (x ∷ xs) v h = ap (λ (l : List A). x ∷ l) (take-set n xs v (omega arith))
