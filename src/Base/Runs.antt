-- ===== src/Base/Runs.antt =====
-- How a piece of code ends: it returns, it throws and leaves its state behind, or it is still
-- running after the rounds that it was given.

pub data Outcome {ℓ} (A : Type ℓ) : Type ℓ where
  returned : A → Outcome A
  thrown : A → Outcome A
  running : Outcome A

-- The state in which the code ends, if it ends, has the property.
abbrev pub Ends {ℓ κ} : {A : Type ℓ} → (A → Type κ) → Outcome A → Type κ
Ends P (returned a) = P a
Ends P (thrown a) = P a
Ends P running = Unit

module _ {ℓ κ} {A : Type ℓ} {B : Type κ} where
  -- What follows a piece of code; where it throws, `f` completes the state that is left behind.
  abbrev pub and_then : Outcome A → (A → Outcome B) → (A → B) → Outcome B
  and_then (returned a) k f = k a
  and_then (thrown a) k f = thrown (f a)
  and_then running k f = running

module _ {ℓ κ μ ν} {A : Type ℓ} {B : Type κ} where
  pub and_then-Ends :
      (P : A → Type μ) (Q : B → Type ν) (o : Outcome A) (k : A → Outcome B) (f : A → B)
      → Ends P o
      → ((a : A) → P a → Ends Q (k a))
      → ((a : A) → P a → Q (f a))
      → Ends Q (and_then o k f)
  and_then-Ends P Q (returned a) k f h hk hf = hk a h
  and_then-Ends P Q (thrown a) k f h hk hf = hf a h
  and_then-Ends P Q running k f h hk hf = tt

module _ {ℓ μ ν} {A : Type ℓ} where
  pub Ends-map :
      (P : A → Type μ) (Q : A → Type ν) (o : Outcome A)
      → ((a : A) → P a → Q a)
      → Ends P o
      → Ends Q o
  Ends-map P Q (returned a) g h = g a h
  Ends-map P Q (thrown a) g h = g a h
  Ends-map P Q running g h = tt

module _ {ℓ} {A : Type ℓ} where
  -- The code ends in the rounds that it was given.
  abbrev pub Halts : Outcome A → Type 0
  Halts (returned a) = Unit
  Halts (thrown a) = Unit
  Halts running = ⊥
