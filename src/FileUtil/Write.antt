-- ===== src/FileUtil/Write.antt =====
-- WriteVector and WriteValues write every byte, however the writes are cut.
use vqro.Base.{
  ℕ, zero, suc, ◌-◌, ◌+◌, ◌≤◌, ◌<◌, List, [], ◌∷◌, ◌++◌, length, take, drop, flatten, leb, Outcome,
  returned, thrown, running, ◌≡◌, refl, sym, ap, ◌∙◌, arith, append_assoc, append-nil,
  length-append, length-drop, drop-append, drop_all, take_all, take-drop_append, Bool-cases, inl,
  inr, take_append-drop,
}
use native.Mathlib.Decide.{dec_lt}
use vqro.FileUtil.{Answer, moved, interrupted, failed, advance, write_vector, write_values}

-- The operating system never fails, and takes at least a byte of what it is given.
abbrev pub Goes : List Answer → Type 0
Goes [] = Unit
Goes (moved zero ∷ answers) = ⊥
Goes (moved (suc n) ∷ answers) = Goes answers
Goes (interrupted ∷ answers) = Goes answers
Goes (failed ∷ answers) = ⊥

-- How many of the calls move bytes.
abbrev pub moves : List Answer → ℕ
moves [] = 0
moves (moved n ∷ answers) = suc (moves answers)
moves (interrupted ∷ answers) = moves answers
moves (failed ∷ answers) = moves answers

flatten-advance : (n : ℕ) (vs : List (List ℕ)) → flatten (advance n vs) ≡ drop n (flatten vs)
unfolding advance
flatten-advance n [] = sym (drop_all n [] (omega arith))
flatten-advance n (v ∷ vs) = elim (Bool-cases (leb (length v) n)) [
  | inl e ↦
      rw (e, drop-append n v (flatten vs), drop_all n v (ground arith))
        (flatten-advance (n - length v) vs)
  | inr e ↦
      rw (e, drop-append n v (flatten vs))
        (ap (λ k. drop n v ++ drop k (flatten vs)) {x = 0} (ground arith))
]

advance_all : (n : ℕ) (vs : List (List ℕ)) → length (flatten vs) ≤ n → advance n vs ≡ []
unfolding advance
advance_all n [] h = refl
advance_all n (v ∷ vs) h =
    let small : length v ≤ n = omega (arith, length-append v (flatten vs)) in
    elim (Bool-cases (leb (length v) n)) [
      | inl e ↦ rw e (advance_all (n - length v) vs (omega (arith, length-append v (flatten vs))))
      | inr e ↦ absurd (ground arith)
    ]

-- What is written and what is left make up the whole, whatever the number.
whole_file : (n : ℕ) (bs file : List ℕ) → (file ++ take n bs) ++ drop n bs ≡ file ++ bs
whole_file n bs file =
    append_assoc file (take n bs) (drop n bs)
    ∙ ap (λ (l : List ℕ). file ++ l) (take-drop_append n bs)

-- If the operating system does not fail, and makes more calls that move bytes than there are bytes,
-- then WriteVector returns, and has put the bytes of all vectors, in their order, at the end of the
-- file.
pub write_vector_all :
    (answers : List Answer) (vs : List (List ℕ)) (file : List ℕ)
    → Goes answers
    → length (flatten vs) < moves answers
    → write_vector answers vs file ≡ returned (file ++ flatten vs)
unfolding write_vector
write_vector_all answers [] file g h = ap returned (sym (append-nil file))
write_vector_all [] (v ∷ vs) file g h = absurd (omega arith)
write_vector_all (moved zero ∷ answers) (v ∷ vs) file g h = elim g [ ]
write_vector_all (moved (suc n) ∷ answers) (v ∷ vs) file g h =
    let bytes : List ℕ = flatten (v ∷ vs) in
    elim (dec_lt (suc n) (length bytes)) [
      | no ge ↦
          rw (write_vector, advance_all (suc n) (v ∷ vs) (omega arith))
            (ap (λ (l : List ℕ). returned (file ++ l)) (take_all (suc n) bytes (omega arith)))
      | yes lt ↦
          write_vector_all answers (advance (suc n) (v ∷ vs)) (file ++ take (suc n) bytes) g (
            omega
              (arith, h, ap length (flatten-advance (suc n) (v ∷ vs)), length-drop (suc n) bytes))
          ∙ ap (λ (l : List ℕ). returned ((file ++ take (suc n) bytes) ++ l))
              (flatten-advance (suc n) (v ∷ vs))
          ∙ ap returned (whole_file (suc n) bytes file)
    ]
write_vector_all (interrupted ∷ answers) (v ∷ vs) file g h =
    write_vector_all answers (v ∷ vs) file g h
write_vector_all (failed ∷ answers) (v ∷ vs) file g h = elim g [ ]

-- If the operating system does not fail, and makes at least as many calls that move bytes as there are
-- bytes, then WriteValues returns, and has put the bytes at the end of the file.
pub write_values_all :
    (answers : List Answer) (bs file : List ℕ)
    → Goes answers
    → length bs ≤ moves answers
    → write_values answers bs file ≡ returned (file ++ bs)
unfolding write_values
write_values_all answers [] file g h = ap returned (sym (append-nil file))
write_values_all [] (b ∷ bs) file g h = absurd (omega arith)
write_values_all (moved zero ∷ answers) (b ∷ bs) file g h = elim g [ ]
write_values_all (moved (suc n) ∷ answers) (b ∷ bs) file g h =
    write_values_all answers (drop n bs) (file ++ take (suc n) (b ∷ bs)) g
      (omega (arith, length-drop n bs))
    ∙ ap returned (whole_file (suc n) (b ∷ bs) file)
write_values_all (interrupted ∷ answers) (b ∷ bs) file g h =
    write_values_all answers (b ∷ bs) file g h
write_values_all (failed ∷ answers) (b ∷ bs) file g h = elim g [ ]

-- `after` is the file with a first part of the bytes behind it.
abbrev pub Partly : List ℕ → List ℕ → List ℕ → Type 0
Partly bs file after = (n : ℕ) × (after ≡ file ++ take n bs)

-- A call that returns has written all bytes, one that throws a first part of them.
abbrev pub Written : List ℕ → List ℕ → Outcome (List ℕ) → Type 0
Written bs file (returned after) = after ≡ file ++ bs
Written bs file (thrown after) = Partly bs file after
Written bs file running = Unit

Partly-later :
    (n : ℕ) (bs file after : List ℕ)
    → Partly (drop n bs) (file ++ take n bs) after
    → Partly bs file after
Partly-later n bs file after p = (
  n + p.0,
  p.1
      ∙ append_assoc file (take n bs) (take p.0 (drop n bs))
      ∙ ap (λ (l : List ℕ). file ++ l) (take_append-drop n p.0 bs),
)

Written-later :
    (n : ℕ) (bs rest file : List ℕ) (o : Outcome (List ℕ))
    → rest ≡ drop n bs
    → Written rest (file ++ take n bs) o
    → Written bs file o
Written-later n bs rest file (returned after) e w =
    w ∙ ap (λ (l : List ℕ). (file ++ take n bs) ++ l) e ∙ whole_file n bs file
Written-later n bs rest file (thrown after) e w = Partly-later n bs file after (rw e at w)
Written-later n bs rest file running e w = tt

-- Where WriteVector throws, the file has got a first part of the bytes of the vectors and nothing else
-- behind what it held; where it returns, it has got them all, in their order.
pub write_vector-Written :
    (answers : List Answer) (vs : List (List ℕ)) (file : List ℕ)
    → Written (flatten vs) file (write_vector answers vs file)
unfolding write_vector
write_vector-Written answers [] file = sym (append-nil file)
write_vector-Written [] (v ∷ vs) file = tt
write_vector-Written (moved n ∷ answers) (v ∷ vs) file =
    Written-later n (flatten (v ∷ vs)) (flatten (advance n (v ∷ vs))) file _
      (flatten-advance n (v ∷ vs))
      (write_vector-Written answers (advance n (v ∷ vs)) (file ++ take n (flatten (v ∷ vs))))
write_vector-Written (interrupted ∷ answers) (v ∷ vs) file =
    write_vector-Written answers (v ∷ vs) file
write_vector-Written (failed ∷ answers) (v ∷ vs) file = (0, sym (append-nil file))
