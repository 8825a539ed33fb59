-- ===== src/FileUtil/Read.antt =====
-- ReadValues: what it returns where every read ends with a whole value, and where one does not.
use vqro.Base.{
  ℕ, zero, suc, ◌-◌, ◌%◌, ◌*◌, ◌≤◌, ◌<◌, List, [], ◌∷◌, ◌++◌, take, drop, returned, ◌≡◌, sym, ap,
  ◌∙◌, arith, append_assoc, append-nil, take_append-drop,
}
use native.Mathlib.Nat.{mod-eq_of_lt, mul-pos, mul-mod_left}
use vqro.FileUtil.{Answer, moved, interrupted, failed, read_loop, read_values}

-- The operating system does not fail, and gives whole values until all the wanted bytes have been
-- read, or the file is at its end.
abbrev pub Gives : ℕ → List Answer → ℕ → List ℕ → Type 0
Gives width [] wanted file = wanted ≡ 0
Gives width (moved zero ∷ answers) wanted file = file ≡ []
Gives width (moved (suc n) ∷ answers) wanted file =
    (suc n ≤ wanted)
    × (suc n % width ≡ 0)
    × Gives width answers (wanted - suc n) (drop (suc n) file)
Gives width (interrupted ∷ answers) wanted file = Gives width answers wanted file
Gives width (failed ∷ answers) wanted file = ⊥

read_loop_all :
    (width : ℕ) (answers : List Answer) (wanted : ℕ) (filled file : List ℕ)
    → Gives width answers wanted file
    → read_loop width answers wanted filled file ≡ returned (filled ++ take wanted file)
unfolding read_loop
read_loop_all width answers zero filled file g = ap returned (sym (append-nil filled))
read_loop_all width [] (suc wanted) filled file g = absurd (omega arith)
read_loop_all width (moved zero ∷ answers) (suc wanted) filled file g =
    rw g (ap returned (sym (append-nil filled)))
read_loop_all width (moved (suc n) ∷ answers) (suc wanted) filled file g =
    let whole : suc n - suc n % width ≡ suc n = omega (arith, g.1) in
    let take_rest = take_append-drop (suc n) (suc wanted - suc n) file in
    rw (read_loop, whole)
      (read_loop_all width answers (suc wanted - suc n) (filled ++ take (suc n) file)
          (drop (suc n) file) g.2
        ∙ ap returned (
            append_assoc filled (take (suc n) file) (take (suc wanted - suc n) (drop (suc n) file))
            ∙ ap (λ (l : List ℕ). filled ++ l)
                (take_rest ∙ ap (λ k. take k file) {y = suc wanted} (omega (arith, g.0)))))
read_loop_all width (interrupted ∷ answers) (suc wanted) filled file g =
    read_loop_all width answers (suc wanted) filled file g
read_loop_all width (failed ∷ answers) (suc wanted) filled file g = elim g [ ]

-- Where every read gives whole values and the reads go on until all bytes have been read or the file
-- is at its end, ReadValues returns the bytes of the file from its position on, as many as asked for
-- or as there are.
pub read_values_all :
    (width : ℕ) (answers : List Answer) (len : ℕ) (file : List ℕ)
    → Gives width answers (len * width) file
    → read_values width answers len file ≡ returned (take (len * width) file)
unfolding read_values
read_values_all width answers len file g = read_loop_all width answers (len * width) [] file g

part_lost :
    (width n total : ℕ) (answers : List Answer) (file : List ℕ)
    → 0 < n
    → n < width
    → 0 < total
    → read_loop width (moved n ∷ answers) total [] file
      ≡ read_loop width answers total [] (drop n file)
unfolding read_loop
part_lost width zero total answers file pos lt more = absurd (omega arith)
part_lost width (suc n) zero answers file pos lt more = absurd (omega arith)
part_lost width (suc n) (suc total) answers file pos lt more =
    let none_whole : suc n - suc n % width ≡ 0 = omega (arith, mod-eq_of_lt lt) in
    rw (read_loop, none_whole)
      (ap (λ k. read_loop width answers k [] (drop (suc n) file)) {y = suc total} (omega arith))

Gives-rest :
    (width total : ℕ) (file : List ℕ)
    → 0 < total
    → total % width ≡ 0
    → Gives width (moved total ∷ []) total file
Gives-rest width zero file more e = absurd (omega arith)
Gives-rest width (suc total) file more e = (omega arith, e, omega arith)

-- A first read that gives fewer bytes than a value has loses them: where the next read gives all that
-- is asked for, ReadValues returns bytes that begin in the middle of the first value.
pub read_values_shifted :
    (width n len : ℕ) (file : List ℕ)
    → 0 < n
    → n < width
    → 0 < len
    → read_values width (moved n ∷ moved (len * width) ∷ []) len file
      ≡ returned (take (len * width) (drop n file))
unfolding read_values read_loop
read_values_shifted width n len file pos lt more =
    let total : 0 < len * width = mul-pos more (omega arith) in
    part_lost width n (len * width) (moved (len * width) ∷ []) file pos lt total
    ∙ read_loop_all width (moved (len * width) ∷ []) (len * width) [] (drop n file)
        (Gives-rest width (len * width) (drop n file) total (mul-mod_left len width))
