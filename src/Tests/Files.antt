-- ===== src/Tests/Files.antt =====
-- The I/O loops of fileutil.
use vqro.Base.{ℕ, pos, ◌≡◌, refl, List, [], ◌∷◌, arith, returned, ℤ}
use vqro.FileUtil.{Answer, moved, interrupted, write_vector, read_values}
use vqro.FileUtil.Write.{write_vector_all}
use vqro.FileUtil.Read.{read_values_shifted}

abbrev two_vectors : List (List ℕ)
two_vectors = (1 ∷ 2 ∷ []) ∷ (3 ∷ []) ∷ []

abbrev byte_by_byte : List Answer
byte_by_byte = moved 1 ∷ interrupted ∷ moved 1 ∷ moved 1 ∷ moved 1 ∷ []

write_vector_test : write_vector byte_by_byte two_vectors (9 ∷ []) ≡ returned (9 ∷ 1 ∷ 2 ∷ 3 ∷ [])
unfolding write_vector
write_vector_test = refl

write_vector_all_example :
    write_vector byte_by_byte two_vectors (9 ∷ []) ≡ returned (9 ∷ 1 ∷ 2 ∷ 3 ∷ [])
write_vector_all_example = write_vector_all byte_by_byte two_vectors (9 ∷ []) tt (omega arith)

read_values_shifted_example :
    read_values 2 (moved 1 ∷ moved 4 ∷ []) 2 (1 ∷ 2 ∷ 3 ∷ 4 ∷ 5 ∷ [])
    ≡ returned (2 ∷ 3 ∷ 4 ∷ 5 ∷ [])
read_values_shifted_example =
    read_values_shifted 2 1 2 (1 ∷ 2 ∷ 3 ∷ 4 ∷ 5 ∷ []) (omega arith) (omega arith) (omega arith)

abbrev three_starts : List ℤ
three_starts = pos 1 ∷ pos 2 ∷ pos 3 ∷ []
