-- ===== src/Tests/Names.antt =====
-- File names, series keys and arguments.
use vqro.Base.{
  ℕ, pos, negsuc, ◌≡◌, refl, List, [], ◌∷◌, arith, Option, none, some, true, ◌==◌, if◌then◌else◌,
}
use vqro.Client.{Parsers}
use vqro.Db.FileName.{SparseFile, DenseFile, ConstantFile, sparse_name, sparse_from_filename}
use vqro.Db.FileName.Laws.{sparse_from_filename-sparse_name}
use vqro.Db.Database.GetSeries.{series_key, text_lt}
use vqro.Db.Database.GetSeries.Laws.{series_key_collision}

abbrev a_dense : DenseFile
a_dense = record { min_timestamp = negsuc 9; max_timestamp = pos 70; duration = pos 10 }

abbrev optimized_sparse : SparseFile
optimized_sparse = record { min_timestamp = pos 5; max_timestamp = pos 70; optimized = true }

sparse_from_filename-sparse_name_example :
    sparse_from_filename 65 (sparse_name optimized_sparse) ≡ none
sparse_from_filename-sparse_name_example =
    sparse_from_filename-sparse_name optimized_sparse 65 (omega arith, omega arith)
      (omega arith, omega arith)

abbrev a_constant : ConstantFile
a_constant = record {
  min_timestamp = pos 5;
  max_timestamp = pos 35;
  duration = pos 10;
  count = pos 3;
  value = 0;
}

-- strtod on the text "0", and on no other.
abbrev strtod_zero : List ℕ → Option (ℕ × List ℕ)
strtod_zero [] = none
strtod_zero (c ∷ cs) = if c == b'0' then some (0, cs) else none

series_key_collision_example :
    series_key ((b'a' ∷ [], b'1' ∷ b';' ∷ b'b' ∷ b'=' ∷ b'2' ∷ []) ∷ [])
    ≡ series_key ((b'a' ∷ [], b'1' ∷ []) ∷ (b'b' ∷ [], b'2' ∷ []) ∷ [])
unfolding text_lt
series_key_collision_example =
    series_key_collision (b'a' ∷ []) (b'1' ∷ []) (b'b' ∷ []) (b'2' ∷ []) refl

-- Parsers that take every text for "-5ms".
abbrev five_ms : Parsers
five_ms = record {
  match_relative = λ text. some (b'-' ∷ b'5' ∷ [], b'm' ∷ b's' ∷ []);
  to_number = λ digits. some (negsuc 4);
  epoch = λ text. none;
  match_regex = λ text. none;
  match_exact = λ text. none;
}
