-- ===== src/Client/Stdin/Laws.antt =====
-- Lines of the standard input.
use vqro.Base.{
  ℕ, List, [], ◌∷◌, ◌++◌, ◌==◌, All, ◌≡◌, refl, ap, sym, ◌∙◌, append_assoc, append-nil, false,
}
use vqro.Client.Stdin.{get_lines, lines_from}

abbrev pub NoNewline : List ℕ → Type 0
NoNewline line = All (λ c. (c == b'\n') ≡ false) line

-- Each line with its newline.
abbrev pub unlines : List (List ℕ) → List ℕ
unlines [] = []
unlines (l ∷ ls) = l ++ b'\n' ∷ unlines ls

lines_from-rest : (front rest : List ℕ) → NoNewline rest → lines_from front rest ≡ []
lines_from-rest front [] n = refl
lines_from-rest front (c ∷ cs) n = rw (lines_from, n.0) (lines_from-rest (front ++ c ∷ []) cs n.1)

lines_from-line :
    (front line rest : List ℕ)
    → NoNewline line
    → lines_from front (line ++ b'\n' ∷ rest) ≡ (front ++ line) ∷ lines_from [] rest
lines_from-line front [] rest n = ap (λ l. l ∷ lines_from [] rest) (sym (append-nil front))
lines_from-line front (c ∷ cs) rest n =
    rw (lines_from, n.0)
      (lines_from-line (front ++ c ∷ []) cs rest n.1
        ∙ ap (λ l. l ∷ lines_from [] rest) (append_assoc front (c ∷ []) cs))

-- Lines without newlines, each written with a newline behind it, are read back as they are; what
-- follows the last newline is dropped, also where it is not empty.
pub get_lines-unlines :
    (ls : List (List ℕ)) (rest : List ℕ)
    → All NoNewline ls
    → NoNewline rest
    → get_lines (unlines ls ++ rest) ≡ ls
unfolding get_lines
get_lines-unlines [] rest n m = lines_from-rest [] rest m
get_lines-unlines (l ∷ ls) rest n m =
    ap (lines_from []) (append_assoc l (b'\n' ∷ unlines ls) rest)
    ∙ lines_from-line [] l (unlines ls ++ rest) n.0
    ∙ ap (λ (ms : List (List ℕ)). l ∷ ms) (get_lines-unlines ls rest n.1 m)
