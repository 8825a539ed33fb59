-- ===== src/Client/Write/Laws.antt =====
-- What the writing client sends.
use vqro.Base.{ℕ, suc, List, [], ◌∷◌, ◌++◌, Bool, true, ◌≡◌, refl}
use vqro.Client.Stdin.{Json}
use vqro.Client.Write.{
  WriteRequest, Line, send, skip, stop, throws, Written, ended, crashed, read_line, write_lines,
}

module _ {J : Type 0} (json : Json J) where
  -- The loop at a line whose outcome is given.
  abbrev pub round : (List WriteRequest → Written) → List WriteRequest → Line → Written
  round go out (send r) = go (out ++ r ∷ [])
  round go out skip = go out
  round go out (stop code) = ended code out
  round go out throws = crashed out

  pub write_lines-round :
      (running : ℕ → Bool) (k : ℕ) (line : List ℕ) (lines : List (List ℕ)) (out : List WriteRequest)
      → running k ≡ true
      → write_lines json running k (line ∷ lines) out
        ≡ round (write_lines json running (suc k) lines) out (read_line json line)
  unfolding write_lines
  write_lines-round running k line lines out on =
      rw (write_lines, on)
        (elim (read_line json line)
          as (λ l.
            elim l [
              | send r ↦ write_lines json running (suc k) lines (out ++ r ∷ [])
              | skip ↦ write_lines json running (suc k) lines out
              | stop code ↦ ended code out
              | throws ↦ crashed out
            ]
            ≡ round (write_lines json running (suc k) lines) out l) [
              | send r ↦ refl
              | skip ↦ refl
              | stop code ↦ refl
              | throws ↦ refl
            ])
