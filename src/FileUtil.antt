-- ===== src/FileUtil.antt =====
-- vqro/base/fileutil.{h,cc}: WriteVector, WriteValues and ReadValues. A byte is a number. The calls
-- of writev, write and read are answered by a list: the operating system takes or gives a number of
-- bytes, is interrupted, or fails. A list that is used up stands for code that is still running.
pub mod Write
pub mod Read
pub mod Handle
use vqro.Base.{
  ℕ, zero, suc, ◌-◌, ◌/◌, ◌%◌, ◌*◌, ◌+◌, List, [], ◌∷◌, ◌++◌, length, take, drop, flatten, leb, ltb,
  ◌==◌, if◌then◌else◌, Outcome, returned, thrown, running,
}

pub data Answer : Type 0 where
  moved : ℕ → Answer
  interrupted : Answer
  failed : Answer

-- WriteVector's step to the rest of the vectors after `written` bytes: those that are written in full
-- are passed, and the next one is cut.
unfoldable pub advance : ℕ → List (List ℕ) → List (List ℕ)
advance written [] = []
advance written (v ∷ vs) =
    let rest : List (List ℕ) = advance (written - length v) vs in
    if leb (length v) written then rest else drop written v ∷ vs

-- WriteVector: what the file holds at the end of the call.
unfoldable pub write_vector : List Answer → List (List ℕ) → List ℕ → Outcome (List ℕ)
unfolding advance
write_vector answers [] file = returned file
write_vector [] (v ∷ vs) file = running
write_vector (moved n ∷ answers) (v ∷ vs) file =
    write_vector answers (advance n (v ∷ vs)) (file ++ take n (flatten (v ∷ vs)))
write_vector (interrupted ∷ answers) (v ∷ vs) file = write_vector answers (v ∷ vs) file
write_vector (failed ∷ answers) (v ∷ vs) file = thrown file

-- WriteValues, over the bytes of the values.
unfoldable pub write_values : List Answer → List ℕ → List ℕ → Outcome (List ℕ)
write_values answers [] file = returned file
write_values [] (b ∷ bs) file = running
write_values (moved n ∷ answers) (b ∷ bs) file =
    write_values answers (drop n (b ∷ bs)) (file ++ take n (b ∷ bs))
write_values (interrupted ∷ answers) (b ∷ bs) file = write_values answers (b ∷ bs) file
write_values (failed ∷ answers) (b ∷ bs) file = thrown file

-- The loop of ReadValues for values of `width` bytes. `filled` is the part of the buffer before
-- `start`, `wanted` the bytes from there to `end`, `file` what follows the file's position. The bytes
-- of a value that came in part stay behind `start`, where the next read overwrites them.
unfoldable pub read_loop : ℕ → List Answer → ℕ → List ℕ → List ℕ → Outcome (List ℕ)
read_loop width answers zero filled file = returned filled
read_loop width [] (suc wanted) filled file = running
read_loop width (moved zero ∷ answers) (suc wanted) filled file = returned filled
read_loop width (moved (suc n) ∷ answers) (suc wanted) filled file =
    let whole : ℕ = suc n - suc n % width in
    read_loop width answers (suc wanted - whole) (filled ++ take whole file) (drop (suc n) file)
read_loop width (interrupted ∷ answers) (suc wanted) filled file =
    read_loop width answers (suc wanted) filled file
read_loop width (failed ∷ answers) (suc wanted) filled file = thrown filled

-- ReadValues: the bytes of the values that are returned.
unfoldable pub read_values : ℕ → List Answer → ℕ → List ℕ → Outcome (List ℕ)
unfolding read_loop
read_values width answers len file = read_loop width answers (len * width) [] file
