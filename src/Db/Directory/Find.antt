-- ===== src/Db/Directory/Find.antt =====
-- DatapointDirectory::FindFirstPotentialFile, over the first timestamps of the files.
pub mod Laws
use vqro.Base.{
  ℕ, zero, suc, ◌+◌, ◌-◌, ◌/◌, ℤ, Option, none, some, List, ltb, ltb_ℤ, if◌then◌else◌, get_elem?,
  length,
}

-- What the loop comes to: an index, a read outside of the vector, or more rounds than given.
pub data Search : Type 0 where
  found : ℕ → Search
  out_of_bounds : Search
  searching : Search

-- The three ways to go on after the probe at `middle`.
abbrev pub probe : ℤ → Option ℤ → ℕ → Search → Search → Search
probe timestamp none middle lower upper = out_of_bounds
probe timestamp (some x) middle lower upper =
    if ltb_ℤ timestamp x then lower else if ltb_ℤ x timestamp then upper else found middle

unfoldable pub find_loop : ℕ → List ℤ → ℤ → ℕ → ℕ → ℕ → Search
find_loop zero mins timestamp left right middle = searching
find_loop (suc rounds) mins timestamp left right middle =
    let mid : ℕ = (right - left) / 2 in
    let lower : Search = find_loop rounds mins timestamp left mid mid in
    let upper : Search = find_loop rounds mins timestamp (mid + 1) right mid in
    if ltb left right then probe timestamp (get_elem? mins mid) mid lower upper else found middle

unfoldable pub find_first_potential_file : ℕ → List ℤ → ℤ → Search
unfolding find_loop
find_first_potential_file rounds mins timestamp = find_loop rounds mins timestamp 0 (length mins) 0
