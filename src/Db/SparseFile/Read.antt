-- ===== src/Db/SparseFile/Read.antt =====
-- SparseFile::Read, from the point where the file's datapoints are in memory.
use vqro.Base.{
  ℕ, zero, suc, ℤ, Bool, List, [], ◌∷◌, ◌&&◌, not, leb_ℤ, ltb_ℤ, eqb_ℤ, length, if◌then◌else◌,
}
use mathlib.Core.List.{reverse}
use vqro.Db.Datapoint.{Datapoint}
use vqro.Db.Order.{stable_sort, from_lower_bound}
use vqro.Db.ReadOp.{ReadOperation, append, has_space, complete}

-- The run of datapoints at the front that have the timestamp `t`, and what stands behind it: `next`
-- is advanced over the first.
unfoldable pub same_time : ℤ → List Datapoint → List Datapoint
same_time t [] = []
same_time t (p ∷ ps) = let rest = same_time t ps in if eqb_ℤ p.timestamp t then p ∷ rest else []

unfoldable pub after_same_time : ℤ → List Datapoint → List Datapoint
after_same_time t [] = []
after_same_time t (p ∷ ps) =
    let rest = after_same_time t ps in if eqb_ℤ p.timestamp t then rest else p ∷ ps

-- The backward scan from `next - 1` to `original`, which ends at the first datapoint with the
-- original duration.
unfoldable pub scan_back : Datapoint → List Datapoint → Datapoint
scan_back original [] = original
scan_back original (p ∷ earlier) =
    let rest = scan_back original earlier in if eqb_ℤ p.duration original.duration then p else rest

unfoldable pub latest : Datapoint → List Datapoint → Datapoint
unfolding scan_back
latest original later = scan_back original (reverse later)

-- The condition of the copying loop at the datapoint that `it` points to.
abbrev pub wanted : Datapoint → ReadOperation → Bool
wanted p op =
    leb_ℤ op.next_time p.timestamp
    && ltb_ℤ p.timestamp op.end_time
    && has_space op
    && not (complete op)

-- The copying loop. Every round takes one datapoint at least, so as much fuel as there are
-- datapoints is enough.
unfoldable pub copy : ℕ → List Datapoint → ReadOperation → ReadOperation
unfolding same_time after_same_time latest
copy zero it op = op
copy (suc fuel) [] op = op
copy (suc fuel) (p ∷ ps) op =
    let rest =
      copy fuel (after_same_time p.timestamp ps)
        (append op (latest p (same_time p.timestamp ps))) in
    if wanted p op then rest else op

unfoldable pub read_sorted : List Datapoint → ReadOperation → ReadOperation
unfolding copy from_lower_bound
read_sorted points op = copy (length points) (from_lower_bound op.next_time points) op

unfoldable pub read_datapoints : List Datapoint → ReadOperation → ReadOperation
unfolding read_sorted stable_sort
read_datapoints points op = read_sorted (stable_sort points) op
