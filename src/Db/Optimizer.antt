-- ===== src/Db/Optimizer.antt =====
-- vqro/db/storage_optimizer.cc and vqro/base/floatutil.h: which format the datapoints of a sparse file
-- are converted to. Values are the bit patterns of doubles; `near a b` is the test that the difference
-- of two doubles, neither of them NAN, is less than epsilon.
pub mod Laws
pub mod Convert
pub mod Queue
use vqro.Base.{
  ℕ, zero, suc, ◌-◌, ◌/◌, ◌%◌, ◌^◌, ltb, leb, ◌==◌, ℤ, pos, ◌-ℤ◌, ◌/ℤ◌, ◌%ℤ◌, ltb_ℤ, eqb_ℤ, List,
  [], ◌∷◌, length, Bool, true, false, not, ◌||◌, if◌then◌else◌, int64_max, int64_min,
}
use vqro.Db.Datapoint.{Datapoint, isnan}
use vqro.Db.ReadOp.{ReadOperation, read_operation}
use vqro.Db.SparseFile.Read.{read_datapoints}

-- The bit of the sign.
abbrev pub sign : ℕ → ℕ
sign a = a / 2 ^ 63 % 2

-- How many doubles of one sign lie between two.
abbrev pub ulps : ℕ → ℕ → ℕ
ulps a b = if ltb b a then a - b else b - a

unfoldable pub almost_equals : (ℕ → ℕ → Bool) → ℕ → ℕ → Bool
unfolding isnan
almost_equals near a b =
    if isnan a || isnan b
    then false
    else if near a b
    then true
    else if not (sign a == sign b)
    then false
    else leb (ulps a b) 4

-- The loop of IsDense: `padding` is max_dense_nan_padding.
unfoldable pub dense_from : ℕ → ℤ → ℤ → List Datapoint → Bool
dense_from padding dur last [] = true
dense_from padding dur last (p ∷ ps) =
    let rest : Bool = dense_from padding dur p.timestamp ps in
    let delta : ℤ = p.timestamp -ℤ last in
    if not (eqb_ℤ p.duration dur)
      || ltb_ℤ (pos padding) (delta /ℤ dur)
      || not (eqb_ℤ (delta %ℤ dur) (pos 0))
    then false
    else rest

abbrev pub step_of : Datapoint → ℤ
step_of p = if eqb_ℤ p.duration (pos 0) then pos 1 else p.duration

-- IsDense. The code reads the first datapoint of a buffer that is long enough; a limit of 0 would let
-- it read behind an empty one, where this gives true.
unfoldable pub is_dense : ℕ → ℕ → List Datapoint → Bool
unfolding dense_from
is_dense min_datapoints padding [] = not (ltb 0 min_datapoints)
is_dense min_datapoints padding (p ∷ ps) =
    if ltb (length (p ∷ ps)) min_datapoints
    then false
    else dense_from padding (step_of p) p.timestamp (p ∷ ps)

-- The loop of IsConstant.
unfoldable pub constant_from : (ℕ → ℕ → Bool) → ℕ → List Datapoint → Bool
unfolding almost_equals
constant_from near value [] = true
constant_from near value (p ∷ ps) =
    let rest : Bool = constant_from near value ps in
    if almost_equals near p.value value then rest else false

unfoldable pub is_constant : (ℕ → ℕ → Bool) → ℕ → List Datapoint → Bool
unfolding constant_from
is_constant near min_datapoints [] = not (ltb 0 min_datapoints)
is_constant near min_datapoints (p ∷ ps) =
    if ltb (length (p ∷ ps)) min_datapoints then false else constant_from near p.value (p ∷ ps)

-- What HandleSparseFileTooBig converts the file to.
pub data Format : Type 0 where
  sparse dense constant : Format

pub record Limits : Type 0 where
  pub min_datapoints_for_dense : ℕ
  pub min_datapoints_for_constant : ℕ
  pub max_dense_nan_padding : ℕ
  pub read_buffer_size : ℕ

unfoldable pub choose_format : (ℕ → ℕ → Bool) → Limits → List Datapoint → Format
unfolding is_dense is_constant
choose_format near l points =
    if is_dense l.min_datapoints_for_dense l.max_dense_nan_padding points
    then if is_constant near l.min_datapoints_for_constant points then constant else dense
    else sparse

-- HandleSparseFileTooBig up to the conversion: the file is read with one read of its whole range.
unfoldable pub format_of_file : (ℕ → ℕ → Bool) → Limits → List Datapoint → Format
unfolding choose_format read_operation read_datapoints
format_of_file near l file =
    choose_format near l
      (read_datapoints file
        (read_operation int64_min int64_max int64_max true l.read_buffer_size)).buffer
