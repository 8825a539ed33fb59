-- ===== src/Db/WriteBuffer/Laws.antt =====
-- WriteBuffer: Append adds what is not NAN to the end of what the buffer holds.
use vqro.Base.{
  flatten, ℕ, zero, suc, ◌+◌, ◌*◌, ◌/◌, ◌≤◌, ◌<◌, Option, none, some, List, [], ◌∷◌, ◌++◌, ◌≡◌,
  refl, ap, sym, ◌∙◌, length, get_elem?, set, take, arith, Bool-cases, inl, inr, false,
  length-append, append_assoc, append-nil, replicate, if◌then◌else◌, ◌==◌,
}
use native.Mathlib.Decide.{dec_lt}
use native.Mathlib.Nat.{div-eq_of_eq-mul_right}
use vqro.Db.Datapoint.{Datapoint, isnan}
use vqro.Db.WriteBuffer.{
  WriteBuffer, append_one, append_loop, append, get_next_datapoint, store_at, value_at, new_buffer,
  clear,
}
use vqro.Db.WriteBuffer.Blocks.{
  Blocks, length-flatten, get_elem?-flatten, flatten-set_block, Blocks-set_block, Blocks-append,
  flatten-append, take-append_left, take-set, length-set,
}

-- Every allocation has the same size, and together they have room for the datapoints in use.
pub record IsValid (wb : WriteBuffer) : Type 0 where
  pub positive : 0 < wb.datapoints_per_alloc
  pub blocks : Blocks wb.datapoints_per_alloc wb.allocs
  pub room : wb.num_datapoints ≤ length (flatten wb.allocs)

-- The datapoints in use, in the order of their positions.
abbrev pub contents : WriteBuffer → List Datapoint
contents wb = take wb.num_datapoints (flatten wb.allocs)

length-replicate {ℓ} : {A : Type ℓ} (n : ℕ) (a : A) → length (replicate n a) ≡ n
length-replicate zero a = refl
length-replicate (suc n) a = ap suc (length-replicate n a)

-- What GetNextDatapoint leaves: room for one more datapoint.
record Grown (wb grown : WriteBuffer) : Type 0 where
  valid : IsValid grown
  same_num : grown.num_datapoints ≡ wb.num_datapoints
  same_sorted : grown.sorted ≡ wb.sorted
  same_contents : contents grown ≡ contents wb
  free : grown.num_datapoints < length (flatten grown.allocs)

room_below : (n k len : ℕ) → 0 < k → n ≤ k * len → ((n / k) == len) ≡ false → n < k * len
room_below n k len pos h e = elim (dec_lt n (k * len)) [
  | yes lt ↦ lt
  | no ge ↦
      let full : n / k ≡ len = div-eq_of_eq-mul_right pos (omega arith) in ground (arith, full)
]

length-flatten-grown :
    (bs : List (List Datapoint)) (k : ℕ) (fresh : Datapoint)
    → length (flatten (bs ++ replicate k fresh ∷ [])) ≡ length (flatten bs) + k
length-flatten-grown bs k fresh =
    ap length (flatten-append bs (replicate k fresh))
    ∙ length-append (flatten bs) (replicate k fresh)
    ∙ ap (λ n. length (flatten bs) + n) (length-replicate k fresh)

grow-Grown :
    (fresh : Datapoint) (wb : WriteBuffer)
    → IsValid wb
    → Grown wb (record wb { allocs = wb.allocs ++ replicate wb.datapoints_per_alloc fresh ∷ [] })
grow-Grown fresh wb v =
    let more = length-flatten-grown wb.allocs wb.datapoints_per_alloc fresh in
    record {
      valid = record {
        positive = v.positive;
        blocks =
            Blocks-append wb.datapoints_per_alloc wb.allocs _ v.blocks
              (length-replicate wb.datapoints_per_alloc fresh, tt);
        room = omega (arith, v.room, more);
      };
      same_num = refl;
      same_sorted = refl;
      same_contents =
          ap (take wb.num_datapoints)
            (flatten-append wb.allocs (replicate wb.datapoints_per_alloc fresh))
          ∙ take-append_left wb.num_datapoints (flatten wb.allocs) _ v.room;
      free = omega (arith, v.room, v.positive, more);
    }

get_next_datapoint-Grown :
    (fresh : Datapoint) (wb : WriteBuffer) → IsValid wb → Grown wb (get_next_datapoint fresh wb)
unfolding get_next_datapoint
get_next_datapoint-Grown fresh wb v =
    let len = length-flatten wb.datapoints_per_alloc wb.allocs v.blocks in
    elim (Bool-cases (wb.num_datapoints / wb.datapoints_per_alloc == length wb.allocs)) [
      | inl full ↦ rw full (grow-Grown fresh wb v)
      | inr free ↦ rw free (record {
        valid = v;
        same_num = refl;
        same_sorted = refl;
        same_contents = refl;
        free = rw len (
            room_below wb.num_datapoints wb.datapoints_per_alloc (length wb.allocs) v.positive
              (rw (← len) v.room) free);
      })
    ]

pub flatten-store_at :
    (wb : WriteBuffer) (i : ℕ) (p : Datapoint)
    → IsValid wb
    → flatten (store_at wb i p).allocs ≡ set (flatten wb.allocs) i p
unfolding store_at
flatten-store_at wb i p v =
    flatten-set_block wb.datapoints_per_alloc v.positive wb.allocs i p v.blocks

pub store_at-IsValid :
    (wb : WriteBuffer) (i : ℕ) (p : Datapoint) → IsValid wb → IsValid (store_at wb i p)
store_at-IsValid wb i p v = record {
  positive = unfold store_at in v.positive;
  blocks =
      unfold store_at in
      Blocks-set_block wb.datapoints_per_alloc v.positive wb.allocs _ _ p v.blocks;
  room =
      rw (flatten-store_at wb i p v, length-set (flatten wb.allocs) i p)
        (unfold store_at in v.room);
}

module _ (fresh : Datapoint) (wb : WriteBuffer) (previous : Option Datapoint) (p : Datapoint)
    (v : IsValid wb) where
  append_one-flatten :
      flatten (append_one fresh wb previous p).allocs
      ≡ set (flatten (get_next_datapoint fresh wb).allocs) wb.num_datapoints p
  unfolding append_one
  append_one-flatten =
      let g = get_next_datapoint-Grown fresh wb v in
      flatten-store_at (get_next_datapoint fresh wb) _ p g.valid
      ∙ ap (λ n. set (flatten (get_next_datapoint fresh wb).allocs) n p) g.same_num

  append_one-num : (append_one fresh wb previous p).num_datapoints ≡ suc wb.num_datapoints
  unfolding append_one
  append_one-num = ap suc (get_next_datapoint-Grown fresh wb v).same_num

  pub append_one-IsValid : IsValid (append_one fresh wb previous p)
  append_one-IsValid =
      let g = get_next_datapoint-Grown fresh wb v in
      let stored =
        store_at-IsValid (get_next_datapoint fresh wb) (get_next_datapoint fresh wb).num_datapoints
          p g.valid in
      record {
        positive = unfold append_one in stored.positive;
        blocks = unfold append_one in stored.blocks;
        room =
            rw
              (
                append_one-num,
                append_one-flatten,
                length-set (flatten (get_next_datapoint fresh wb).allocs) wb.num_datapoints p,
              )
              (omega (arith, g.free, g.same_num));
      }

  pub append_one-contents : contents (append_one fresh wb previous p) ≡ contents wb ++ p ∷ []
  append_one-contents =
      let g = get_next_datapoint-Grown fresh wb v in
      rw (append_one-num, append_one-flatten)
        (take-set wb.num_datapoints (flatten (get_next_datapoint fresh wb).allocs) p
            (omega (arith, g.free, g.same_num))
          ∙ ap (λ (l : List Datapoint). l ++ p ∷ [])
              (ap (λ n. take n (flatten (get_next_datapoint fresh wb).allocs)) (sym g.same_num)
                ∙ g.same_contents))

-- The datapoints of a request that are not NAN.
abbrev pub without_nan : List Datapoint → List Datapoint
without_nan [] = []
without_nan (p ∷ ps) = if isnan p.value then without_nan ps else p ∷ without_nan ps

append_loop-IsValid :
    (fresh : Datapoint) (wb : WriteBuffer) (previous : Option Datapoint) (ps : List Datapoint)
    → IsValid wb
    → IsValid (append_loop fresh wb previous ps)
unfolding append_loop
append_loop-IsValid fresh wb previous [] v = v
append_loop-IsValid fresh wb previous (p ∷ ps) v = elim (Bool-cases (isnan p.value)) [
  | inl e ↦ rw e (append_loop-IsValid fresh wb previous ps v)
  | inr e ↦ rw e (
      append_loop-IsValid fresh (append_one fresh wb previous p) (some p) ps
        (append_one-IsValid fresh wb previous p v))
]

append_loop-contents :
    (fresh : Datapoint) (wb : WriteBuffer) (previous : Option Datapoint) (ps : List Datapoint)
    → IsValid wb
    → contents (append_loop fresh wb previous ps) ≡ contents wb ++ without_nan ps
unfolding append_loop
append_loop-contents fresh wb previous [] v = sym (append-nil (contents wb))
append_loop-contents fresh wb previous (p ∷ ps) v = elim (Bool-cases (isnan p.value)) [
  | inl e ↦ rw e (append_loop-contents fresh wb previous ps v)
  | inr e ↦ rw e (
      append_loop-contents fresh (append_one fresh wb previous p) (some p) ps
        (append_one-IsValid fresh wb previous p v)
      ∙ ap (λ (l : List Datapoint). l ++ without_nan ps) (append_one-contents fresh wb previous p v)
      ∙ append_assoc (contents wb) (p ∷ []) (without_nan ps))
]

-- Where the allocations of a buffer have one size and have room for what is in use, this holds
-- after Append too, whatever the request holds.
pub append-IsValid :
    (fresh : Datapoint) (wb : WriteBuffer) (ps : List Datapoint)
    → IsValid wb
    → IsValid (append fresh wb ps)
unfolding append
append-IsValid fresh wb ps v = append_loop-IsValid fresh wb none ps v

-- Where the allocations of a buffer have one size and have room for what is in use, Append adds the
-- datapoints of the request that are not NAN, in their order, behind what the buffer holds.
pub append-contents :
    (fresh : Datapoint) (wb : WriteBuffer) (ps : List Datapoint)
    → IsValid wb
    → contents (append fresh wb ps) ≡ contents wb ++ without_nan ps
unfolding append
append-contents fresh wb ps v = append_loop-contents fresh wb none ps v

get_elem?-take :
    (n : ℕ) (xs : List Datapoint) (i : ℕ) → i < n → get_elem? (take n xs) i ≡ get_elem? xs i
get_elem?-take zero xs i h = elim h [ ]
get_elem?-take (suc n) [] i h = refl
get_elem?-take (suc n) (x ∷ xs) zero h = refl
get_elem?-take (suc n) (x ∷ xs) (suc i) h = get_elem?-take n xs i (omega arith)

-- Where the allocations of a buffer have one size and have room for what is in use, the iterator's
-- value at a position in use is the datapoint at that place of the contents.
pub value_at-contents :
    (wb : WriteBuffer) (i : ℕ)
    → IsValid wb
    → i < wb.num_datapoints
    → value_at wb i ≡ get_elem? (contents wb) i
unfolding value_at
value_at-contents wb i v h =
    get_elem?-flatten wb.datapoints_per_alloc v.positive wb.allocs i v.blocks
    ∙ sym (get_elem?-take wb.num_datapoints (flatten wb.allocs) i h)

pub new_buffer-IsValid :
    (pagesize pages : ℕ) → 0 < pagesize * pages / 24 → IsValid (new_buffer pagesize pages)
unfolding new_buffer
new_buffer-IsValid pagesize pages h = record { positive = h; blocks = tt; room = omega arith }

pub clear-IsValid : (wb : WriteBuffer) → IsValid wb → IsValid (clear wb)
unfolding clear
clear-IsValid wb v = record { positive = v.positive; blocks = tt; room = omega arith }
