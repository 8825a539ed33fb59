-- ===== src/Db/SparseFile/Write/Laws.antt =====
-- The range that a sparse file stands for when it has been written.
use vqro.Base.{
  ℕ, ltb, true, false, ℤ, ◌≤ℤ◌, ltb_ℤ, min_ℤ, List, [], ◌∷◌, All, Option, none, some, Bool-cases,
  inl, inr, Outcome, returned, thrown, running, and_then, if◌then◌else◌, ◌≡◌, refl, arith,
}
use vqro.Db.Datapoint.{Datapoint}
use vqro.Db.WriteOp.{WriteOperation, remaining}
use vqro.Db.FileName.{SparseFile}
use vqro.Db.FileSystem.{FileSystem, get_file_size}
use vqro.Db.SparseFile.Write.{
  SparseEnv, buffer_max_timestamp, sparse_write, write_opened, with_max, renamed, check_size,
  if_too_big, file_is_too_big, append_all, sparse_path,
}

buffer_max_keeps :
    (cap max t : ℤ) (ps : List Datapoint)
    → t ≤ℤ cap
    → t ≤ℤ max
    → t ≤ℤ buffer_max_timestamp cap max ps
unfolding buffer_max_timestamp
buffer_max_keeps cap max t [] early low = low
buffer_max_keeps cap max t (p ∷ ps) early low =
    buffer_max_keeps cap (if ltb_ℤ max p.timestamp then min_ℤ p.timestamp cap else max) t ps early
      (ground arith)

-- Each datapoint that is early enough is within the timestamp that the loop finds.
buffer_max_covers :
    (cap max : ℤ) (ps : List Datapoint)
    → All (λ p. (p.timestamp ≤ℤ cap) → p.timestamp ≤ℤ buffer_max_timestamp cap max ps) ps
unfolding buffer_max_timestamp
buffer_max_covers cap max [] = tt
buffer_max_covers cap max (p ∷ ps) =
    let next : ℤ = if ltb_ℤ max p.timestamp then min_ℤ p.timestamp cap else max in
    (
      λ early. buffer_max_keeps cap next p.timestamp ps early (ground arith),
      buffer_max_covers cap next ps,
    )

All-map :
    {P Q : Datapoint → Type 0} (ps : List Datapoint)
    → ((p : Datapoint) → P p → Q p)
    → All P ps
    → All Q ps
All-map [] f a = tt
All-map (p ∷ ps) f a = (f p a.0, All-map ps f a.1)

-- The file begins where `f` does and does not end before it.
abbrev pub Grown : SparseFile → SparseFile → Type 0
Grown f g = (g.min_timestamp ≡ f.min_timestamp) × (f.max_timestamp ≤ℤ g.max_timestamp)

-- The datapoints that the operation lets be written are not later than the end of the file.
abbrev pub Covered : WriteOperation → SparseFile → Type 0
Covered op g =
    All (λ p. (p.timestamp ≤ℤ op.max_writable_timestamp) → p.timestamp ≤ℤ g.max_timestamp)
      (remaining op)

module _ {D : Type 0} where
  abbrev pub Covers : SparseFile → WriteOperation → Outcome (D × SparseFile × ℕ) → Type 0
  Covers f op (returned (d, g, n)) = Grown f g × Covered op g
  Covers f op (thrown (d, g, n)) = Grown f g
  Covers f op running = Unit

module _ {D : Type 0} (fs : FileSystem D) (env : SparseEnv D) (f : SparseFile)
    (op : WriteOperation) where
  renamed-Covers :
      (g : SparseFile) (n : ℕ) (d : D) (o : Option D)
      → Grown f g
      → Covered op g
      → Covers f op (renamed fs env g n d o)
  renamed-Covers g n d none h c = h
  renamed-Covers g n d (some d') h c = (h, c)

  with_max-Covers :
      (n : ℕ) (d : D)
      → Covers f op (
          with_max fs env
            (buffer_max_timestamp op.max_writable_timestamp f.max_timestamp (remaining op))
            n
            f
            d)
  with_max-Covers n d =
      let new : ℤ = buffer_max_timestamp op.max_writable_timestamp f.max_timestamp (remaining op) in
      let covered = buffer_max_covers op.max_writable_timestamp f.max_timestamp (remaining op) in
      elim (Bool-cases (ltb_ℤ f.max_timestamp new)) [
        | inl e ↦
            rw e
              (renamed-Covers (record f { max_timestamp = new }) n d _ (refl, ground arith) covered)
        | inr e ↦ rw e (
          (refl, omega arith),
          All-map (remaining op) (λ p h early. ground (arith, h early, e)) covered,
        )
      ]

  too_big-Covers :
      (g : SparseFile) (n : ℕ) (o : Outcome D)
      → Grown f g
      → Covered op g
      → Covers f op (
          and_then o
            (λ d'.
              renamed fs env
                (record g { optimized = true })
                n
                d'
                (fs.rename d'
                  (sparse_path env.dir g)
                  (sparse_path env.dir (record g { optimized = true }))))
            (λ d'. (d', g, 0)))
  too_big-Covers g n (returned d) h c = renamed-Covers (record g { optimized = true }) n d _ h c
  too_big-Covers g n (thrown d) h c = h
  too_big-Covers g n running h c = tt

  if_too_big-Covers :
      (g : SparseFile) (n : ℕ) (d : D) (o : Option ℕ)
      → Grown f g
      → Covered op g
      → Covers f op (if_too_big fs env n d g o)
  unfolding file_is_too_big
  if_too_big-Covers g n d none h c = h
  if_too_big-Covers g n d (some size) h c =
      elim (Bool-cases (ltb env.sparse_file_optimize_size size)) [
        | inl e ↦ rw e (too_big-Covers g n (env.sparse_file_too_big d g) h c)
        | inr e ↦ rw e (h, c)
      ]

  check_size-Covers :
      (d : D) (g : SparseFile) (n : ℕ)
      → Grown f g
      → Covered op g
      → Covers f op (check_size fs env (d, g, n))
  check_size-Covers d g n h c =
      let checked = if_too_big fs env n d g (get_file_size fs d (sparse_path env.dir g)) in
      elim g.optimized as (λ b. Covers f op (if b then returned (d, g, n) else checked)) [
        | true ↦ (h, c)
        | false ↦ if_too_big-Covers g n d (get_file_size fs d (sparse_path env.dir g)) h c
      ]

  checked-Covers :
      (o : Outcome (D × SparseFile × ℕ))
      → Covers f op o
      → Covers f op (and_then o (check_size fs env) (λ r. r))
  checked-Covers (returned (d, g, n)) h = check_size-Covers d g n h.0 h.1
  checked-Covers (thrown (d, g, n)) h = h
  checked-Covers running h = tt

  appended-Covers :
      (n : ℕ) (o : Outcome D)
      → Covers f op (
          and_then o
            (λ d'.
              and_then
                (with_max fs env
                  (buffer_max_timestamp op.max_writable_timestamp f.max_timestamp (remaining op))
                  n
                  f
                  d')
                (check_size fs env)
                (λ r. r))
            (λ d'. (d', f, 0)))
  appended-Covers n (returned d) = checked-Covers _ (with_max-Covers n d)
  appended-Covers n (thrown d) = (refl, omega arith)
  appended-Covers n running = tt

  opened-Covers :
      (d : D) (o : Option D)
      → Covers f op (elim o [ none ↦ thrown (d, f, 0) | some d' ↦ write_opened fs env f op d' ])
  unfolding write_opened
  opened-Covers d none = (refl, omega arith)
  opened-Covers d (some d') =
      appended-Covers (env.get_iovector op).1 (append_all fs env op (sparse_path env.dir f) d')

  -- Whatever the operating system answers: SparseFile::Write leaves the first timestamp of the file as
  -- it is and does not lower the last one, also where it throws; where it returns, no datapoint from
  -- the cursor on that is at or before max_writable_timestamp is later than the file's last timestamp.
  pub sparse_write-Covers : (d : D) → Covers f op (sparse_write fs env d f op)
  unfolding sparse_write
  sparse_write-Covers d = opened-Covers d (fs.open_file d (sparse_path env.dir f))
