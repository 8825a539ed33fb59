-- ===== src/Db/SparseFile/Write/Stored.antt =====
-- What SparseFile::Write puts on disk.
use vqro.Base.{
  ℕ, ltb, ℤ, ltb_ℤ, List, [], ◌++◌, ◌==◌, take, length, append-nil, Option, none, some, true, false,
  Bool-cases, inl, inr, Outcome, returned, thrown, running, and_then, Ends, if◌then◌else◌, ◌≡◌,
  refl, sym, ap, ◌∙◌, arith, take_all,
}
use vqro.Db.Datapoint.{Datapoint}
use vqro.Db.WriteOp.{WriteOperation, remaining}
use vqro.Db.FileName.{SparseFile}
use vqro.Db.FileSystem.{FileSystem, get_file_size}
use vqro.Db.Directory.Write.OnDisk.{OnDiskAfter, OnDiskAfter-same}
use vqro.Db.SparseFile.Write.{
  SparseEnv, buffer_max_timestamp, sparse_write, write_opened, with_max, renamed, check_size,
  if_too_big, file_is_too_big, append_all, sparse_path,
}
use vqro.Db.SparseFile.Write.Names.{SameOthers, StoresWell, IsAlone, IsAlone-others, rename-IsAlone}

module _ {D : Type 0} (fs : FileSystem D) (env : SparseEnv D) (stored : D → List Datapoint)
    (points_of : List (List ℕ) → List Datapoint) where
  module _ (well : StoresWell fs env stored points_of) where
    module _ (f : SparseFile) (op : WriteOperation) (start : D) where
      -- The datapoints of the vector that GetIOVector yields, which is not written where it counts none.
      abbrev pub handed_over : List Datapoint
      handed_over = if (env.get_iovector op).1 == 0 then [] else points_of (env.get_iovector op).0

      -- They are on disk, and the file still has its names for itself.
      pub record Done (d : D) (g : SparseFile) (n : ℕ) : Type 0 where
        pub counted : n ≡ (env.get_iovector op).1
        pub on_disk : stored d ≡ stored start ++ handed_over
        pub same_start : g.min_timestamp ≡ f.min_timestamp
        pub alone : IsAlone fs env stored points_of g d

      abbrev pub Stores : Outcome (D × SparseFile × ℕ) → Type 0
      Stores (returned (d, g, n)) = Done d g n
      Stores (thrown (d, g, n)) = (k : ℕ) × (stored d ≡ stored start ++ take k handed_over)
      Stores running = Unit

      -- All of them are a first part of them.
      whole :
          (d : D)
          → stored d ≡ stored start ++ handed_over
          → (k : ℕ) × (stored d ≡ stored start ++ take k handed_over)
      whole d e = (
        length handed_over,
        e
            ∙ ap (λ (l : List Datapoint). stored start ++ l)
                (sym (take_all (length handed_over) handed_over (omega arith))),
      )

      renamed-Stores :
          (g h : SparseFile) (n : ℕ) (d : D) (o : Option D)
          → h.min_timestamp ≡ g.min_timestamp
          → fs.rename d (sparse_path env.dir g) (sparse_path env.dir h) ≡ o
          → Done d g n
          → Stores (renamed fs env h n d o)
      renamed-Stores g h n d none same e done = whole d done.on_disk
      renamed-Stores g h n d (some d') same e done =
          let (kept, alone) =
            rename-IsAlone fs env stored points_of well g h d d' same e done.alone in
          record {
            counted = done.counted;
            on_disk = kept ∙ done.on_disk;
            same_start = same ∙ done.same_start;
            alone = alone;
          }

      with_max-Stores : (new : ℤ) (n : ℕ) (d : D) → Done d f n → Stores (with_max fs env new n f d)
      with_max-Stores new n d done = elim (Bool-cases (ltb_ℤ f.max_timestamp new)) [
        | inl e ↦ rw e (renamed-Stores f (record f { max_timestamp = new }) n d _ refl refl done)
        | inr e ↦ rw e done
      ]

      too_big-Stores :
          (g : SparseFile) (n : ℕ) (d : D) (o : Outcome D)
          → Ends (λ d'. (stored d' ≡ stored d) × ((q : List ℕ) → fs.stat d' q ≡ fs.stat d q)) o
          → Done d g n
          → Stores (
              and_then o
                (λ d'.
                  renamed fs env
                    (record g { optimized = true })
                    n
                    d'
                    (fs.rename d'
                      (sparse_path env.dir g)
                      (sparse_path env.dir (record g { optimized = true }))))
                (λ d'. (d', g, 0)))
      too_big-Stores g n d (returned d') (kept, same) done =
          renamed-Stores g (record g { optimized = true }) n d' _ refl refl
            (record {
              counted = done.counted;
              on_disk = kept ∙ done.on_disk;
              same_start = done.same_start;
              alone =
                  IsAlone-others fs env stored points_of well g d d' (λ q ne. same q) done.alone;
            })
      too_big-Stores g n d (thrown d') (kept, same) done = whole d' (kept ∙ done.on_disk)
      too_big-Stores g n d running h done = tt

      if_too_big-Stores :
          (g : SparseFile) (n : ℕ) (d : D) (o : Option ℕ)
          → Done d g n
          → Stores (if_too_big fs env n d g o)
      unfolding file_is_too_big
      if_too_big-Stores g n d none done = whole d done.on_disk
      if_too_big-Stores g n d (some size) done =
          elim (Bool-cases (ltb env.sparse_file_optimize_size size)) [
            | inl e ↦
                rw e (too_big-Stores g n d (env.sparse_file_too_big d g) (well.queued d g) done)
            | inr e ↦ rw e done
          ]

      check_size-Stores :
          (d : D) (g : SparseFile) (n : ℕ) → Done d g n → Stores (check_size fs env (d, g, n))
      check_size-Stores d g n done =
          let size : Option ℕ = get_file_size fs d (sparse_path env.dir g) in
          elim g.optimized
            as (λ b. Stores (if b then returned (d, g, n) else if_too_big fs env n d g size)) [
              | true ↦ done
              | false ↦ if_too_big-Stores g n d size done
            ]

      checked-Stores :
          (o : Outcome (D × SparseFile × ℕ))
          → Stores o
          → Stores (and_then o (check_size fs env) (λ r. r))
      checked-Stores (returned (d, g, n)) h = check_size-Stores d g n h
      checked-Stores (thrown (d, g, n)) h = h
      checked-Stores running h = tt

      -- The end of the write, after the bytes.
      appended-Stores :
          (d : D) (n : ℕ) (o : Outcome D)
          → IsAlone fs env stored points_of f d
          → n ≡ (env.get_iovector op).1
          → OnDiskAfter stored (λ d'. d') start handed_over o
          → Ends (SameOthers fs env stored points_of (sparse_path env.dir f) d) o
          → Stores (
              and_then o
                (λ d'.
                  and_then
                    (with_max fs env
                      (buffer_max_timestamp op.max_writable_timestamp f.max_timestamp
                        (remaining op))
                      n
                      f
                      d')
                    (check_size fs env)
                    (λ r. r))
                (λ d'. (d', f, 0)))
      appended-Stores d n (returned d') alone counted h same = checked-Stores _ (
          with_max-Stores
            (buffer_max_timestamp op.max_writable_timestamp f.max_timestamp (remaining op)) n d'
            (record {
              counted = counted;
              on_disk = h;
              same_start = refl;
              alone = IsAlone-others fs env stored points_of well f d d' same alone;
            }))
      appended-Stores d n (thrown d') alone counted h same = h
      appended-Stores d n running alone counted h same = tt

      append_all-Stores :
          (d : D)
          → stored d ≡ stored start
          → OnDiskAfter stored
              (λ d'. d')
              start
              handed_over
              (append_all fs env op (sparse_path env.dir f) d)
            × Ends
                (SameOthers fs env stored points_of (sparse_path env.dir f) d)
                (append_all fs env op (sparse_path env.dir f) d)
      append_all-Stores d same =
          let path : List ℕ = sparse_path env.dir f in
          elim (Bool-cases ((env.get_iovector op).1 == 0)) [
            | inl e ↦ rw e (same ∙ sym (append-nil (stored start)), λ q ne. refl)
            | inr e ↦ rw e (
              OnDiskAfter-same stored (λ d'. d') start d (points_of (env.get_iovector op).0)
                  (fs.append_vector d path (env.get_iovector op).0) same
                  (well.appended d path (env.get_iovector op).0).0,
              (well.appended d path (env.get_iovector op).0).1,
            )
          ]

      write_opened-Stores :
          (d : D)
          → stored d ≡ stored start
          → IsAlone fs env stored points_of f d
          → Stores (write_opened fs env f op d)
      unfolding write_opened
      write_opened-Stores d same alone =
          let (put, names) = append_all-Stores d same in
          appended-Stores d (env.get_iovector op).1 (append_all fs env op (sparse_path env.dir f) d)
            alone refl put names

      opened-Stores :
          (o : Option D)
          → fs.open_file start (sparse_path env.dir f) ≡ o
          → IsAlone fs env stored points_of f start
          → Stores (elim o [ none ↦ thrown (start, f, 0) | some d ↦ write_opened fs env f op d ])
      opened-Stores none e alone = (0, sym (append-nil (stored start)))
      opened-Stores (some d) e alone =
          let (same, names) = well.opened start d (sparse_path env.dir f) e in
          write_opened-Stores d same
            (IsAlone-others fs env stored points_of well f start d names alone)

    -- Whatever GetIOVector yields, where the file system does as it says and no other file has a name
    -- of a sparse file that begins where this one does: if SparseFile::Write returns a number, it is
    -- the one of GetIOVector, the datapoints of its vector are on disk behind what was there (none, if
    -- the number is 0), and the file as it is then still has its names for itself. If it throws, what
    -- is on disk is what was there and a first part of these datapoints, whichever step has failed.
    pub sparse_write-Stores :
        (f : SparseFile) (op : WriteOperation) (d : D)
        → IsAlone fs env stored points_of f d
        → Stores f op d (sparse_write fs env d f op)
    unfolding sparse_write
    sparse_write-Stores f op d alone =
        opened-Stores f op d (fs.open_file d (sparse_path env.dir f)) refl alone
