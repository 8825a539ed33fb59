-- ===== src/Db/Database/Read/OneFile.antt =====
-- Database::Read of a series whose directory knows of one file.
use vqro.Base.{
  ℕ, zero, suc, ◌<◌, ℤ, pos, ◌≤ℤ◌, ◌+ℤ◌, List, [], ◌∷◌, ◌++◌, drop, All, Bool, true, not, ◌||◌,
  if◌then◌else◌, Bool-cases, inl, inr, Outcome, returned, thrown, running, and_then, Ends, Halts,
  ◌≡◌, refl, sym, ap, ◌∙◌, subst, arith,
}
use vqro.Db.Datapoint.{Datapoint}
use vqro.Db.ReadOp.{ReadOperation, append, has_space, complete}
use vqro.Db.WriteBuffer.{WriteBuffer, values, sort}
use vqro.Db.Directory.Files.{DatapointFile}
use vqro.Db.Directory.Find.{found, find_first_potential_file, find_loop}
use vqro.Db.Directory.Read.{Directory, read_files, read_known, read_directory, read_found}
use vqro.Db.Directory.Read.Laws.{ReadsWell}
use vqro.Db.Series.Read.{
  Series, merge, in_range, force_completion, read_series, merge_buffered, sort_if_needed,
}
use vqro.Db.Series.Read.Laws.{read_series-Reading}
use vqro.Db.Database.Read.{read_database}
use vqro.Db.Database.Read.Ends.{IsForward, read_database-Halts}

-- The code ends, and what it leaves has the property.
abbrev pub Sure : {A : Type 0} → (A → Type 0) → Outcome A → Type 0
Sure P (returned a) = P a
Sure P (thrown a) = P a
Sure P running = ⊥

Sure-Halts : {A : Type 0} (P : A → Type 0) (o : Outcome A) → Sure P o → Halts o
Sure-Halts P (returned a) h = tt
Sure-Halts P (thrown a) h = tt
Sure-Halts P running h = h

Sure-Ends :
    {A : Type 0} (P Q : A → Type 0) (o : Outcome A) → ((a : A) → P a → Q a) → Sure P o → Ends Q o
Sure-Ends P Q (returned a) f h = f a h
Sure-Ends P Q (thrown a) f h = f a h
Sure-Ends P Q running f h = tt

and_then-Sure :
    {A B : Type 0} (P : A → Type 0) (Q : B → Type 0) (o : Outcome A) (k : A → Outcome B) (f : A → B)
    → Sure P o
    → ((a : A) → P a → Sure Q (k a))
    → ((a : A) → P a → Q (f a))
    → Sure Q (and_then o k f)
and_then-Sure P Q (returned a) k f h hk hf = hk a h
and_then-Sure P Q (thrown a) k f h hk hf = hf a h
and_then-Sure P Q running k f h hk hf = absurd h

All-snoc :
    (ps : List Datapoint) (p : Datapoint)
    → All IsForward ps
    → IsForward p
    → All IsForward (ps ++ p ∷ [])
All-snoc [] p a f = (f, tt)
All-snoc (q ∷ qs) p a f = (a.0, All-snoc qs p a.1 f)

abbrev Forward : ReadOperation → Type 0
Forward op = All IsForward op.buffer

merge-Forward :
    (ps : List Datapoint) (op : ReadOperation)
    → All IsForward ps
    → Forward op
    → Forward (merge ps op)
unfolding merge
merge-Forward [] op a f = f
merge-Forward (p ∷ ps) op a f = elim (Bool-cases (complete op || not (has_space op))) [
  | inl e ↦ rw e f
  | inr e ↦ rw e (elim (Bool-cases (in_range p op)) [
    | inl k ↦ rw k (merge-Forward ps (append op p) a.1 (All-snoc op.buffer p f a.0))
    | inr k ↦ rw k (merge-Forward ps op a.1 f)
  ])
]

force_completion-Forward : (op : ReadOperation) → Forward op → Forward (force_completion op)
force_completion-Forward op f = elim (Bool-cases (has_space op)) [ inl e ↦ rw e f | inr e ↦ rw e f ]

is_sorted : (wb : WriteBuffer) → (sort_if_needed wb).sorted ≡ true
unfolding sort
is_sorted wb =
    let result : Bool → Bool = λ b. (if b then wb else sort wb).sorted in
    elim (Bool-cases wb.sorted) [ inl e ↦ ap result e ∙ e | inr e ↦ ap result e ]

sorted_twice : (wb : WriteBuffer) → sort_if_needed (sort_if_needed wb) ≡ sort_if_needed wb
sorted_twice wb =
    let ready : WriteBuffer = sort_if_needed wb in
    ap (λ b. if b then ready else sort ready) (is_sorted wb)

-- Of one file the search finds an index within two rounds.
one-found :
    (n : ℕ) (x t : ℤ) → (i : ℕ) × (find_first_potential_file (suc (suc n)) (x ∷ []) t ≡ found i)
unfolding find_first_potential_file find_loop
one-found n x t = (0, ground arith)

module _ {D F : Type 0} (file : DatapointFile D F) (d : D) (f : F)
    (kept : (op : ReadOperation) → Forward op → Sure Forward (file.read d f op)) where
  -- From the file, or from behind it.
  read_from-Sure :
      (i : ℕ) (op : ReadOperation)
      → Forward op
      → Sure Forward (read_files file d (drop i (f ∷ [])) op)
  unfolding read_files
  read_from-Sure zero op h =
      let next =
        and_then-Sure Forward Forward (file.read d f op) (λ op'. returned op') (λ op'. op')
          (kept op h) (λ op' k. k) (λ op' k. k) in
      ground (arith, next, h)
  read_from-Sure (suc zero) op h = h
  read_from-Sure (suc (suc i)) op h = h

  read_known-Sure :
      (n : ℕ) (op : ReadOperation)
      → Forward op
      → Sure Forward (read_known file (suc (suc n)) d (f ∷ []) op)
  unfolding read_known
  read_known-Sure n op h =
      let (i, e) = one-found n (file.min_timestamp f) op.next_time in
      subst (λ s. Sure Forward (read_found file d (f ∷ []) op s)) (sym e) (read_from-Sure i op h)

  -- The directory has read its names and has the one file, and no buffered datapoint has a negative
  -- duration.
  pub record IsFine (s : Series F) : Type 0 where
    pub known : s.data_dir ≡ record { filenames_read = true; datapoint_files = f ∷ [] }
    pub forward : All IsForward (values (sort_if_needed s.write_buffer))

  abbrev Left : Directory F × ReadOperation → Type 0
  Left r = (r.0 ≡ record { filenames_read = true; datapoint_files = f ∷ [] }) × Forward r.1

  read_directory-Sure :
      (n : ℕ) (op : ReadOperation)
      → Forward op
      → Sure Left (
          read_directory file
            (suc (suc n))
            d
            (record { filenames_read = true; datapoint_files = f ∷ [] })
            op)
  unfolding read_directory
  read_directory-Sure n op h =
      and_then-Sure Forward Left (read_known file (suc (suc n)) d (f ∷ []) op)
        (λ op'. returned (record { filenames_read = true; datapoint_files = f ∷ [] }, op'))
        (λ op'. (record { filenames_read = true; datapoint_files = f ∷ [] }, op'))
        (read_known-Sure n op h) (λ op' k. (refl, k)) (λ op' k. (refl, k))

  abbrev FineAfter : Series F × ReadOperation → Type 0
  FineAfter r = IsFine r.0 × Forward r.1

  read_series-Sure :
      (n : ℕ) (s : Series F) (op : ReadOperation)
      → IsFine s
      → Forward op
      → Sure FineAfter (read_series file (suc (suc n)) d s op)
  unfolding read_series
  read_series-Sure n s op fine h =
      and_then-Sure Left FineAfter (read_directory file (suc (suc n)) d s.data_dir op)
        (λ r. returned (merge_buffered file s r.0 r.1)) (λ r. (record s { data_dir = r.0 }, r.1))
        (subst (λ dir. Sure Left (read_directory file (suc (suc n)) d dir op)) (sym fine.known)
          (read_directory-Sure n op h))
        (λ r k. (
          record {
            known = k.0;
            forward =
                subst (λ wb. All IsForward (values wb)) (sym (sorted_twice s.write_buffer))
                  fine.forward;
          },
          force_completion-Forward _
              (merge-Forward (values (sort_if_needed s.write_buffer)) r.1 fine.forward k.1),
        ))
        (λ r k. (record { known = k.0; forward = fine.forward }, k.1))

  -- Where the Read of each file appends a chain of datapoints of the wanted range, that of the one
  -- file of the directory, whose names are known, ends and adds no datapoint of a negative duration,
  -- and none is buffered: the loop of Database::Read over Series::Read ends in the rounds given if
  -- they are more than the ticks from `start` to `end` and the search for the first file may take
  -- two rounds, whenever the worker turns a task down.
  pub read_database-one_file :
      (busy : ℕ → Bool) (n rounds ticks : ℕ) (s : Series F) (start end limit : ℤ) (latest : Bool)
      (size : ℕ)
      → ReadsWell file
      → IsFine s
      → end ≤ℤ start +ℤ pos ticks
      → ticks < rounds
      → Halts (
          read_database
            (read_series file (suc (suc n)) d)
            busy
            rounds
            s
            start
            end
            limit
            latest
            size)
  read_database-one_file busy n rounds ticks s start end limit latest size well fine range fuel =
      let sure = λ (s : Series F) (op : ReadOperation) (k : IsFine s) (e : op.buffer ≡ []).
        read_series-Sure n s op k (subst (λ l. All IsForward l) (sym e) tt) in
      read_database-Halts (read_series file (suc (suc n)) d) busy (λ s. IsFine s)
        (read_series-Reading file well (suc (suc n)) d)
        (λ s op k e. Sure-Halts FineAfter _ (sure s op k e))
        (λ s op k e. Sure-Ends FineAfter (λ r. IsFine r.0) _ (λ r h. h.0) (sure s op k e))
        (λ s op k e. Sure-Ends FineAfter (λ r. Forward r.1) _ (λ r h. h.1) (sure s op k e)) rounds
        ticks s start end limit latest size fine range fuel
