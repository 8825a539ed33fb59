-- ===== src/Db/Database/Open.antt =====
-- The constructor and the destructor of Database. What makes the directory and opens the search engine is
-- given; each outcome `thrown` leaves the constructor.
use vqro.Base.{
  ℕ, zero, suc, ◌<◌, ℤ, pos, leb_ℤ, pos_part, List, [], ◌∷◌, map, length, Option, none, some,
  Outcome, returned, thrown, and_then, if◌then◌else◌, ◌≡◌, refl, ap, arith,
}
use vqro.Db.Database.Write.{root_dir}
use vqro.Db.Flush.{get_worker}
use vqro.Worker.{Worker, new_worker, begin}
use vqro.Worker.Calls.{stop_worker}

pub record Database (T : Type 0) : Type 0 where
  pub root_dir : List ℕ
  pub workers : List (Worker T)

-- std::max(FLAGS_db_worker_threads, 1).
unfoldable pub num_workers : ℤ → ℕ
num_workers flag = if leb_ℤ flag (pos 1) then 1 else pos_part flag

module _ {T : Type 0} where
  -- Each worker is started, and its start is waited for.
  unfoldable pub start_workers : ℕ → List (Worker T)
  unfolding new_worker begin
  start_workers zero = []
  start_workers (suc n) = begin new_worker ∷ start_workers n

  -- `none` is the invalid_argument.
  abbrev pub open_at :
      {D : Type 0}
      → (D → List ℕ → Outcome D)
      → (D → List ℕ → Outcome D)
      → ℤ
      → D
      → Option (List ℕ)
      → Outcome (D × Option (Database T))
  open_at create_directory open_search flag d none = thrown (d, none)
  open_at create_directory open_search flag d (some root) =
      and_then (create_directory d root)
        (λ d'.
          and_then (open_search d' root)
            (λ d''.
              returned (
                d'',
                some (record { root_dir = root; workers = start_workers (num_workers flag) }),
              ))
            (λ d''. (d'', none)))
        (λ d'. (d', none))

  unfoldable pub open_database :
      {D : Type 0}
      → (D → List ℕ → Outcome D)
      → (D → List ℕ → Outcome D)
      → ℤ
      → D
      → List ℕ
      → Outcome (D × Option (Database T))
  unfolding root_dir num_workers start_workers
  open_database create_directory open_search flag d dir =
      open_at create_directory open_search flag d (root_dir dir)

  -- The destructor: each worker is stopped. What it waits for are steps of the worker itself.
  unfoldable pub close_database : ℕ → T → Database T → Database T
  unfolding stop_worker
  close_database worker_task_queue_limit nothing db = record db {
    workers = map (stop_worker worker_task_queue_limit nothing) db.workers;
  }

length-start_workers : (T : Type 0) (n : ℕ) → length (start_workers {T = T} n) ≡ n
unfolding start_workers
length-start_workers T zero = refl
length-start_workers T (suc n) = ap suc (length-start_workers T n)

-- There is a worker for every series, whatever the flag says.
get_worker-lt :
    (T : Type 0) (flag : ℤ) (keyint : ℕ)
    → get_worker keyint (length (start_workers {T = T} (num_workers flag)))
      < length (start_workers {T = T} (num_workers flag))
unfolding get_worker num_workers
get_worker-lt T flag keyint = ground (arith, length-start_workers T (num_workers flag))
