-- ===== src/Db/Optimizer/Queue.antt =====
-- StorageOptimizer::SparseFileTooBig, which hands the conversion to the worker of the series, with what
-- WorkerThread::Do does where no other thread calls it.
use vqro.Base.{ℕ, List, length, set, get_elem?, Option, none, some}
use vqro.Db.Flush.{get_worker}
use vqro.Worker.{Worker}
use vqro.Worker.Calls.{do_task}

module _ {T : Type 0} (worker_task_queue_limit : ℕ) where
  abbrev replaced : List (Worker T) → ℕ → Option (Worker T) → Option (List (Worker T))
  replaced workers i none = none
  replaced workers i (some w) = some (set workers i w)

  abbrev given_to : List (Worker T) → ℕ → T → Option (Worker T) → Option (List (Worker T))
  given_to workers i task none = none
  given_to workers i task (some w) = replaced workers i (do_task worker_task_queue_limit task w)

  -- The task is the conversion of the file; it is not waited for.
  unfoldable pub sparse_file_too_big : List (Worker T) → ℕ → T → Option (List (Worker T))
  unfolding do_task get_worker
  sparse_file_too_big workers keyint conversion =
      let i : ℕ = get_worker keyint (length workers) in
      given_to workers i conversion (get_elem? workers i)
