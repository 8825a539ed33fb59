-- ===== src/Worker.antt =====
-- vqro/base/worker.h: a thread with a queue of tasks, as the steps that it and the threads that call
-- it can take, in any order. `limit` is worker_task_queue_limit.
pub mod Invariant
pub mod Wakeup
pub mod Abandoned
pub mod Calls
use vqro.Base.{ℕ, zero, suc, ◌+◌, ◌≤◌, ◌<◌, List, [], ◌∷◌, ◌++◌, Bool, true, false, ◌≡◌, length}

-- Where the thread stands: before its first round; at the loop's test; at the test of the queue in
-- `wait`; past that test with the queue found empty, but not asleep yet; asleep; with a task; gone.
pub data Phase (T : Type 0) : Type 0 where
  starting at_loop at_queue found_empty asleep dead : Phase T
  working : T → Phase T

-- `admitted` callers of Do have passed the test of the queue's length and not pushed yet, and
-- `notifying` ones have pushed and not notified yet. `accepted` and `finished` record all tasks that
-- were ever pushed, and those that have run.
pub record Worker (T : Type 0) : Type 0 where
  pub phase : Phase T
  pub tasks : List T
  pub keep_processing : Bool
  pub alive : Bool
  pub admitted : ℕ
  pub notifying : ℕ
  pub accepted : List T
  pub finished : List T

module _ {T : Type 0} where
  unfoldable pub new_worker : Worker T
  new_worker = record {
    phase = starting;
    tasks = [];
    keep_processing = true;
    alive = false;
    admitted = 0;
    notifying = 0;
    accepted = [];
    finished = [];
  }

  -- Do: the test of the queue's length, without the lock; the push; notify_one.
  unfoldable pub admit : Worker T → Worker T
  admit w = record w { admitted = suc w.admitted }

  unfoldable pub push : ℕ → T → Worker T → Worker T
  push others t w = record w {
    tasks = w.tasks ++ t ∷ [];
    admitted = others;
    notifying = suc w.notifying;
    accepted = w.accepted ++ t ∷ [];
  }

  abbrev pub woken : Phase T → Phase T
  woken asleep = at_queue
  woken starting = starting
  woken at_loop = at_loop
  woken at_queue = at_queue
  woken found_empty = found_empty
  woken dead = dead
  woken (working t) = working t

  unfoldable pub notify : ℕ → Worker T → Worker T
  notify others w = record w { phase = woken w.phase; notifying = others }

  -- Stop, up to its call of Do.
  unfoldable pub stop : Worker T → Worker T
  stop w = record w { keep_processing = false }

  unfoldable pub begin : Worker T → Worker T
  begin w = record w { phase = at_loop; alive = true }

  abbrev pub move_to : Phase T → Worker T → Worker T
  move_to p w = record w { phase = p }

  unfoldable pub take_task : T → List T → Worker T → Worker T
  take_task t rest w = record w { phase = working t; tasks = rest }

  unfoldable pub finish : T → Worker T → Worker T
  finish t w = record w { phase = at_loop; finished = w.finished ++ t ∷ [] }

  unfoldable pub die : Worker T → Worker T
  die w = record w { phase = dead; alive = false }

-- One step, with at most `callers` threads inside of Do at a time.
pub data Step {T : Type 0} (limit callers : ℕ) (w : Worker T) : Worker T → Type 0 where
  admits : length w.tasks < limit → w.admitted < callers → Step limit callers w (admit w)
  rejects : limit ≤ length w.tasks → Step limit callers w w
  pushes : (t : T) (n : ℕ) → w.admitted ≡ suc n → Step limit callers w (push n t w)
  notifies : (n : ℕ) → w.notifying ≡ suc n → Step limit callers w (notify n w)
  stops : Step limit callers w (stop w)
  begins : w.phase ≡ starting → Step limit callers w (begin w)
  goes_on : w.phase ≡ at_loop → w.keep_processing ≡ true → Step limit callers w (move_to at_queue w)
  dies : w.phase ≡ at_loop → w.keep_processing ≡ false → Step limit callers w (die w)
  finds_empty : w.phase ≡ at_queue → w.tasks ≡ [] → Step limit callers w (move_to found_empty w)
  falls_asleep : w.phase ≡ found_empty → Step limit callers w (move_to asleep w)
  takes :
      (t : T) (rest : List T)
      → w.phase ≡ at_queue
      → w.tasks ≡ t ∷ rest
      → Step limit callers w (take_task t rest w)
  finishes : (t : T) → w.phase ≡ working t → Step limit callers w (finish t w)

pub data Reach {T : Type 0} (limit callers : ℕ) : Worker T → Type 0 where
  new : Reach limit callers new_worker
  next : {w v : Worker T} → Reach limit callers w → Step limit callers w v → Reach limit callers v
