-- ===== src/Worker/Calls.antt =====
-- WorkerThread::Do and Stop as whole calls, where no other thread calls the worker in between.
use vqro.Base.{ℕ, ltb, length, Option, none, some, if◌then◌else◌}
use vqro.Worker.{Worker, admit, push, notify, stop}

module _ {T : Type 0} (worker_task_queue_limit : ℕ) where
  -- `none` stands for WorkerThreadTooBusy.
  unfoldable pub do_task : T → Worker T → Option (Worker T)
  unfolding admit push notify
  do_task t w =
      if ltb (length w.tasks) worker_task_queue_limit
      then some (notify w.notifying (push w.admitted t (admit w)))
      else none

  -- A queue that is full is no error: the thread does not wait then.
  abbrev unless_busy : Worker T → Option (Worker T) → Worker T
  unless_busy w none = w
  unless_busy w (some woken) = woken

  -- `nothing` is the empty task that wakes the thread up.
  unfoldable pub stop_worker : T → Worker T → Worker T
  unfolding stop do_task
  stop_worker nothing w = unless_busy (stop w) (do_task nothing (stop w))
