-- ===== src/Worker/Wakeup.antt =====
-- WorkerThread: a wake-up that is lost.
use vqro.Base.{ℕ, ◌<◌, [], ◌∷◌, ◌≡◌, refl}
use vqro.Worker.{
  at_queue, found_empty, asleep, Worker, new_worker, admit, push, notify, begin, move_to, admits,
  pushes, notifies, begins, goes_on, finds_empty, falls_asleep, Reach, new, next,
}

-- The worker sleeps though a task waits in its queue and no caller is on the way to wake it up.
pub record IsStuck {T : Type 0} (t : T) (w : Worker T) : Type 0 where
  pub sleeps : w.phase ≡ asleep
  pub queued : w.tasks ≡ t ∷ []
  pub none_admitted : w.admitted ≡ 0
  pub none_notifying : w.notifying ≡ 0

-- Where the queue has room for a task and one thread may call: since notify_one is called without
-- the mutex of the wait, a task can be pushed and notified between the worker's test of the queue
-- and its falling asleep; the worker then sleeps on the task.
pub lost_wakeup :
    {T : Type 0} (limit callers : ℕ) (t : T)
    → 0 < limit
    → 0 < callers
    → (w : Worker T) × Reach limit callers w × IsStuck t w
unfolding new_worker begin admit push notify
lost_wakeup {T} limit callers t room free =
    let w0 : Worker T = new_worker in
    let w1 : Worker T = move_to found_empty (move_to at_queue (begin w0)) in
    let w2 : Worker T = notify 0 (push 0 t (admit w1)) in
    let asked : Reach limit callers w1 =
      next (next (next new (begins refl)) (goes_on refl refl)) (finds_empty refl refl) in
    let told : Reach limit callers w2 =
      next (next (next asked (admits room free)) (pushes t 0 refl)) (notifies 0 refl) in
    (
      move_to asleep w2,
      next told (falls_asleep refl),
      record { sleeps = refl; queued = refl; none_admitted = refl; none_notifying = refl },
    )
