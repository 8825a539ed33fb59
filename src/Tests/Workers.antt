-- ===== src/Tests/Workers.antt =====
-- WorkerThread.
use vqro.Base.{ℕ, ◌≡◌, [], ◌∷◌, refl, arith}
use vqro.Worker.{dead, Worker, new_worker, Reach, new, next, admits, admit, pushes, push}
use vqro.Worker.Invariant.{IsConsistent, Reach-IsConsistent}
use vqro.Worker.Abandoned.{Later, abandoned_task}
use vqro.Worker.Wakeup.{lost_wakeup, IsStuck}

abbrev one_queued : Worker ℕ
unfolding new_worker admit push
one_queued = push 0 7 (admit new_worker)

one_queued-Reach : Reach 8 2 one_queued
unfolding new_worker admit push one_queued
one_queued-Reach = next (next new (admits (omega arith) (omega arith))) (pushes 7 0 refl)

Reach-IsConsistent_example : IsConsistent 8 2 one_queued
Reach-IsConsistent_example = Reach-IsConsistent 8 2 (omega arith) one_queued-Reach

lost_wakeup_example : (w : Worker ℕ) × Reach 8 2 w × IsStuck 7 w
lost_wakeup_example = lost_wakeup 8 2 7 (omega arith) (omega arith)

abandoned_task_example :
    (w : Worker ℕ) × Reach 8 2 w
    × (w.accepted ≡ 7 ∷ [])
    × (w.tasks ≡ 7 ∷ [])
    × ((v : Worker ℕ) → Later 8 2 w v → (v.phase ≡ dead) × (v.finished ≡ []))
abandoned_task_example = abandoned_task 8 2 7 (omega arith) (omega arith)
