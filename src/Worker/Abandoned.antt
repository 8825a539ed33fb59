-- ===== src/Worker/Abandoned.antt =====
-- A worker that has been stopped leaves tasks in its queue, whose futures are never fulfilled.
use vqro.Base.{ℕ, ◌<◌, List, [], ◌∷◌, ◌≡◌, refl, arith}
use vqro.Worker.{
  dead, Worker, new_worker, admit, push, notify, stop, begin, take_task, finish, die, Step, admits,
  rejects, pushes, notifies, stops, begins, goes_on, dies, finds_empty, falls_asleep, takes,
  finishes, Reach, new, next,
}

module _ {T : Type 0} (limit callers : ℕ) where
  -- What can come of a worker.
  pub data Later (w : Worker T) : Worker T → Type 0 where
    here : Later w w
    then_step : {v u : Worker T} → Later w v → Step limit callers v u → Later w u

  -- The thread is gone, and has finished the tasks `done`.
  abbrev pub Gone : List T → Worker T → Type 0
  Gone done w = (w.phase ≡ dead) × (w.finished ≡ done)

  Gone-Step : {done : List T} {w v : Worker T} → Step limit callers w v → Gone done w → Gone done v
  unfolding admit push notify stop begin take_task finish die
  Gone-Step (admits a b) g = g
  Gone-Step (rejects a) g = g
  Gone-Step (pushes t n e) g = g
  Gone-Step {w = w} (notifies n e) g = (rw g.0 refl, g.1)
  Gone-Step (stops) g = g
  Gone-Step (begins e) g = absurd (ground (arith, g.0))
  Gone-Step (goes_on e k) g = absurd (ground (arith, g.0))
  Gone-Step (dies e k) g = (refl, g.1)
  Gone-Step (finds_empty e k) g = absurd (ground (arith, g.0))
  Gone-Step (falls_asleep e) g = absurd (ground (arith, g.0))
  Gone-Step (takes t rest e k) g = absurd (ground (arith, g.0))
  Gone-Step (finishes t e) g = absurd (ground (arith, g.0))

  Gone-Later : {done : List T} {w v : Worker T} → Later w v → Gone done w → Gone done v
  Gone-Later here g = g
  Gone-Later (then_step l s) g = Gone-Step s (Gone-Later l g)

  -- Where the queue has room for a task and one thread may call: a task can be accepted just before
  -- the worker is stopped, and the worker then leaves its loop with the task in the queue. Whatever
  -- happens afterwards, the task is never run, so that a caller who waits for it waits for ever.
  pub abandoned_task :
      (t : T)
      → 0 < limit
      → 0 < callers
      → (w : Worker T) × Reach limit callers w
        × (w.accepted ≡ t ∷ [])
        × (w.tasks ≡ t ∷ [])
        × ((v : Worker T) → Later w v → (v.phase ≡ dead) × (v.finished ≡ []))
  unfolding new_worker admit push notify stop begin die
  abandoned_task t room some_caller =
      let queued : Worker T = push 0 t (admit (begin new_worker)) in
      let gone : Worker T = die (stop queued) in
      let reach : Reach limit callers gone =
        next
          (next (next (next (next new (begins refl)) (admits room some_caller)) (pushes t 0 refl))
            stops)
          (dies refl refl) in
      (gone, reach, refl, refl, λ v later. Gone-Later later (refl, refl))
