-- ===== src/Worker/Invariant.antt =====
-- WorkerThread: the length of the queue, and the order in which tasks run.
use vqro.Base.{
  ℕ, ◌+◌, ◌<◌, List, [], ◌∷◌, ◌++◌, ◌≡◌, refl, sym, ap, ◌∙◌, length, length-append, append_assoc,
  append-nil, arith,
}
use vqro.Worker.{
  Phase, starting, at_loop, at_queue, found_empty, asleep, dead, working, Worker, new_worker, admit,
  push, woken, notify, stop, begin, take_task, finish, die, Step, admits, rejects, pushes, notifies,
  stops, begins, goes_on, dies, finds_empty, falls_asleep, takes, finishes, Reach, new, next,
}

-- The task that the thread is working on.
abbrev pub current : {T : Type 0} → Phase T → List T
current (working t) = t ∷ []
current starting = []
current at_loop = []
current at_queue = []
current found_empty = []
current asleep = []
current dead = []

pub record IsConsistent {T : Type 0} (limit callers : ℕ) (w : Worker T) : Type 0 where
  pub bounded : length w.tasks + w.admitted < limit + callers
  pub ordered : w.accepted ≡ w.finished ++ current w.phase ++ w.tasks

current-woken : {T : Type 0} (p : Phase T) → current (woken p) ≡ current p
current-woken asleep = refl
current-woken _ = refl

regroup :
    {T : Type 0} {all : List T} (done : List T) (p q : Phase T) (rest : List T)
    → all ≡ done ++ current p ++ rest
    → current p ≡ current q
    → all ≡ done ++ current q ++ rest
regroup done p q rest h e = h ∙ ap (λ c. done ++ c ++ rest) e

module _ {T : Type 0} (limit callers : ℕ) where
  -- Every step keeps the queue below the limit plus the number of callers, and keeps the tasks that
  -- were accepted in the order in which they run.
  pub Step-IsConsistent :
      {w v : Worker T}
      → Step limit callers w v
      → IsConsistent limit callers w
      → IsConsistent limit callers v
  unfolding admit push notify stop begin take_task finish die
  Step-IsConsistent (admits room free) c = record {
    bounded = omega (arith, c.bounded);
    ordered = c.ordered;
  }
  Step-IsConsistent (rejects full) c = c
  Step-IsConsistent {w} (pushes t n e) c = record {
    bounded = omega (arith, c.bounded, length-append w.tasks (t ∷ []), e);
    ordered =
        ap (λ (l : List T). l ++ t ∷ []) c.ordered
        ∙ append_assoc (w.finished ++ current w.phase) w.tasks (t ∷ []);
  }
  Step-IsConsistent {w} (notifies n e) c = record {
    bounded = c.bounded;
    ordered = rw (current-woken w.phase) c.ordered;
  }
  Step-IsConsistent stops c = record { bounded = c.bounded; ordered = c.ordered }
  Step-IsConsistent {w} (begins e) c = record {
    bounded = c.bounded;
    ordered = regroup w.finished w.phase at_loop w.tasks c.ordered (ap current e);
  }
  Step-IsConsistent {w} (goes_on e k) c = record {
    bounded = c.bounded;
    ordered = regroup w.finished w.phase at_queue w.tasks c.ordered (ap current e);
  }
  Step-IsConsistent {w} (dies e k) c = record {
    bounded = c.bounded;
    ordered = regroup w.finished w.phase dead w.tasks c.ordered (ap current e);
  }
  Step-IsConsistent {w} (finds_empty e k) c = record {
    bounded = c.bounded;
    ordered = regroup w.finished w.phase found_empty w.tasks c.ordered (ap current e);
  }
  Step-IsConsistent {w} (falls_asleep e) c = record {
    bounded = c.bounded;
    ordered = regroup w.finished w.phase asleep w.tasks c.ordered (ap current e);
  }
  Step-IsConsistent {w} (takes t rest e q) c = record {
    bounded = omega (arith, c.bounded, ap length q);
    ordered =
        regroup w.finished w.phase at_queue w.tasks c.ordered (ap current e)
        ∙ ap (λ (l : List T). w.finished ++ [] ++ l) q
        ∙ ap (λ (l : List T). l ++ t ∷ rest) (append-nil w.finished)
        ∙ sym (append_assoc w.finished (t ∷ []) rest);
  }
  Step-IsConsistent {w} (finishes t e) c = record {
    bounded = c.bounded;
    ordered =
        regroup w.finished w.phase (working t) w.tasks c.ordered (ap current e)
        ∙ ap (λ (l : List T). l ++ w.tasks) (sym (append-nil (w.finished ++ t ∷ [])));
  }

  new_worker-IsConsistent : 0 < callers → IsConsistent limit callers (new_worker {T = T})
  unfolding new_worker
  new_worker-IsConsistent some_caller = record { bounded = omega arith; ordered = refl }

  -- Where one thread at least may call, then in every state that the worker can come to, its queue
  -- is shorter than the limit plus the number of threads that call it at a time, and the tasks that
  -- it accepted are those that it finished, the one that it works on and those in the queue, in
  -- this order.
  pub Reach-IsConsistent :
      {w : Worker T} → 0 < callers → Reach limit callers w → IsConsistent limit callers w
  Reach-IsConsistent some_caller new = new_worker-IsConsistent some_caller
  Reach-IsConsistent some_caller (next r s) = Step-IsConsistent s (Reach-IsConsistent some_caller r)
