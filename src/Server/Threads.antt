-- ===== src/Server/Threads.antt =====
-- vqro_server.cc: RunServer and the thread of HandleSignals, as the steps that the two can take in any
-- order. Of grpc::Server the steps use that Wait returns only after Shutdown has been called, and
-- that BuildAndStart may yield a null pointer.
use vqro.Base.{ℕ, zero, suc, inl, inr, ◌⊎◌, ap, Bool, true, false, ◌≡◌, refl, arith}

-- RunServer: up to BuildAndStart; with a server that main_server does not point to yet; in Wait; after
-- a null pointer; returned, with the server destroyed; left by an exception, the server destroyed too.
pub data Phase : Type 0 where
  starting built waiting no_server finished threw : Phase

-- `in_shutdown` says that the signal thread holds the mutex and has called the server's Shutdown,
-- `stopping` that this was ever called, and `sigterms` how often SIGTERM was taken.
pub record Process : Type 0 where
  pub phase : Phase
  pub has_main_server : Bool
  pub in_shutdown : Bool
  pub stopping : Bool
  pub sigterms : ℕ

unfoldable pub new_process : Process
new_process = record {
  phase = starting;
  has_main_server = false;
  in_shutdown = false;
  stopping = false;
  sigterms = 0;
}

abbrev pub move_to : Phase → Process → Process
move_to p s = record s { phase = p }

-- SIGTERM, with a server to shut down and without one.
unfoldable pub begin_shutdown : Process → Process
begin_shutdown s = record s { in_shutdown = true; stopping = true; sigterms = suc s.sigterms }

unfoldable pub skip_shutdown : Process → Process
skip_shutdown s = record s { sigterms = suc s.sigterms }

-- main_server is reset and the mutex released.
unfoldable pub end_shutdown : Process → Process
end_shutdown s = record s { has_main_server = false; in_shutdown = false }

unfoldable pub set_main_server : Process → Process
set_main_server s = record s { phase = waiting; has_main_server = true }

-- The catch clause of RunServer.
unfoldable pub wait_throws : Process → Process
wait_throws s = record s { phase = threw; has_main_server = false }

pub data Step (s : Process) : Process → Type 0 where
  builds : s.phase ≡ starting → Step s (move_to built s)
  builds_nothing : s.phase ≡ starting → Step s (move_to no_server s)
  registers : s.phase ≡ built → s.in_shutdown ≡ false → Step s (set_main_server s)
  returns : s.phase ≡ waiting → s.stopping ≡ true → Step s (move_to finished s)
  throws : s.phase ≡ waiting → s.in_shutdown ≡ false → Step s (wait_throws s)
  takes_sigterm : s.in_shutdown ≡ false → s.has_main_server ≡ true → Step s (begin_shutdown s)
  ignores_sigterm : s.in_shutdown ≡ false → s.has_main_server ≡ false → Step s (skip_shutdown s)
  ends_shutdown : s.in_shutdown ≡ true → Step s (end_shutdown s)

pub data Reach : Process → Type 0 where
  new : Reach new_process
  next : {s t : Process} → Reach s → Step s t → Reach t

-- Where the mutex is free and main_server is set, the server is there, and nobody has told it to stop.
pub record IsSafe (s : Process) : Type 0 where
  pub alive : s.in_shutdown ≡ false → s.has_main_server ≡ true → s.phase ≡ waiting
  pub not_told : s.in_shutdown ≡ false → s.has_main_server ≡ true → s.stopping ≡ false
  -- Before main_server is set, nothing was shut down.
  pub before_starting : s.phase ≡ starting → s.has_main_server ≡ false
  pub before_built : s.phase ≡ built → s.has_main_server ≡ false
  pub quiet_starting : s.phase ≡ starting → s.stopping ≡ false
  pub quiet_built : s.phase ≡ built → s.stopping ≡ false
  pub held : s.in_shutdown ≡ true → s.has_main_server ≡ true

Step-IsSafe : {s t : Process} → Step s t → IsSafe s → IsSafe t
unfolding begin_shutdown skip_shutdown end_shutdown set_main_server wait_throws
Step-IsSafe (builds e) v = record {
  alive = λ f m. absurd (ground (arith, v.before_starting e));
  not_told = v.not_told;
  before_starting = λ p. cc;
  before_built = λ p. v.before_starting e;
  quiet_starting = λ p. cc;
  quiet_built = λ p. v.quiet_starting e;
  held = v.held;
}
Step-IsSafe (builds_nothing e) v = record {
  alive = λ f m. absurd (ground (arith, v.before_starting e));
  not_told = v.not_told;
  before_starting = λ p. cc;
  before_built = λ p. cc;
  quiet_starting = λ p. cc;
  quiet_built = λ p. cc;
  held = v.held;
}
Step-IsSafe (registers e f) v = record {
  alive = λ g m. refl;
  not_told = λ g m. v.quiet_built e;
  before_starting = λ p. cc;
  before_built = λ p. cc;
  quiet_starting = λ p. cc;
  quiet_built = λ p. cc;
  held = λ g. cc;
}
Step-IsSafe (returns e st) v = record {
  alive = λ f m. absurd (ground (arith, v.not_told f m));
  not_told = v.not_told;
  before_starting = λ p. cc;
  before_built = λ p. cc;
  quiet_starting = λ p. cc;
  quiet_built = λ p. cc;
  held = v.held;
}
Step-IsSafe (throws e f) v = record {
  alive = λ g m. cc;
  not_told = λ g m. cc;
  before_starting = λ p. cc;
  before_built = λ p. cc;
  quiet_starting = λ p. cc;
  quiet_built = λ p. cc;
  held = λ g. cc;
}
Step-IsSafe (takes_sigterm f m) v = record {
  alive = λ g n. cc;
  not_told = λ g n. cc;
  before_starting = v.before_starting;
  before_built = v.before_built;
  quiet_starting = λ p. absurd (ground (arith, v.before_starting p));
  quiet_built = λ p. absurd (ground (arith, v.before_built p));
  held = λ g. m;
}
Step-IsSafe (ignores_sigterm f m) v = record {
  alive = λ f m. v.alive f m;
  not_told = v.not_told;
  before_starting = v.before_starting;
  before_built = v.before_built;
  quiet_starting = v.quiet_starting;
  quiet_built = v.quiet_built;
  held = v.held;
}
Step-IsSafe (ends_shutdown e) v = record {
  alive = λ g n. cc;
  not_told = λ g n. cc;
  before_starting = λ p. refl;
  before_built = λ p. refl;
  quiet_starting = v.quiet_starting;
  quiet_built = v.quiet_built;
  held = λ g. cc;
}

-- In every reachable state in which the mutex is free and main_server is set, RunServer is in Wait on
-- a server that has not been told to stop: a SIGTERM never shuts down a server that is gone, nor one
-- server twice. Before BuildAndStart has returned, main_server is not set.
pub Reach-IsSafe : {s : Process} → Reach s → IsSafe s
unfolding new_process
Reach-IsSafe new = record {
  alive = λ f m. cc;
  not_told = λ f m. refl;
  before_starting = λ p. refl;
  before_built = λ p. refl;
  quiet_starting = λ p. refl;
  quiet_built = λ p. refl;
  held = λ g. cc;
}
Reach-IsSafe (next r step) = Step-IsSafe step (Reach-IsSafe r)

-- RunServer is in Wait, nobody has told the server to stop, and `n` SIGTERMs have been taken.
abbrev pub Unheard : ℕ → Process → Type 0
Unheard n s =
    (s.sigterms ≡ n) × (s.phase ≡ waiting) × (s.stopping ≡ false) × (s.in_shutdown ≡ false)

abbrev early : ℕ → Process
early n = record {
  phase = starting;
  has_main_server = false;
  in_shutdown = false;
  stopping = false;
  sigterms = n;
}

early-Reach : (n : ℕ) → Reach (early n)
unfolding new_process skip_shutdown
early-Reach zero = new
early-Reach (suc n) = next (early-Reach n) (ignores_sigterm refl refl)

Step-Unheard :
    {n : ℕ} {s t : Process} → Step s t → Unheard n s → (t.sigterms ≡ suc n) ⊎ (t.phase ≡ threw)
unfolding begin_shutdown skip_shutdown wait_throws
Step-Unheard (builds e) u = absurd (ground (arith, u.1))
Step-Unheard (builds_nothing e) u = absurd (ground (arith, u.1))
Step-Unheard (registers e f) u = absurd (ground (arith, u.1))
Step-Unheard (returns e st) u = absurd (ground (arith, u.2))
Step-Unheard (throws e f) u = inr refl
Step-Unheard (takes_sigterm f m) u = inl (ap suc u.0)
Step-Unheard (ignores_sigterm f m) u = inl (ap suc u.0)
Step-Unheard (ends_shutdown e) u = absurd (ground (arith, u.3))

-- Any number of SIGTERMs may be taken while the database is opened, and none of them has an effect:
-- there is a reachable state in which they have been taken, RunServer is in Wait, nobody has told the
-- server to stop, and each next step is another SIGTERM or an exception.
pub lost_sigterms :
    (n : ℕ)
    → (s : Process) × Reach s
      × Unheard n s
      × ((t : Process) → Step s t → (t.sigterms ≡ suc n) ⊎ (t.phase ≡ threw))
lost_sigterms n =
    let s : Process = set_main_server (move_to built (early n)) in
    let unheard : Unheard n s = unfold set_main_server in (refl, refl, refl, refl) in
    (
      s,
      next (next (early-Reach n) (builds refl)) (registers refl refl),
      unheard,
      λ t step. Step-Unheard step unheard,
    )
