-- ===== src/Server.antt =====
-- vqro_server.cc: Shutdown and the loop of HandleSignals. The mutex makes each Shutdown one step.
pub mod Threads
pub mod Main
use vqro.Base.{ℕ, suc, List, [], ◌∷◌, Bool, true, false, ◌≤◌, ◌≡◌, refl, ap, arith, if◌then◌else◌}

-- Whether main_server points to a server, and how often that server's Shutdown was called.
pub record Server : Type 0 where
  pub has_main_server : Bool
  pub shutdowns : ℕ

unfoldable pub shutdown : Server → Server
shutdown s =
    if s.has_main_server then record { has_main_server = false; shutdowns = suc s.shutdowns } else s

pub data Signal : Type 0 where
  sigterm other_signal : Signal

unfoldable pub handle_signals : List Signal → Server → Server
unfolding shutdown
handle_signals [] s = s
handle_signals (sigterm ∷ signals) s = handle_signals signals (shutdown s)
handle_signals (other_signal ∷ signals) s = handle_signals signals s

stopped :
    (signals : List Signal) (n : ℕ)
    → handle_signals signals (record { has_main_server = false; shutdowns = n })
      ≡ record { has_main_server = false; shutdowns = n }
unfolding handle_signals
stopped [] n = refl
stopped (sigterm ∷ signals) n = stopped signals n
stopped (other_signal ∷ signals) n = stopped signals n

-- However many signals arrive, the server is told to shut down once at most.
pub handle_signals_once :
    (signals : List Signal) (n : ℕ)
    → (handle_signals signals (record { has_main_server = true; shutdowns = n })).shutdowns ≤ suc n
unfolding handle_signals
handle_signals_once [] n = omega arith
handle_signals_once (sigterm ∷ signals) n =
    omega (arith, ap (λ (s : Server). s.shutdowns) (stopped signals (suc n)))
handle_signals_once (other_signal ∷ signals) n = handle_signals_once signals n
