-- ===== src/Tests/Servers.antt =====
-- The server's threads, the statistics, and file handles.
use vqro.Base.{ℕ, pos, [], ◌∷◌, ◌⊎◌, get_elem?, none, some, false, ◌≡◌, refl, true}
use vqro.Server.Threads.{
  Process, Reach, new, next, builds, registers, Step, IsSafe, Reach-IsSafe, Unheard, lost_sigterms,
  move_to, built, new_process, set_main_server, threw,
}
use vqro.Server.Main.{Flags, main, ran, threw_other, exited, terminated}
use vqro.Stats.{Proc, new_proc_stat, Usage, log_resource_usage, read_proc_stat}
use vqro.Stats.Laws.{IsComplete, log_resource_usage-delta, usage_after, sample}
use vqro.FileUtil.Handle.{
  Descriptors, open_fd, new_handle, call_with, use_file, use_file-closes_other,
}

abbrev in_wait : Process
unfolding set_main_server new_process
in_wait = set_main_server (move_to built new_process)

in_wait-Reach : Reach in_wait
unfolding set_main_server new_process in_wait
in_wait-Reach = next (next new (builds refl)) (registers refl refl)

Reach-IsSafe_example : IsSafe in_wait
Reach-IsSafe_example = Reach-IsSafe in_wait-Reach

lost_sigterms_example :
    (s : Process) × Reach s
    × Unheard 1 s
    × ((t : Process) → Step s t → (t.sigterms ≡ 2) ⊎ (t.phase ≡ threw))
lost_sigterms_example = lost_sigterms 1

abbrev server_flags : Flags
server_flags = record {
  h = false;
  data_directory = b'd' ∷ [];
  listen_ip = b'i' ∷ [];
  listen_port = pos 7950;
}

main_test : main (λ dir address. ran) server_flags ≡ exited 0
unfolding main
main_test = refl

-- An exception that is not a vqro::Error is not caught.
main_terminated : main (λ dir address. threw_other) server_flags ≡ terminated
unfolding main
main_terminated = refl

abbrev proc_at : ℕ → ℕ → Proc
proc_at user idle = record {
  self_stat = some (record {
    user = user;
    sys = 1;
    child_user = pos 0;
    child_sys = pos 0;
    vsize = 100;
    rss_pages = pos 2;
  });
  system_stat = some (record { user = user; nice = 0; sys = 1; idle = idle });
  fd_entries = some 7;
}

proc_at-IsComplete : (user idle : ℕ) → IsComplete (proc_at user idle)
proc_at-IsComplete user idle = record { self = (_, refl); system = (_, refl); fds = (7, refl) }

-- The files of the process are found, and those of the system are not.
abbrev failing : Proc
failing = record (proc_at 50 50) { system_stat = none }

abbrev started : Usage
unfolding new_proc_stat
started = record { first_time = false; current = new_proc_stat; last = new_proc_stat }

log_resource_usage-delta_example :
    (log_resource_usage 4096
      (proc_at 14 100)
      (usage_after 4096 (failing ∷ []) (log_resource_usage 4096 (proc_at 10 90) started).0)).1
    ≡ some (record {
      now = sample 4096 (proc_at 14 100);
      user_delta = 4;
      sys_delta = 0;
      total_delta = 14;
    })
unfolding read_proc_stat new_proc_stat started
log_resource_usage-delta_example =
    log_resource_usage-delta 4096 started (proc_at 10 90) (proc_at 14 100) (failing ∷ []) refl
      (proc_at-IsComplete 10 90) (proc_at-IsComplete 14 100) ((λ s. refl), tt)

-- Descriptors 0 and 2 are open.
abbrev two_open : Descriptors
two_open = some 70 ∷ none ∷ some 71 ∷ []

use_file-closes_other_example :
    (get_elem?
        (open_fd 6 (call_with (new_handle 5 true two_open).1 (new_handle 5 true two_open).0)).0
        1
      ≡ some (some 6))
    × (get_elem? (use_file 5 (λ t. (open_fd 6 t).0) two_open) 1 ≡ some none)
unfolding open_fd call_with new_handle
use_file-closes_other_example = use_file-closes_other 5 6 two_open
