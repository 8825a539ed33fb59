-- ===== src/Server/Main.antt =====
-- main of vqro_server.cc: its flags, and how RunServer ends.
use vqro.Base.{ℕ, ℤ, List, [], ◌∷◌, ◌++◌, Bool, if◌then◌else◌}
use vqro.Db.Decimal.{to_string}

-- RunServer returns, throws a vqro::Error, or throws something else.
pub data RunEnd : Type 0 where
  ran threw_error threw_other : RunEnd

pub record Flags : Type 0 where
  pub h : Bool
  pub data_directory : List ℕ
  pub listen_ip : List ℕ
  pub listen_port : ℤ

pub data MainEnd : Type 0 where
  exited : ℕ → MainEnd
  terminated : MainEnd

-- The catch clause takes a vqro::Error only.
unfoldable pub end_of_run : RunEnd → MainEnd
end_of_run ran = exited 0
end_of_run threw_error = exited 1
end_of_run threw_other = terminated

unfoldable pub server_address : Flags → List ℕ
unfolding to_string
server_address flags = flags.listen_ip ++ b':' ∷ to_string flags.listen_port

-- `run` is RunServer, by the data directory and the address.
abbrev run_in : (List ℕ → List ℕ → RunEnd) → Flags → List ℕ → MainEnd
run_in run flags [] = exited 1
run_in run flags (c ∷ cs) = end_of_run (run (c ∷ cs) (server_address flags))

unfoldable pub main : (List ℕ → List ℕ → RunEnd) → Flags → MainEnd
unfolding end_of_run server_address
main run flags = if flags.h then exited 0 else run_in run flags flags.data_directory
