-- ===== src/Client/Write/Stream.antt =====
-- VaqueroClient of vqro_write.cc, which opens its stream at the first request, and what main does with it.
use vqro.Base.{
  ℕ, ℤ, List, [], ◌∷◌, ◌++◌, append_assoc, append-nil, map, Bool, true, false, if◌then◌else◌, ◌≡◌,
  refl, ap, sym, ◌∙◌,
}
use vqro.Db.Decimal.{to_string}
use vqro.Client.Write.{WriteRequest, Written, ended, crashed}

-- What is called of the stub and of the stream.
pub data StreamCall : Type 0 where
  write_datapoints : StreamCall
  write : WriteRequest → StreamCall
  writes_done : StreamCall
  finish : StreamCall

pub record VaqueroClient : Type 0 where
  pub has_stream : Bool
  pub calls : List StreamCall

abbrev pub new_client : VaqueroClient
new_client = record { has_stream = false; calls = [] }

-- Write.
unfoldable pub write_request : VaqueroClient → WriteRequest → VaqueroClient
write_request c r =
    if c.has_stream
    then record c { calls = c.calls ++ write r ∷ [] }
    else record { has_stream = true; calls = c.calls ++ write_datapoints ∷ write r ∷ [] }

abbrev pub write_requests : VaqueroClient → List WriteRequest → VaqueroClient
write_requests c [] = c
write_requests c (r ∷ rs) = write_requests (write_request c r) rs

-- Shutdown, whose result of Finish nobody asks for.
unfoldable pub shutdown_client : VaqueroClient → VaqueroClient
shutdown_client c =
    if c.has_stream then record c { calls = c.calls ++ writes_done ∷ finish ∷ [] } else c

abbrev pub Flags : Type 0
Flags = Bool × List ℕ × ℤ

unfoldable pub write_address : Flags → List ℕ
unfolding to_string
write_address (h, server_ip, server_port) = server_ip ++ b':' ∷ to_string server_port

-- How main ends: with its code, or by an exception of JsonCpp that nothing catches, which leaves the
-- stream open; and what the client has called.
pub data ProcessEnd : Type 0 where
  exited : ℕ → List StreamCall → ProcessEnd
  terminated : List StreamCall → ProcessEnd

unfoldable pub end_of_main : Written → ProcessEnd
unfolding write_request shutdown_client
end_of_main (ended code requests) =
    exited code (shutdown_client (write_requests new_client requests)).calls
end_of_main (crashed requests) = terminated (write_requests new_client requests).calls

-- `loop` is the loop over the lines, with the channel to the address.
unfoldable pub run_main : (List ℕ → Written) → Flags → ProcessEnd
unfolding end_of_main write_address
run_main loop flags = if flags.0 then exited 0 [] else end_of_main (loop (write_address flags))

-- After the first request, each one is a Write on the stream that is open.
write_requests-open :
    (calls : List StreamCall) (rs : List WriteRequest)
    → write_requests (record { has_stream = true; calls = calls }) rs
      ≡ record { has_stream = true; calls = calls ++ map write rs }
unfolding write_request
write_requests-open calls [] =
    ap (λ (l : List StreamCall). record { has_stream = true; calls = l }) (sym (append-nil calls))
write_requests-open calls (r ∷ rs) =
    write_requests-open (calls ++ write r ∷ []) rs
    ∙ ap (λ (l : List StreamCall). record { has_stream = true; calls = l })
        (append_assoc calls (write r ∷ []) (map write rs))

-- Where the loop ends with requests, they go over one stream, in order, which is then closed once.
end_of_main-calls :
    (code : ℕ) (r : WriteRequest) (rs : List WriteRequest)
    → end_of_main (ended code (r ∷ rs))
      ≡ exited code (write_datapoints ∷ write r ∷ (map write rs ++ writes_done ∷ finish ∷ []))
unfolding end_of_main write_request shutdown_client
end_of_main-calls code r rs =
    ap (λ c. exited code (shutdown_client c).calls)
      (write_requests-open (write_datapoints ∷ write r ∷ []) rs)

-- Without requests no stream is opened.
end_of_main_none : (code : ℕ) → end_of_main (ended code []) ≡ exited code []
unfolding end_of_main shutdown_client
end_of_main_none code = refl
