-- ===== src/Tests/Programs.antt =====
-- The programs under examples.
use nwep_py.Prelude.{ℕ, refl, false, none, some, List, [], ◌∷◌, pos, take, if◌then◌else◌, arith}
use nwep_py.Sys.{Bytes, Abi, server, ServerCall, message, MessageCall}
use nwep_py.Sys.Exec.{World}
use nwep_py.Sys.Triple.{Ends}
use nwep_py.Sys.Keeps.{Keeps}
use nwep_py.Sys.Handles.{freed, use_after_free}
use nwep_py.Text.{
  Text, codes, same_text, encode, encode_all, encode_char, decode, decode_from, decode_step,
}
use nwep_py.Wire
use nwep_py.Wire.{Method, by_token}
use nwep_py.Client.Driven.{new_client}
use nwep_py.Server.Loop
use nwep_py.Server.Loop.{Server, new_server}
use nwep_py.Server.Request
use nwep_py.Server.Request.{Request}
use nwep_py.Examples.Node.{Site, Node}
use nwep_py.Examples.Driven.{Action, look, tick, pump, set_stop, join, close, create, run}
use nwep_py.Examples.Driven.Stopping.{IsOpen, At, driven-At}
use nwep_py.Examples.Nwcurl
use nwep_py.Examples.Nwcurl.Trace.{accepted, ends}
use nwep_py.Examples.Nwcurl.Rounds
use nwep_py.Examples.Nwcurl.Rounds.{Running, Partial, run-Followed}
use nwep_py.Examples.Nwkv
use nwep_py.Examples.Nwkv.Service.{Asked, Carries, IsDone, handler_refines}
use nwep_py.Examples.Nwkv.Pushes.{notified, Pushed, push-Ends}
use nwep_py.Examples.Nwproxy.{Proxy, Parked, serve_parked}
use nwep_py.Examples.Nwproxy.Ledger.{events}
use nwep_py.Examples.Nwproxy.Served.{Turned, Cut, serve_parked-Ends}
use nwep_py.Tests.Quiet.{quiet}

-- C takes two bytes of a stream at a time.
abbrev sipping : Abi
sipping calls (server (ServerCall.stream_send s c t body)) = pos 2
sipping calls c = quiet calls c

abbrev stream_of : ℕ → Nwcurl.Key
stream_of id = record { conn = 1; stream = id }

abbrev big : Bytes
big = 1 ∷ 2 ∷ 3 ∷ 4 ∷ 5 ∷ []

abbrev asked_for : World (Node Nwcurl.Globals)
asked_for = record {
  self = record {
    server = new_server 5;
    globals = record { pending = stream_of 4 ∷ []; active = [] };
  };
  calls = [];
}

abbrev rounds : List (List Nwcurl.Key)
rounds = (stream_of 8 ∷ []) ∷ [] ∷ []

run-Followed_example :
    Ends
      (Running sipping big (stream_of 4))
      (Partial sipping big (stream_of 4))
      (Rounds.run sipping big rounds asked_for).0
      (Rounds.run sipping big rounds asked_for).1
unfolding accepted ends
run-Followed_example =
    run-Followed sipping big (stream_of 4) rounds asked_for refl
      (refl, record { took = refl; ended = refl })

abbrev parked : ℕ → Parked
parked id = record { conn = 1; stream = id }

abbrev proxy : List Parked → World Proxy
proxy waiting = record {
  self = record {
    server = new_server 5;
    client = new_client 7;
    cache = record { handle = 11; closed = false };
    parked = waiting;
  };
  calls = [];
}

abbrev two : List Parked
two = parked 4 ∷ parked 8 ∷ []

serve_parked-Ends_example :
    Ends
      (λ _. Turned quiet (λ calls. 100) [] [] two)
      (Cut quiet (λ calls. 100) [] [] two)
      (serve_parked quiet (λ calls. 100) [] (proxy two)).0
      (serve_parked quiet (λ calls. 100) [] (proxy two)).1
unfolding events
serve_parked-Ends_example = serve_parked-Ends quiet (λ calls. 100) [] [] two (proxy two) refl refl

-- Two writers, one of which wrote twice.
abbrev written : World (Node Nwkv.Globals)
written = record {
  self = record {
    server = new_server 5;
    globals = record { store = []; to_notify = 7 ∷ 7 ∷ 9 ∷ [] };
  };
  calls = [];
}

push-Ends_example :
    Ends
      (λ _. Pushed quiet (7 ∷ 7 ∷ 9 ∷ []))
      (λ u. (n : ℕ) × Pushed quiet (take n (7 ∷ 7 ∷ 9 ∷ [])) u)
      (Nwkv.push quiet written).0
      (Nwkv.push quiet written).1
unfolding notified
push-Ends_example = push-Ends quiet [] written refl

abbrev ringing : List Action
ringing = look ∷ tick 3 ∷ pump ∷ look ∷ set_stop ∷ tick 5 ∷ pump ∷ look ∷ join ∷ close ∷ []

keeps_IsOpen : Keeps (IsOpen 5) (Loop.notify quiet 7 (codes "kv.changed") [] none)
unfolding Loop.notify freed use_after_free
keeps_IsOpen w o = ground arith

abbrev listening : World Server
listening = record { self = new_server 5; calls = [] }

driven-At_example :
    Ends
      (λ d _. At 5 (run quiet (Loop.notify quiet 7 (codes "kv.changed") [] none) ringing d))
      (IsOpen 5)
      (create quiet listening).0
      (create quiet listening).1
unfolding freed use_after_free
driven-At_example =
    driven-At quiet 5 (Loop.notify quiet 7 (codes "kv.changed") [] none) keeps_IsOpen ringing
      listening refl (record { handle = refl; still = refl; alive = refl; sound = refl })

-- A request that writes two bytes under /k.
abbrev posting : Abi
posting calls (message (MessageCall.get_header msg name)) =
    if same_text name (codes ":method") then some (codes "write") else some (codes "/k")
posting calls (message (MessageCall.get_body msg)) = some (1 ∷ 2 ∷ [])
posting calls c = quiet calls c

abbrev tokens : Method → Text
tokens Wire.write = codes "write"
tokens _ = []

abbrev posted : Request
posted = record { msg = 3; server_ptr = 5; conn = 7; stream_id = 4 }

abbrev write_k : Asked
write_k = record { method = some Wire.write; path = some (codes "/k"); body = 1 ∷ 2 ∷ [] }

carried : Carries posting tokens posted write_k
unfolding Request.path Request.method Request.body Request.header encode encode_all encode_char
    decode decode_from decode_step by_token same_text
carried = record { path = λ w. refl; method = λ w. refl; body = λ w. refl }

abbrev empty_site : World (Site Nwkv.Globals)
empty_site = record {
  self = record {
    responder = record { buf = 6; server_ptr = 5; conn = 7; stream_id = 4; used = false };
    globals = record { store = []; to_notify = [] };
  };
  calls = [];
}

handler_refines_example :
    IsDone posting write_k 7 empty_site.self (Nwkv.handler posting tokens posted empty_site)
handler_refines_example = handler_refines posting tokens posted write_k carried empty_site refl
