-- ===== src/Tests/Hosts.antt =====
-- A managed server with a DHT, and the opening of a managed stream.
use nwep_py.Prelude.{
  ◌≡◌, ◌+◌, refl, true, false, some, none, List, [], ◌∷◌, ℕ, map, ◌++◌, ◌≢◌, arith,
}
use nwep_py.Sys.Exec.{World}
use nwep_py.Sys.Handles.{freed, use_after_free}
use nwep_py.Identity.{NodeId}
use nwep_py.Server.Loop.{new_server}
use nwep_py.Dht.{Bootstrap}
use nwep_py.Runtime.Line.{upto}
use nwep_py.Runtime.Hosting.{Host, Readings, resolve_blocking}
use nwep_py.Runtime.Hosting.Live.{outlives}
use nwep_py.Runtime.Hosting.Asking.{Until, hits}
use nwep_py.Runtime.Hosting.Resolving.{Resolved, Unresolved, resolve_blocking-Resolved}
use nwep_py.Runtime.Starting.{DhtOptions, start}
use nwep_py.Runtime.ServerOwner.{
  Action, System, call_resolve, call_metrics, call_shutdown, deliver, look, serve, work, init, run,
  pending, servicing, ended, resolve_command, metrics_command,
}
use nwep_py.Runtime.ServerOwner.Progress.{Reading, serving as serve_all, server_owner_ends}
use nwep_py.Runtime.ServerOwner.Answers.{served, no_call_hangs}
use nwep_py.Runtime.ServerOwner.Order.{line, commands_in_order}
use nwep_py.Runtime.ServerOwner.Closing.{Held, run-Held}
use nwep_py.Runtime.ServerOwner.Faults.{resolve_hangs}
use nwep_py.Runtime.ServerOwner.Announcing.{latest, spaced}
use nwep_py.Runtime.ServerOwner.Spacing.{run-spaced}
use nwep_py.Client.Driven.{Client, new_client, MethodArg}
use nwep_py.Runtime.Opening.{open_stream}
use nwep_py.Runtime.Opening.Handles.{Settled, open_stream-Settled}
use nwep_py.Tests.Quiet.{quiet}

abbrev host : World Host
host = record {
  self = record {
    server = new_server 5;
    dht = some (record { handle = 17; server = 5; closed = false });
  };
  calls = [];
}

abbrev at : ℕ → Readings
at clock = record { clock = clock; now_ms = clock; now_secs = clock }

abbrev target : NodeId
target = record { raw = 1 ∷ [] }

abbrev day : List Action
day =
    call_resolve target 5
    ∷ look
    ∷ call_metrics
    ∷ serve (at 0) (at 3 ∷ at 6 ∷ [])
    ∷ deliver
    ∷ serve (at 7) []
    ∷ work (at 70) 70
    ∷ call_shutdown
    ∷ look
    ∷ deliver
    ∷ []

run-Held_example :
    Held 5 17 (run quiet day (init true none host)).phase (run quiet day (init true none host)).host
unfolding freed use_after_free outlives
run-Held_example = run-Held quiet 5 17 day none host (record {
  server_ptr = refl;
  server_open = refl;
  dht_open = refl;
  server_alive = refl;
  dht_alive = refl;
  server_sound = refl;
  dht_sound = refl;
  ordered = refl;
})

commands_in_order_example :
    line (run quiet day (init true none host)) ≡ upto (run quiet day (init true none host)).next
commands_in_order_example = commands_in_order quiet day true none host

resolve_blocking-Resolved_example :
    Until
      (Resolved quiet target 0)
      (Unresolved quiet target 0)
      (resolve_blocking quiet target 5 (at 0) (at 3 ∷ at 6 ∷ []) host).0
      (resolve_blocking quiet target 5 (at 0) (at 3 ∷ at 6 ∷ []) host).1
unfolding hits
resolve_blocking-Resolved_example =
    resolve_blocking-Resolved quiet target 0 5 (at 0) (at 3 ∷ at 6 ∷ []) refl host
      (record { still = refl; missed = refl })

abbrev built : World Host
built = record { self = record { server = new_server 5; dht = none }; calls = [] }

abbrev contact : Bootstrap
contact = record { entry = record { node_id = []; addr = [] } }

abbrev options : DhtOptions
options = record { contacts = some (contact ∷ []); initial_seq = 0 }

abbrev gone : System
gone = run quiet (call_shutdown ∷ look ∷ []) (init true none host)

resolve_hangs_example :
    ((run quiet (call_resolve target 5 ∷ []) gone).queue
      ≡ gone.queue ++ resolve_command gone.next target 5 ∷ [])
    × ((run quiet (call_resolve target 5 ∷ []) gone).next ≡ gone.next + 1)
    × ((run quiet (call_resolve target 5 ∷ deliver ∷ look ∷ []) gone).futures gone.next ≡ pending)
unfolding run
resolve_hangs_example =
    resolve_hangs quiet target 5 (deliver ∷ look ∷ []) gone refl refl refl refl refl

abbrev announcing : List Action
announcing =
    look
    ∷ work (at 100) 100
    ∷ look
    ∷ work (at 130) 130
    ∷ look
    ∷ work (at 170) 170
    ∷ call_shutdown
    ∷ look
    ∷ []

run-spaced_example :
    spaced (run quiet announcing (init true (some (record { raw = [] })) host)).host.calls ≡ true
unfolding latest spaced
run-spaced_example = run-spaced quiet announcing true (some (record { raw = [] })) host refl refl

abbrev connection : World Client
connection = record { self = new_client 7; calls = [] }

open_stream-Settled_example :
    Settled 7 (open_stream quiet (λ s. []) 1 false (MethodArg.raw_code 1) (47 ∷ []) connection)
unfolding freed
open_stream-Settled_example =
    open_stream-Settled quiet 7 (λ s. []) 1 false (MethodArg.raw_code 1) (47 ∷ []) connection
      (record { handle = refl; still = refl; alive = refl })

-- Stopped, with a resolve and a scrape to serve.
abbrev stopping : System
stopping = record (init true none host) {
  stop = true;
  phase = servicing 0;
  queue = resolve_command 0 target 5 ∷ metrics_command 1 ∷ [];
}

abbrev clocks : List Reading
clocks =
    record { start = at 0; turns = at 3 ∷ at 6 ∷ [] } ∷ record { start = at 7; turns = [] } ∷ []

server_owner_ends_example :
    (run quiet (map serve_all clocks ++ work (at 8) 8 ∷ look ∷ []) stopping).phase ≡ ended
server_owner_ends_example =
    server_owner_ends quiet 0 (resolve_command 0 target 5 ∷ metrics_command 1 ∷ []) clocks (at 8) 8
      stopping (refl, tt)
      (record { last = 0; phase = refl; queue = refl; stop = refl; next = refl })

-- A resolve and a scrape, asked before the owner comes to the commands.
abbrev asking : List Action
asking = call_resolve target 5 ∷ call_metrics ∷ look ∷ []

no_call_hangs_example :
    (served quiet clocks (run quiet asking (init true none host))).futures 1 ≢ pending
unfolding run
no_call_hangs_example =
    no_call_hangs quiet asking true none host false 2
      (resolve_command 0 target 5 ∷ metrics_command 1 ∷ []) clocks
      (record { last = 0; phase = refl; queue = refl; stop = refl; next = refl }) (refl, tt) 1
      (omega arith)
