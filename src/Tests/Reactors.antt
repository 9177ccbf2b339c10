-- ===== src/Tests/Reactors.antt =====
-- A driven server, and the builder of one.
use nwep_py.Server.Loop.{finalize}
use nwep_py.Prelude.{◌≡◌, refl, true, false, none, some, List, [], ◌∷◌}
use nwep_py.Errors.{ok}
use nwep_py.Sys.{Listen, server, ServerCall}
use nwep_py.Sys.Exec.{World}
use nwep_py.Sys.Handles.{freed, use_after_free, server_handle}
use nwep_py.Server.Loop.{Server, new_server}
use nwep_py.Server.Loop.Lifetime
use nwep_py.Server.Loop.Lifetime.{
  ServerOp, tick_op, install_op, close_op, installed, server_block_frees,
}
use nwep_py.Server.Building.{ServerBuilder, build}
use nwep_py.Server.Building.Socket.{with_limit, with_handler, build_listens}
use nwep_py.Identity.{Identity, new_identity}
use nwep_py.Tests.Quiet.{quiet}

abbrev owner : Identity
owner = new_identity 3 [] (record { raw = [] })

abbrev open_server : World Server
open_server = record { self = new_server 5; calls = [] }

abbrev body : List ServerOp
body = install_op ∷ tick_op 3 ∷ []

server_block_frees_example :
    Lifetime.IsSound 5 (Lifetime.run quiet body open_server)
    × Lifetime.IsSound 5 (Lifetime.step quiet close_op (Lifetime.run quiet body open_server))
    × (freed
          (server_handle 5)
          (Lifetime.step quiet close_op (Lifetime.run quiet body open_server)).calls
        ≡ true)
    × (Lifetime.step quiet close_op
          (Lifetime.step quiet close_op (Lifetime.run quiet body open_server))
        ≡ Lifetime.step quiet close_op (Lifetime.run quiet body open_server))
    × ((finalize quiet (Lifetime.run quiet body open_server)).1
        ≡ Lifetime.step quiet close_op (Lifetime.run quiet body open_server))
unfolding freed use_after_free installed
server_block_frees_example =
    server_block_frees quiet 5 body open_server refl refl
      (record { handle = refl; flagged = refl; sound = refl; kept = refl })

abbrev sharded : World ServerBuilder
sharded = record {
  self = record {
    owner = some owner;
    bind = none;
    handler = true;
    max_parked = some 8;
    reuse_port = false;
    fd = some 4;
    shard_id = some 1;
  };
  calls = [];
}

build_listens_example :
    ((build quiet sharded).0 ≡ ok (record { handle = 5; closed = false; handler_cb = true }))
    × ((build quiet sharded).1.calls
        ≡ with_handler true 5
            (with_limit (some 8) 5 (server (ServerCall.listen (Listen.fd_sharded 4 1) 3) ∷ [])))
build_listens_example =
    build_listens quiet sharded {i = owner} {how = Listen.fd_sharded 4 1} {n = 0} {m = 0} {out = 5}
      refl refl refl refl refl
