-- ===== src/Runtime/Starting.antt =====
-- `_serve` of nwep/runtime.py up to the loop: the owner thread builds the server, attaches the DHT, and
-- reports to the awaiter.
pub mod Failures
use nwep_py.Prelude.{ℕ, Bool, true, false, Option, none, some, List}
use nwep_py.Errors.{Exc, Outcome, ok, raise}
use nwep_py.Sys.{Bytes, Abi, Call}
use nwep_py.Sys.Exec.{Exec, World, pure, get, put, ◌>>=◌, ◌>>◌}
use nwep_py.Server.Loop
use nwep_py.Server.Loop.{Server}
use nwep_py.Server.Building.{ServerBuilder, build}
use nwep_py.Dht
use nwep_py.Dht.{Bootstrap, attach}
use nwep_py.Runtime.Hosting.{Host, on_server, on_dht}

-- `_dht_contacts` and `_dht_seq` of the builder.
pub record DhtOptions : Type 0 where
  pub contacts : Option (List Bootstrap)
  pub initial_seq : ℕ

-- What the awaiter of `_serve` gets: an exception, the node id and the port, nothing more because it
-- was cancelled, or nothing although it waits, since the exception is not set on `ready`.
pub data Start : Type 0 where
  failed : Exc → Start
  serving : Bytes → ℕ → Start
  abandoned : Start
  unreported : Exc → Start

module _ (abi : Abi) where
  abbrev join_network : Option (List Bootstrap) → ℕ → ℕ → Exec Host (Unit {0})
  join_network none seq now_secs = pure tt
  join_network (some contacts) seq now_secs = do
    h ← get
    d ← attach abi h.server.handle contacts seq
    put (record h { dht = some d })
    on_dht (Dht.bootstrap abi now_secs)

  -- `if has_dht` of the second `try`
  unfoldable pub join_if : DhtOptions → ℕ → Exec Host (Unit {0})
  unfolding pure get put ◌>>=◌ ◌>>◌ on_dht attach Dht.bootstrap
  join_if options now_secs = join_network options.contacts options.initial_seq now_secs

  -- `(server.node_id, server.local_port)`
  unfoldable pub announced_as : Exec Host (Bytes × ℕ)
  unfolding pure ◌>>=◌ on_server Loop.node_id Loop.local_port
  announced_as = do
    id ← on_server (Loop.node_id abi)
    port ← on_server (Loop.local_port abi)
    pure (id, port)

  -- `server.close()` of the failing paths.
  abbrev shut : Start → World Host → Start × World Host
  shut r w = (r, (on_server (Loop.close abi) w).1)

  -- `ready.set_result`, on a future that the awaiter cancelled or not.
  abbrev reported : Bool → Outcome (Bytes × ℕ) → World Host → Start × World Host
  reported cancelled (raise e) w = (unreported e, w)
  reported true (ok (id, port)) w = shut abandoned w
  reported false (ok (id, port)) w = (serving id port, (on_server (Loop.fileno abi) w).1)

  abbrev joined : Bool → Outcome (Unit {0}) → World Host → Start × World Host
  joined cancelled (raise e) w = shut (failed e) w
  joined cancelled (ok _) w = let (r, v) = announced_as w in reported cancelled r v

  -- The owner behind a build that succeeded.
  unfoldable pub start : DhtOptions → ℕ → Bool → World Host → Start × World Host
  unfolding join_if announced_as on_server Loop.close Loop.fileno
  start options now_secs cancelled w =
      let (r, v) = join_if options now_secs w in joined cancelled r v

  abbrev built :
      DhtOptions → ℕ → Bool → Outcome Server → List Call → Start × Option (World Host) × List Call
  built options now_secs cancelled (raise e) calls = (failed e, none, calls)
  built options now_secs cancelled (ok server) calls =
      let (r, v) =
        start options now_secs cancelled
          (record { self = record { server = server; dht = none }; calls = calls }) in
      (r, some v, v.calls)

  -- The whole of it. The host is none where no server was built.
  unfoldable pub owner :
      DhtOptions → ℕ → Bool → World ServerBuilder → Start × Option (World Host) × List Call
  unfolding build start
  owner options now_secs cancelled w =
      let (r, v) = build abi w in built options now_secs cancelled r v.calls
