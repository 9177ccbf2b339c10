-- ===== src/Server/Building.antt =====
-- `ServerBuilder` of nwep/server.py: its setters and `build`. The options of the managed DHT are in
-- Runtime.Starting.
pub mod Socket
use nwep_py.Prelude.{ℕ, Bool, true, false, Option, none, some, ℤ, neg, if◌then◌else◌}
use nwep_py.Errors.{Exc, Outcome, ok, raise, nwep, from_code}
use nwep_py.Sys.{Bytes, Ptr, Abi, Listen, server, ServerCall}
use nwep_py.Sys.Exec.{Exec, pure, throw, lift, get, put, ◌>>=◌, ◌>>◌, checked, ccall, World}
use nwep_py.Identity.{Identity, keypair}
use nwep_py.Address.{Address}
use nwep_py.Server.Loop.{Server, new_server, install_handler}

-- What `build` reads of a builder: the identity as it is when it is used, the raw address, and the
-- options; of the handler, whether there is one.
pub record ServerBuilder : Type 0 where
  pub owner : Option Identity
  pub bind : Option Bytes
  pub handler : Bool
  pub max_parked : Option ℕ
  pub reuse_port : Bool
  pub fd : Option ℕ
  pub shard_id : Option ℕ

-- `__init__`
abbrev pub new_builder : ServerBuilder
new_builder = record {
  owner = none;
  bind = none;
  handler = false;
  max_parked = none;
  reuse_port = false;
  fd = none;
  shard_id = none;
}

-- The setters.
unfoldable pub set_identity : Identity → Exec ServerBuilder (Unit {0})
unfolding ◌>>=◌ put
set_identity i = do b ← get; put (record b { owner = some i })

unfoldable pub set_bind : Address → Exec ServerBuilder (Unit {0})
unfolding ◌>>=◌ put
set_bind address = do b ← get; put (record b { bind = some address.raw })

unfoldable pub on_request : Exec ServerBuilder (Unit {0})
unfolding ◌>>=◌ put
on_request = do b ← get; put (record b { handler = true })

unfoldable pub set_max_parked : ℕ → Exec ServerBuilder (Unit {0})
unfolding ◌>>=◌ put
set_max_parked limit = do b ← get; put (record b { max_parked = some limit })

unfoldable pub set_reuse_port : Exec ServerBuilder (Unit {0})
unfolding ◌>>=◌ put
set_reuse_port = do b ← get; put (record b { reuse_port = true })

unfoldable pub from_fd : ℕ → Option ℕ → Exec ServerBuilder (Unit {0})
unfolding ◌>>=◌ put
from_fd fd shard_id = do b ← get; put (record b { fd = some fd; shard_id = shard_id })

-- `_missing`
abbrev pub missing : Exc
missing = nwep (from_code (neg 102))

module _ (abi : Abi) where
  abbrev listen_fd : Ptr → ℕ → Option ℕ → Exec ServerBuilder (ℤ × Ptr)
  listen_fd kp fd (some shard_id) =
      ccall abi (server (ServerCall.listen (Listen.fd_sharded fd shard_id) kp))
  listen_fd kp fd none = ccall abi (server (ServerCall.listen (Listen.fd fd) kp))

  abbrev listen_bind : Ptr → Bool → Option Bytes → Exec ServerBuilder (ℤ × Ptr)
  listen_bind kp reuse none = throw missing
  listen_bind kp true (some raw) = ccall abi (server (ServerCall.listen (Listen.reuseport raw) kp))
  listen_bind kp false (some raw) = ccall abi (server (ServerCall.listen (Listen.address raw) kp))

  abbrev listen : Ptr → Option ℕ → ServerBuilder → Exec ServerBuilder (ℤ × Ptr)
  listen kp (some fd) b = listen_fd kp fd b.shard_id
  listen kp none b = listen_bind kp b.reuse_port b.bind

  abbrev limit_parked : Ptr → Option ℕ → Exec ServerBuilder (Unit {0})
  limit_parked handle none = pure tt
  limit_parked handle (some limit) = ccall abi (server (ServerCall.set_max_parked handle limit))

  -- The handler is installed on the new server, which is another object.
  abbrev with_server : Outcome (Unit {0}) → Server → Outcome Server
  with_server (ok _) made = ok made
  with_server (raise e) made = raise e

  abbrev install_if : Bool → Server → Exec ServerBuilder Server
  install_if false made w = (ok made, w)
  install_if true made w =
      let (r, v) = install_handler abi (record { self = made; calls = w.calls }) in
      (with_server r v.self, record w { calls = v.calls })

  abbrev build_with : Option Identity → ServerBuilder → Exec ServerBuilder Server
  build_with none b = throw missing
  build_with (some i) b = do
    kp ← keypair i
    (rc, out) ← listen kp b.fd b
    checked rc
    limit_parked out b.max_parked
    install_if b.handler (new_server out)

  unfoldable pub build : Exec ServerBuilder Server
  unfolding ◌>>=◌ ◌>>◌ throw lift ccall checked install_handler keypair
  build = do b ← get; build_with b.owner b
