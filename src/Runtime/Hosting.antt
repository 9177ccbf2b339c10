-- ===== src/Runtime/Hosting.antt =====
-- The server and the DHT that an owner thread of nwep/runtime.py holds, and `_resolve_blocking`.
pub mod Turns
pub mod Live
pub mod Lookup
pub mod Asking
pub mod Resolving
use nwep_py.Prelude.{ℕ, ◌+◌, Bool, true, false, Option, none, some, List, [], ◌∷◌, neg, ltb}
use nwep_py.Errors.{Exc, Outcome, ok, raise, nwep, from_code, attribute_error}
use nwep_py.Sys.{Abi}
use nwep_py.Sys.Exec.{Exec, World, pure, throw, ◌>>=◌, ◌>>◌}
use nwep_py.Identity.{NodeId}
use nwep_py.Address.{Address}
use nwep_py.Server.Loop
use nwep_py.Server.Loop.{Server}
use nwep_py.Dht
use nwep_py.Dht.{Dht, Record}

-- `dht` is None where no contacts were given.
pub record Host : Type 0 where
  pub server : Server
  pub dht : Option Dht

unfoldable pub on_server : {A : Type 0} → Exec Server A → Exec Host A
on_server m w =
    let (r, v) = m (record { self = w.self.server; calls = w.calls }) in
    (r, record { self = record w.self { server = v.self }; calls = v.calls })

-- A method of None raises.
abbrev on_some : {A : Type 0} → Option Dht → Exec Dht A → Exec Host A
on_some none m w = (raise attribute_error, w)
on_some (some d) m w =
    let (r, v) = m (record { self = d; calls = w.calls }) in
    (r, record { self = record w.self { dht = some v.self }; calls = v.calls })

unfoldable pub on_dht : {A : Type 0} → Exec Dht A → Exec Host A
on_dht m w = on_some w.self.dht m w

-- What the monotonic clock, `_now_ms` and `_now_secs` read in a turn. The first is in any unit that
-- the timeout is in.
pub record Readings : Type 0 where
  pub clock : ℕ
  pub now_ms : ℕ
  pub now_secs : ℕ

-- `IdentityNotFound`
abbrev pub identity_not_found : Exc
identity_not_found = nwep (from_code (neg 503))

module _ (abi : Abi) where
  abbrev or_wait : Option Record → ℕ → Exec Host (Option Address) → Exec Host (Option Address)
  or_wait (some record_) now_secs rest = pure (some record_.address)
  or_wait none now_secs rest = do
    on_server (Loop.fileno abi)
    on_dht (Dht.next_timeout abi now_secs)
    rest

  abbrev while_early :
      Bool → NodeId → Readings → Exec Host (Option Address) → Exec Host (Option Address)
  while_early false target t rest = throw identity_not_found
  while_early true target t rest = do
    on_server (Loop.tick abi t.now_ms)
    on_dht (Dht.tick abi t.now_secs)
    found ← on_dht (Dht.lookup_result abi target)
    or_wait found t.now_secs rest

  -- The `while` of `_resolve_blocking`, a reading for each turn. None: the readings ended in the loop.
  unfoldable pub pump : ℕ → NodeId → List Readings → Exec Host (Option Address)
  unfolding ◌>>=◌ ◌>>◌ pure throw on_server on_dht Loop.tick Loop.fileno Dht.tick Dht.next_timeout
      Dht.lookup_result
  pump deadline target [] = pure none
  pump deadline target (t ∷ turns) =
      while_early (ltb t.clock deadline) target t (pump deadline target turns)

  abbrev or_lookup :
      Option Record → NodeId → ℕ → Readings → List Readings → Exec Host (Option Address)
  or_lookup (some record_) target timeout t turns = pure (some record_.address)
  or_lookup none target timeout t turns = do
    on_dht (Dht.start_lookup abi target t.now_secs)
    pump (t.clock + timeout) target turns

  unfoldable pub resolve_blocking :
      NodeId → ℕ → Readings → List Readings → Exec Host (Option Address)
  unfolding ◌>>=◌ ◌>>◌ pure on_dht pump Dht.start_lookup Dht.lookup_result
  resolve_blocking target timeout t turns = do
    found ← on_dht (Dht.lookup_result abi target)
    or_lookup found target timeout t turns
