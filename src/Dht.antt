-- ===== src/Dht.antt =====
-- nwep/dht.py: discovery over a running server's socket.
use nwep_py.Prelude.{
  ℕ, Bool, true, false, Option, none, some, List, [], ◌∷◌, map, ℤ, pos, neg, eq_ℤ, if◌then◌else◌,
}
use nwep_py.Errors.{Exc, nwep, from_code}
use nwep_py.Sys.{
  Bytes, Ptr, nodeid_size, pubkey_size, Abi, dht, DhtCall, BootstrapEntry, DhtRecord, DhtCounters,
  read_buffer,
}
use nwep_py.Sys.Exec.{Exec, pure, throw, get, put, ◌>>=◌, ◌>>◌, checked, ccall, swallowed}
use nwep_py.Text.{Text}
use nwep_py.Message.{encoded}
use nwep_py.Identity.{NodeId, new_node_id}
use nwep_py.Address.{Address, addr_size, new_address}
use nwep_py.Client.Driven.{pending_timeout}
use nwep_py.Cache.{app_not_found}

-- `_entry`
pub record Bootstrap : Type 0 where
  pub entry : BootstrapEntry

pub record Record : Type 0 where
  pub node_id : NodeId
  pub address : Address
  pub pubkey : Bytes
  pub seq : ℕ
  pub timestamp : ℕ

-- `server` is the pointer of the server that is kept alive.
pub record Dht : Type 0 where
  pub handle : Ptr
  pub server : Ptr
  pub closed : Bool

-- `ConfigInvalid`
abbrev pub config_invalid : Exc
config_invalid = nwep (from_code (neg 101))

-- `Bootstrap.of`
unfoldable pub bootstrap_of : NodeId → Address → Bootstrap
bootstrap_of id address = record {
  entry = record {
    node_id = read_buffer nodeid_size id.raw;
    addr = read_buffer addr_size address.raw;
  };
}

abbrev pub entry_of : Bootstrap → BootstrapEntry
entry_of b = b.entry

-- `Bootstrap.node_id`
unfoldable pub contact_node_id : {S : Type 0} → Bootstrap → Exec S NodeId
unfolding new_node_id
contact_node_id b = new_node_id (read_buffer nodeid_size b.entry.node_id)

-- `Record(record)`
unfoldable pub new_record : {S : Type 0} → DhtRecord → Exec S Record
unfolding ◌>>=◌ new_node_id pure
new_record out = do
  id ← new_node_id (read_buffer nodeid_size out.node_id)
  pure (record {
    node_id = id;
    address = new_address out.addr;
    pubkey = read_buffer pubkey_size out.pubkey;
    seq = out.seq;
    timestamp = out.timestamp;
  })

-- The codes that `lookup_result` tells apart.
unfoldable pub found : {S : Type 0} → ℤ → DhtRecord → Exec S (Option Record)
unfolding ◌>>=◌ new_record pure throw
found rc out =
    if eq_ℤ rc (pos 0)
    then (do r ← new_record out; pure (some r))
    else if eq_ℤ rc app_not_found
    then pure none
    else throw (nwep (from_code rc))

module _ (abi : Abi) where
  unfoldable pub parse_bootstrap : {S : Type 0} → Text → Exec S Bootstrap
  unfolding ◌>>=◌ ◌>>◌ encoded ccall checked pure
  parse_bootstrap text = do
    raw ← encoded text
    (rc, out) ← ccall abi (dht (DhtCall.parse_bootstrap raw))
    checked rc
    pure (record { entry = out })

  unfoldable pub attach : {S : Type 0} → Ptr → List Bootstrap → ℕ → Exec S Dht
  unfolding ◌>>=◌ ◌>>◌ ccall checked pure throw
  attach server [] initial_seq = throw config_invalid
  attach server (b ∷ contacts) initial_seq = do
    (rc, out) ← ccall abi (dht (DhtCall.attach server (map entry_of (b ∷ contacts)) initial_seq))
    checked rc
    pure (record { handle = out; server = server; closed = false })

  unfoldable pub bootstrap : ℕ → Exec Dht (Unit {0})
  unfolding ◌>>=◌ ◌>>◌ ccall checked pure
  bootstrap now_secs = do
    d ← get
    rc ← ccall abi (dht (DhtCall.bootstrap d.handle now_secs))
    checked rc
    pure tt

  unfoldable pub announce : Address → ℕ → Exec Dht (Unit {0})
  unfolding ◌>>=◌ ◌>>◌ ccall checked pure
  announce service_addr now_secs = do
    d ← get
    rc ← ccall abi (dht (DhtCall.announce d.handle service_addr.raw now_secs))
    checked rc
    pure tt

  unfoldable pub start_lookup : NodeId → ℕ → Exec Dht (Unit {0})
  unfolding ◌>>=◌ ◌>>◌ ccall checked pure
  start_lookup target now_secs = do
    d ← get
    rc ← ccall abi (dht (DhtCall.start_lookup d.handle target.raw now_secs))
    checked rc
    pure tt

  unfoldable pub lookup_result : NodeId → Exec Dht (Option Record)
  unfolding ◌>>=◌ ccall found
  lookup_result target = do
    d ← get
    (rc, out) ← ccall abi (dht (DhtCall.lookup_result d.handle target.raw))
    found rc out

  unfoldable pub tick : ℕ → Exec Dht (Unit {0})
  unfolding ◌>>=◌ ◌>>◌ ccall checked pure
  tick now_secs = do
    d ← get
    rc ← ccall abi (dht (DhtCall.tick d.handle now_secs))
    checked rc
    pure tt

  unfoldable pub next_timeout : ℕ → Exec Dht (Option ℕ)
  unfolding ◌>>=◌ ccall pure
  next_timeout now_secs = do
    d ← get
    timeout ← ccall abi (dht (DhtCall.next_timeout_ms d.handle now_secs))
    pure (pending_timeout timeout)

  unfoldable pub metrics : Exec Dht DhtCounters
  unfolding ◌>>=◌ ◌>>◌ ccall checked pure
  metrics = do
    d ← get
    (rc, out) ← ccall abi (dht (DhtCall.metrics_get d.handle))
    checked rc
    pure out

  abbrev close_if_open : Bool → Exec Dht (Unit {0})
  close_if_open true = pure tt
  close_if_open false = do
    d ← get
    ccall abi (dht (DhtCall.close d.handle))
    put (record d { closed = true })

  unfoldable pub close : Exec Dht (Unit {0})
  unfolding ◌>>=◌ ◌>>◌ ccall
  close = do d ← get; close_if_open d.closed

  -- `__del__`
  unfoldable pub finalize : Exec Dht (Unit {0})
  unfolding close swallowed
  finalize = swallowed close
