-- ===== src/Client/Building.antt =====
-- `ClientBuilder` and `verify_response` of nwep/client.py. Its async terminals build on the driven
-- ones, in nwep/runtime.py.
pub mod Attempts
use nwep_py.Prelude.{ℕ, Option, none, some, ℤ, not, ◌==◌, length}
use nwep_py.Errors.{Exc, nwep, instance_of, from_code, value_error}
use nwep_py.Prelude.{neg}
use nwep_py.Sys.{Bytes, Ptr, Abi, client, ClientCall, Connect, response, ResponseCall, pubkey_size}
use nwep_py.Sys.Exec.{Exec, pure, throw, get, put, ◌>>=◌, ◌>>◌, raise_if, checked, ccall}
use nwep_py.Text.{Text}
use nwep_py.Message.{encoded}
use nwep_py.Identity.{NodeId, Identity, keypair}
use nwep_py.Address.{Address}
use nwep_py.Client.Response.{Response, raw_message}
use nwep_py.Client.Driven.{Client, new_client}
use nwep_py.Client.Connecting.{Connecting, new_connecting}

-- The identity that was set, as it is when it is used.
pub record ClientBuilder : Type 0 where
  pub owner : Option Identity

-- `ConfigMissing`
abbrev pub config_missing : Exc
config_missing = nwep (from_code (neg 102))

-- `identity`
unfoldable pub set_identity : Identity → Exec ClientBuilder (Unit {0})
unfolding ◌>>=◌ put
set_identity i = do b ← get; put (record b { owner = some i })

abbrev pub required : Option Identity → Exec ClientBuilder Identity
required none = throw config_missing
required (some i) = pure i

unfoldable pub require_identity : Exec ClientBuilder Identity
unfolding ◌>>=◌ throw pure
require_identity = do b ← get; required b.owner

module _ (abi : Abi) where
  unfoldable pub connect : NodeId → Address → Exec ClientBuilder Client
  unfolding ◌>>=◌ ◌>>◌ require_identity keypair ccall checked pure
  connect target address = do
    i ← require_identity
    kp ← keypair i
    (rc, out) ← ccall abi (client (ClientCall.connect (Connect.blocking address.raw) kp target.raw))
    checked rc
    pure (new_client out)

  unfoldable pub connect_fd : NodeId → Address → ℕ → Exec ClientBuilder Client
  unfolding ◌>>=◌ ◌>>◌ require_identity keypair ccall checked pure
  connect_fd target address fd = do
    i ← require_identity
    kp ← keypair i
    (rc, out) ←
        ccall abi (client (ClientCall.connect (Connect.blocking_fd address.raw fd) kp target.raw))
    checked rc
    pure (new_client out)

  -- `dht.raw`, which is given out also by a closed DHT.
  unfoldable pub connect_by_node_id : NodeId → Ptr → ℕ → Exec ClientBuilder Client
  unfolding ◌>>=◌ ◌>>◌ require_identity keypair ccall checked pure
  connect_by_node_id target dht lookup_timeout_ms = do
    i ← require_identity
    kp ← keypair i
    (rc, out) ←
        ccall abi
          (client (ClientCall.connect (Connect.by_nodeid dht lookup_timeout_ms) kp target.raw))
    checked rc
    pure (new_client out)

  unfoldable pub start_connect : NodeId → Address → Exec ClientBuilder Connecting
  unfolding ◌>>=◌ ◌>>◌ require_identity keypair ccall checked pure
  start_connect target address = do
    i ← require_identity
    kp ← keypair i
    (rc, out) ←
        ccall abi (client (ClientCall.connect (Connect.background address.raw) kp target.raw))
    checked rc
    pure (new_connecting out)

  unfoldable pub start_connect_fd : NodeId → Address → ℕ → Exec ClientBuilder Connecting
  unfolding ◌>>=◌ ◌>>◌ require_identity keypair ccall checked pure
  start_connect_fd target address fd = do
    i ← require_identity
    kp ← keypair i
    (rc, out) ←
        ccall abi (client (ClientCall.connect (Connect.background_fd address.raw fd) kp target.raw))
    checked rc
    pure (new_connecting out)

  -- The module's `verify_response`, with the origin's key given.
  unfoldable pub verify_response : {S : Type 0} → Response → Bytes → Text → ℕ → Exec S (Unit {0})
  unfolding ◌>>=◌ ◌>>◌ raise_if raw_message encoded ccall checked
  verify_response origin pubkey path now_secs = do
    raise_if (not (length pubkey == pubkey_size)) value_error
    msg ← raw_message origin
    p ← encoded path
    rc ← ccall abi (response (ResponseCall.verify msg pubkey p now_secs))
    checked rc
    pure tt
