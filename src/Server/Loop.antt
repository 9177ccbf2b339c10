-- ===== src/Server/Loop.antt =====
-- `Server` of nwep/server.py: the driven server. Its methods do not look whether it is closed.
pub mod Lifetime
use nwep_py.Prelude.{ℕ, Bool, true, false, Option, none, some, ℤ, pos, eq_ℤ, if◌then◌else◌}
use nwep_py.Errors.{NwepError, from_code}
use nwep_py.Sys.{read_buffer, nodeid_size, Bytes, Ptr, Abi, server, ServerCall, ServerMetrics}
use nwep_py.Sys.Exec.{Exec, pure, lift, get, put, ◌>>=◌, ◌>>◌, checked, ccall, swallowed}
use nwep_py.Text.{Text}
use nwep_py.Wire.{Compression}
use nwep_py.Message.{Headers, encoded, encode_headers}
use nwep_py.Server.Request.{to_compression}
use nwep_py.Server.Responder.{StatusArg, str_status, body_ptr}
use nwep_py.Client.Response.{Response, raw_message}
use nwep_py.Client.Driven.{pending_timeout}

-- `handler_cb` says whether a callback is kept.
pub record Server : Type 0 where
  pub handle : Ptr
  pub closed : Bool
  pub handler_cb : Bool

-- `__init__`
abbrev pub new_server : Ptr → Server
new_server handle = record { handle = handle; closed = false; handler_cb = false }

-- `last_handshake_error` on a code
abbrev pub handshake_error : ℤ → Option NwepError
handshake_error code = if eq_ℤ code (pos 0) then none else some (from_code code)

module _ (abi : Abi) where
  unfoldable pub node_id : Exec Server Bytes
  unfolding ◌>>=◌ ◌>>◌ ccall checked
  node_id = do
    s ← get
    (rc, out) ← ccall abi (server (ServerCall.local_nodeid s.handle))
    checked rc
    pure (read_buffer nodeid_size out)

  unfoldable pub local_port : Exec Server ℕ
  unfolding ◌>>=◌ ccall
  local_port = do s ← get; ccall abi (server (ServerCall.local_port s.handle))

  unfoldable pub fileno : Exec Server ℕ
  unfolding ◌>>=◌ ccall
  fileno = do s ← get; ccall abi (server (ServerCall.fd s.handle))

  unfoldable pub tick : ℕ → Exec Server (Unit {0})
  unfolding ◌>>=◌ ◌>>◌ ccall checked
  tick now_ms = do
    s ← get
    rc ← ccall abi (server (ServerCall.tick s.handle now_ms))
    checked rc
    pure tt

  unfoldable pub next_timeout : ℕ → Exec Server (Option ℕ)
  unfolding ◌>>=◌ ccall
  next_timeout now_ms = do
    s ← get
    timeout ← ccall abi (server (ServerCall.next_timeout_ms s.handle now_ms))
    pure (pending_timeout timeout)

  unfoldable pub respond : ℕ → ℕ → StatusArg → Bytes → Exec Server (Unit {0})
  unfolding ◌>>=◌ ◌>>◌ str_status encoded ccall checked
  respond conn_id stream_id status body = do
    s ← get
    text ← str_status abi status
    token ← encoded text
    rc ← ccall abi (server (ServerCall.respond s.handle conn_id stream_id token (body_ptr body)))
    checked rc
    pure tt

  unfoldable pub respond_header : ℕ → ℕ → Text → Text → Exec Server (Unit {0})
  unfolding ◌>>=◌ ◌>>◌ encoded ccall checked
  respond_header conn_id stream_id name value = do
    s ← get
    n ← encoded name
    v ← encoded value
    rc ← ccall abi (server (ServerCall.respond_header s.handle conn_id stream_id n v))
    checked rc
    pure tt

  unfoldable pub relay : ℕ → ℕ → Response → Exec Server (Unit {0})
  unfolding ◌>>=◌ ◌>>◌ raw_message ccall checked
  relay conn_id stream_id origin = do
    s ← get
    msg ← raw_message origin
    rc ← ccall abi (server (ServerCall.relay s.handle conn_id stream_id msg))
    checked rc
    pure tt

  unfoldable pub respond_blit : ℕ → ℕ → Bytes → Exec Server (Unit {0})
  unfolding ◌>>=◌ ◌>>◌ ccall checked
  respond_blit conn_id stream_id frame = do
    s ← get
    rc ← ccall abi (server (ServerCall.respond_blit s.handle conn_id stream_id frame))
    checked rc
    pure tt

  unfoldable pub stream_send : ℕ → ℕ → Bytes → Exec Server ℕ
  unfolding ◌>>=◌ ccall checked
  stream_send conn_id stream_id body = do
    s ← get
    rc ← ccall abi (server (ServerCall.stream_send s.handle conn_id stream_id (body_ptr body)))
    checked rc

  unfoldable pub stream_end : ℕ → ℕ → Exec Server (Unit {0})
  unfolding ◌>>=◌ ◌>>◌ ccall checked
  stream_end conn_id stream_id = do
    s ← get
    rc ← ccall abi (server (ServerCall.stream_end s.handle conn_id stream_id))
    checked rc
    pure tt

  unfoldable pub notify : ℕ → Text → Bytes → Option Headers → Exec Server (Unit {0})
  unfolding ◌>>=◌ ◌>>◌ encoded ccall checked
  notify conn_id event body headers = do
    s ← get
    array ← lift (encode_headers headers)
    raw ← encoded event
    rc ← ccall abi (server (ServerCall.notify s.handle conn_id raw array (body_ptr body)))
    checked rc
    pure tt

  unfoldable pub metrics : Exec Server ServerMetrics
  unfolding ◌>>=◌ ◌>>◌ ccall checked
  metrics = do
    s ← get
    (rc, out) ← ccall abi (server (ServerCall.metrics_get s.handle))
    checked rc
    pure out

  unfoldable pub load : Exec Server ℤ
  unfolding ◌>>=◌ ccall
  load = do s ← get; ccall abi (server (ServerCall.load s.handle))

  unfoldable pub set_overloaded : Bool → Exec Server (Unit {0})
  unfolding ◌>>=◌ ccall
  set_overloaded on = do
    s ← get
    ccall abi (server (ServerCall.set_overloaded s.handle (if on then 1 else 0)))

  unfoldable pub conn_compression : ℕ → Exec Server Compression
  unfolding ◌>>=◌ ccall to_compression
  conn_compression conn_id = do
    s ← get
    code ← ccall abi (server (ServerCall.conn_compression s.handle conn_id))
    pure (to_compression code)

  unfoldable pub last_handshake_error : Exec Server (Option NwepError)
  unfolding ◌>>=◌ ccall
  last_handshake_error = do
    s ← get
    code ← ccall abi (server (ServerCall.last_handshake_error s.handle))
    pure (handshake_error code)

  unfoldable pub drain : Exec Server (Unit {0})
  unfolding ◌>>=◌ ◌>>◌ ccall checked
  drain = do s ← get; rc ← ccall abi (server (ServerCall.drain s.handle)); checked rc; pure tt

  unfoldable pub is_drained : Exec Server Bool
  unfolding ◌>>=◌ ccall
  is_drained = do
    s ← get
    rc ← ccall abi (server (ServerCall.is_drained s.handle))
    pure (eq_ℤ rc (pos 1))

  abbrev close_if_open : Bool → Exec Server (Unit {0})
  close_if_open true = pure tt
  close_if_open false = do
    s ← get
    ccall abi (server (ServerCall.close s.handle))
    put (record s { closed = true; handler_cb = false })

  unfoldable pub close : Exec Server (Unit {0})
  unfolding ◌>>=◌ ◌>>◌ ccall
  close = do s ← get; close_if_open s.closed

  -- `__del__`
  unfoldable pub finalize : Exec Server (Unit {0})
  unfolding close swallowed
  finalize = swallowed close

  -- `_install_handler`; what the callback does is the trampoline of `Server.Handler`.
  unfoldable pub install_handler : Exec Server (Unit {0})
  unfolding ◌>>=◌ ◌>>◌ ccall checked
  install_handler = do
    s ← get
    put (record s { handler_cb = true })
    rc ← ccall abi (server (ServerCall.set_handler s.handle))
    checked rc
    pure tt
