-- ===== src/Client/Driven.antt =====
-- `Client` of nwep/client.py: the driven connection. Its methods do not look whether it is closed.
pub mod Outcomes
use nwep_py.Prelude.{
  ℕ, zero, suc, Bool, true, false, Option, none, some, ℤ, pos, negsuc, neg, eq_ℤ, take,
  if◌then◌else◌,
}
use nwep_py.Errors.{Outcome, NwepError, from_code}
use nwep_py.Sys.{Bytes, Ptr, null, pubkey_size, Abi, client, ClientCall, ClientMetricsOut}
use nwep_py.Sys.Exec.{Exec, pure, lift, get, put, ◌>>=◌, ◌>>◌, checked, ccall, swallowed}
use nwep_py.Text.{Text}
use nwep_py.Wire.{Method, method_code, Compression}
use nwep_py.Message.{Headers, encoded, encode_headers}
use nwep_py.Server.Request.{to_compression}
use nwep_py.Server.Responder.{body_ptr}
use nwep_py.Client.Response.{Response, new_response, raw_message}

pub record Client : Type 0 where
  pub handle : Ptr
  pub closed : Bool
  pub cache : Option Ptr
  pub done_cb : Bool

-- `__init__`
abbrev pub new_client : Ptr → Client
new_client handle = record { handle = handle; closed = false; cache = none; done_cb = false }

-- `Union[Method, int]`, and `int(method)`
pub data MethodArg : Type 0 where
  member : Method → MethodArg
  raw_code : ℕ → MethodArg

unfoldable pub int_method : MethodArg → ℕ
unfolding method_code
int_method (member m) = method_code m
int_method (raw_code n) = n

-- `_WOULD_BLOCK`
abbrev pub would_block : ℤ
would_block = neg 803

-- `ClientMetrics`
pub record ClientMetrics : Type 0 where
  pub requests_inflight : ℕ
  pub requests_completed : ℕ
  pub requests_failed : ℕ
  pub smoothed_rtt_us : ℕ
  pub alive : Bool

abbrev pub client_metrics : ClientMetricsOut → ClientMetrics
client_metrics out = record {
  requests_inflight = out.requests_inflight;
  requests_completed = out.requests_completed;
  requests_failed = out.requests_failed;
  smoothed_rtt_us = out.smoothed_rtt_us;
  alive = eq_ℤ out.alive (pos 1);
}

-- `None if timeout < 0 else timeout`
abbrev pub pending_timeout : ℤ → Option ℕ
pending_timeout (pos ms) = some ms
pending_timeout (negsuc n) = none

-- `Response(msg) if msg != NULL else None`
abbrev pub response_or_none : Ptr → Option Response
response_or_none zero = none
response_or_none (suc p) = some (new_response (suc p))

-- What the hook of `on_request_done` is called with: the id, and a response or an error.
pub data Done : Type 0 where
  completed : ℕ → Response → Done
  failed : ℕ → NwepError → Done

unfoldable pub done_args : ℕ → ℤ → Ptr → Done
done_args request status resp =
    if eq_ℤ status (pos 0)
    then completed request (new_response resp)
    else failed request (from_code status)

-- The three ways of a poll: complete, in flight, or an error.
unfoldable pub poll_outcome : ℤ → Ptr → Exec Client (Option Response)
unfolding ◌>>◌ checked pure
poll_outcome rc msg =
    if eq_ℤ rc (pos 0)
    then pure (some (new_response msg))
    else if eq_ℤ rc would_block
    then pure none
    else (do checked rc; pure none)

module _ (abi : Abi) where
  unfoldable pub send : MethodArg → Text → Bytes → Option Headers → Exec Client Response
  unfolding ◌>>=◌ ◌>>◌ int_method encoded ccall checked
  send method path body headers = do
    c ← get
    array ← lift (encode_headers headers)
    raw ← encoded path
    (rc, out) ←
        ccall abi (client (ClientCall.send c.handle (int_method method) raw array (body_ptr body)))
    checked rc
    pure (new_response out)

  unfoldable pub fileno : Exec Client ℕ
  unfolding ◌>>=◌ ccall
  fileno = do c ← get; ccall abi (client (ClientCall.fd c.handle))

  unfoldable pub tick : ℕ → Exec Client (Unit {0})
  unfolding ◌>>=◌ ◌>>◌ ccall checked
  tick now_ms = do
    c ← get
    rc ← ccall abi (client (ClientCall.tick c.handle now_ms))
    checked rc
    pure tt

  unfoldable pub next_timeout : ℕ → Exec Client (Option ℕ)
  unfolding ◌>>=◌ ccall
  next_timeout now_ms = do
    c ← get
    timeout ← ccall abi (client (ClientCall.next_timeout_ms c.handle now_ms))
    pure (pending_timeout timeout)

  unfoldable pub is_alive : Exec Client Bool
  unfolding ◌>>=◌ ccall
  is_alive = do
    c ← get
    rc ← ccall abi (client (ClientCall.is_alive c.handle))
    pure (eq_ℤ rc (pos 1))

  unfoldable pub metrics : Exec Client ClientMetrics
  unfolding ◌>>=◌ ◌>>◌ ccall checked
  metrics = do
    c ← get
    (rc, out) ← ccall abi (client (ClientCall.metrics_get c.handle))
    checked rc
    pure (client_metrics out)

  unfoldable pub compression : Exec Client Compression
  unfolding ◌>>=◌ ccall to_compression
  compression = do
    c ← get
    code ← ccall abi (client (ClientCall.compression c.handle))
    pure (to_compression code)

  unfoldable pub peer_pubkey : Exec Client Bytes
  unfolding ◌>>=◌ ◌>>◌ ccall checked
  peer_pubkey = do
    c ← get
    (rc, out) ← ccall abi (client (ClientCall.peer_pubkey c.handle))
    checked rc
    pure (take pubkey_size out)

  -- `cache.raw if cache is not None else NULL`; the reference is kept only if the call succeeds.
  abbrev ptr_or_null : Option Ptr → Ptr
  ptr_or_null none = null
  ptr_or_null (some p) = p

  unfoldable pub set_cache : Option Ptr → Exec Client (Unit {0})
  unfolding ◌>>=◌ ◌>>◌ ccall checked
  set_cache cache = do
    c ← get
    rc ← ccall abi (client (ClientCall.set_cache c.handle (ptr_or_null cache)))
    checked rc
    put (record c { cache = cache })

  unfoldable pub poll_notify : Exec Client (Option Response)
  unfolding ◌>>=◌ ccall
  poll_notify = do
    c ← get
    msg ← ccall abi (client (ClientCall.poll_notify c.handle))
    pure (response_or_none msg)

  unfoldable pub submit : MethodArg → Text → Bytes → Option Headers → Exec Client ℕ
  unfolding ◌>>=◌ ◌>>◌ int_method encoded ccall checked
  submit method path body headers = do
    c ← get
    array ← lift (encode_headers headers)
    raw ← encoded path
    (rc, id) ←
        ccall abi
          (client (ClientCall.submit c.handle (int_method method) raw array (body_ptr body)))
    checked rc
    pure id

  unfoldable pub poll_request : ℕ → Exec Client (Option Response)
  unfolding ◌>>=◌ ccall poll_outcome
  poll_request request = do
    c ← get
    (rc, out) ← ccall abi (client (ClientCall.request_poll c.handle request))
    poll_outcome rc out

  unfoldable pub cancel_request : ℕ → Exec Client (Unit {0})
  unfolding ◌>>=◌ ccall
  cancel_request request = do
    c ← get
    ccall abi (client (ClientCall.request_cancel c.handle request))

  -- `on_request_done`; the flag says whether a hook is given.
  unfoldable pub on_request_done : Bool → Exec Client (Unit {0})
  unfolding ◌>>=◌ ◌>>◌ ccall
  on_request_done hook = do
    c ← get
    ccall abi (client (ClientCall.set_request_done c.handle hook))
    put (record c { done_cb = hook })

  unfoldable pub verify_response : Response → Text → ℕ → Exec Client (Unit {0})
  unfolding ◌>>=◌ ◌>>◌ raw_message encoded ccall checked
  verify_response response path now_secs = do
    c ← get
    msg ← raw_message response
    raw ← encoded path
    rc ← ccall abi (client (ClientCall.verify_response c.handle msg raw now_secs))
    checked rc
    pure tt

  -- `open_stream`, with the id of the stream that it opens
  unfoldable pub open_stream : MethodArg → Text → Option Headers → Exec Client ℕ
  unfolding ◌>>=◌ ◌>>◌ int_method encoded ccall checked
  open_stream method path headers = do
    c ← get
    array ← lift (encode_headers headers)
    raw ← encoded path
    (rc, id) ← ccall abi (client (ClientCall.open_stream c.handle (int_method method) raw array))
    checked rc
    pure id

  abbrev close_if_open : Bool → Exec Client (Unit {0})
  close_if_open true = pure tt
  close_if_open false = do
    c ← get
    ccall abi (client (ClientCall.close c.handle))
    put (record c { closed = true; done_cb = false })

  unfoldable pub close : Exec Client (Unit {0})
  unfolding ◌>>=◌ ◌>>◌ ccall
  close = do c ← get; close_if_open c.closed

  -- `__del__`
  unfoldable pub finalize : Exec Client (Unit {0})
  unfolding close swallowed
  finalize = swallowed close
