-- ===== src/Server/Handler.antt =====
-- A handler, and the trampoline that calls it for C (`_install_handler` of nwep/server.py).
-- A handler is any program over its request and its responder: it calls a method, sees what the call
-- returned or raised, and goes on; in the end it returns or raises. It can pass both on to the `dispatch`
-- of a log server or an anchor node, which answers over the same responder.
pub mod Trampoline
pub mod Answers
use nwep_py.Prelude.{ℕ, Bool, true, false, Option, none, some, List, ℤ, pos, neg, if◌then◌else◌}
use nwep_py.Errors.{Exc, Outcome}
use nwep_py.Sys.{Bytes, Ptr, ByteRange, Abi, Call}
use nwep_py.Sys.Exec.{World, Exec}
use nwep_py.Text.{Text}
use nwep_py.Wire.{Method, Compression}
use nwep_py.Message
use nwep_py.Message.{Headers}
use nwep_py.Client.Response.{Response}
use nwep_py.Server.Request
use nwep_py.Server.Request.{Request, RangeOutcome}
use nwep_py.Server.Responder
use nwep_py.Server.Responder.{Responder, Reply, StatusArg}
use nwep_py.Identity.{NodeId}
use nwep_py.Log.Serving
use nwep_py.Log.Serving.{LogServer}
use nwep_py.Trust.Anchor
use nwep_py.Trust.Anchor.{AnchorNode}

-- What a handler can call on its request. Of `headers` it takes `list`: its generator reads the request
-- when it is consumed, which is alive until the handler is done.
pub data Read : Type 0 where
  header : Text → Read
  headers : ℕ → Read
  body peer_node_id compression : Read
  is_fresh : Text → Read
  range : ℕ → Option Text → Read

-- What it can call on its responder.
pub data Write : Type 0 where
  header : Text → Text → Write
  ok created accepted bad_request unauthorized forbidden not_found conflict error : Bytes → Write
  no_content not_allowed gone too_large precondition_failed unavailable timeout : Write
  not_implemented defer : Write
  status : StatusArg → Bytes → Write
  moved rate_limited not_modified : Text → Write
  partial : Bytes → List ByteRange → Text → Write
  range_not_satisfiable : ℕ → Write
  relay : Response → Write
  blit : Bytes → Write
  stream : Text → StatusArg → Option Headers → Write

abbrev pub ReadRet : Read → Type 0
ReadRet (Read.header name) = Option Text
ReadRet (headers fuel) = Option Headers
ReadRet body = Bytes
ReadRet peer_node_id = Bytes
ReadRet compression = Compression
ReadRet (is_fresh etag) = Bool
ReadRet (range total etag) = RangeOutcome

-- `header` returns the responder, any other method a `Reply`.
abbrev pub WriteRet : Write → Type 0
WriteRet (Write.header name value) = Unit {0}
WriteRet _ = Reply

pub data Handler : Type 0 where
  return : Option Reply → Handler
  throw : Exc → Handler
  read : (op : Read) → (Outcome (ReadRet op) → Handler) → Handler
  write : (op : Write) → (Outcome (WriteRet op) → Handler) → Handler
  capture : (Outcome Bytes → Handler) → Handler
  log_dispatch : LogServer → ℕ → (Outcome (Option Reply) → Handler) → Handler
  anchor_dispatch : AnchorNode → List NodeId → ℕ → (Outcome (Option Reply) → Handler) → Handler

module _ (abi : Abi) where
  pub perform_read : (op : Read) → Request → Exec Responder (ReadRet op)
  unfolding Request.header Request.body Request.peer_node_id Request.compression Request.is_fresh
      Request.range
  perform_read (Read.header name) req = Request.header abi req name
  perform_read (headers fuel) req = Message.headers_from abi fuel req.msg 0
  perform_read body req = Request.body abi req
  perform_read peer_node_id req = Request.peer_node_id abi req
  perform_read compression req = Request.compression abi req
  perform_read (is_fresh etag) req = Request.is_fresh abi req etag
  perform_read (range total etag) req = Request.range abi req total etag

  unfoldable pub perform_write : (op : Write) → Exec Responder (WriteRet op)
  unfolding Responder.header Responder.ok Responder.status Responder.moved Responder.rate_limited
      Responder.not_modified Responder.partial Responder.range_not_satisfiable Responder.relay
      Responder.blit Responder.stream Responder.defer Responder.created Responder.accepted
      Responder.bad_request Responder.unauthorized Responder.forbidden Responder.not_found
      Responder.conflict Responder.error Responder.no_content Responder.not_allowed Responder.gone
      Responder.too_large Responder.precondition_failed Responder.unavailable Responder.timeout
      Responder.not_implemented
  perform_write (Write.header name value) = Responder.header abi name value
  perform_write (Write.ok b) = Responder.ok abi b
  perform_write (Write.created b) = Responder.created abi b
  perform_write (Write.accepted b) = Responder.accepted abi b
  perform_write (Write.bad_request b) = Responder.bad_request abi b
  perform_write (Write.unauthorized b) = Responder.unauthorized abi b
  perform_write (Write.forbidden b) = Responder.forbidden abi b
  perform_write (Write.not_found b) = Responder.not_found abi b
  perform_write (Write.conflict b) = Responder.conflict abi b
  perform_write (Write.error b) = Responder.error abi b
  perform_write no_content = Responder.no_content abi
  perform_write not_allowed = Responder.not_allowed abi
  perform_write gone = Responder.gone abi
  perform_write too_large = Responder.too_large abi
  perform_write precondition_failed = Responder.precondition_failed abi
  perform_write unavailable = Responder.unavailable abi
  perform_write timeout = Responder.timeout abi
  perform_write not_implemented = Responder.not_implemented abi
  perform_write defer = Responder.defer abi
  perform_write (status arg b) = Responder.status abi arg b
  perform_write (moved location) = Responder.moved abi location
  perform_write (rate_limited retry_after) = Responder.rate_limited abi retry_after
  perform_write (not_modified etag) = Responder.not_modified abi etag
  perform_write (partial b ranges content_type) = Responder.partial abi b ranges content_type
  perform_write (range_not_satisfiable total_len) = Responder.range_not_satisfiable abi total_len
  perform_write (relay origin) = Responder.relay abi origin
  perform_write (blit frame) = Responder.blit abi frame
  perform_write (stream path arg hs) = Responder.stream abi path arg hs

  -- `handler(request, responder)`. None stands for a value that is no `Reply`.
  pub run : Handler → Request → Exec Responder (Option Reply)
  run (return reply) req w = (Outcome.ok reply, w)
  run (throw e) req w = (Outcome.raise e, w)
  run (read op k) req w = let (r, w') = perform_read op req w in run (k r) req w'
  run (write op k) req w = let (r, w') = perform_write op w in run (k r) req w'
  run (capture k) req w = let (r, w') = Responder.capture abi w in run (k r) req w'
  run (log_dispatch s now k) req w =
      let (r, w') = Serving.dispatch abi s req now w in run (k r) req w'
  run (anchor_dispatch a ids now k) req w =
      let (r, w') = Anchor.dispatch abi a req ids now w in run (k r) req w'

-- What the trampoline answers to C for a handler's end.
abbrev code_of_reply : Option Reply → ℤ
code_of_reply none = neg 801
code_of_reply (some reply) = if reply.deferred then pos 1 else pos 0

unfoldable pub return_code : Outcome (Option Reply) → ℤ
return_code (Outcome.raise e) = neg 801
return_code (Outcome.ok reply) = code_of_reply reply

-- The trampoline: a fresh request and responder, the handler, and a code for C. It never raises.
-- The calls made before come first.
pub trampoline : Abi → Handler → Ptr → ℕ → ℕ → Ptr → Ptr → List Call → ℤ × World Responder
unfolding run return_code
trampoline abi handler server_ptr conn stream_id c_request resp_buf calls =
    let req : Request = record {
      msg = c_request;
      server_ptr = server_ptr;
      conn = conn;
      stream_id = stream_id;
    } in
    let res : Responder = record {
      buf = resp_buf;
      server_ptr = server_ptr;
      conn = conn;
      stream_id = stream_id;
      used = false;
    } in
    let w : World Responder = record { self = res; calls = calls } in
    let (r, w') = run abi handler req w in (return_code r, w')
