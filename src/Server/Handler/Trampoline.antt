-- ===== src/Server/Handler/Trampoline.antt =====
-- A handler answers at most once.
use nwep_py.Prelude.{
  ℕ, zero, suc, ◌+◌, ◌≤◌, Bool, true, false, not, ◌&&◌, eq_ℤ, pos, List, [], ◌∷◌, ◌≡◌, refl, arith,
  if◌then◌else◌,
}
use nwep_py.Sys.{
  Ptr, Abi, Call, response, server, log, trust, ResponseCall, ServerCall, LogCall, TrustCall,
}
use nwep_py.Identity.{NodeId}
use nwep_py.Log.Serving
use nwep_py.Log.Serving.{LogServer}
use nwep_py.Trust.Anchor
use nwep_py.Trust.Anchor.{AnchorNode}
use nwep_py.Sys.Exec.{World}
use nwep_py.Message.{headers_from, header_at}
use nwep_py.Server.Request.{Request}
use nwep_py.Server.Responder
use nwep_py.Server.Responder.{Responder, Reply}
use nwep_py.Server.Handler.{Handler, Read, Write, perform_read, perform_write, run, trampoline}

-- The calls that write an answer: all builders but `header`, and the start of a stream.
is_response_answer : ResponseCall → Bool
is_response_answer (ResponseCall.ok buf b) = true
is_response_answer (ResponseCall.status buf token b) = true
is_response_answer (ResponseCall.not_modified buf etag) = true
is_response_answer (ResponseCall.partial buf b ranges kind) = true
is_response_answer (ResponseCall.range_not_satisfiable buf total) = true
is_response_answer (ResponseCall.relay buf msg) = true
is_response_answer (ResponseCall.blit buf frame) = true
is_response_answer _ = false

is_stream_start : ServerCall → Bool
is_stream_start (ServerCall.begin_stream s c t p k h) = true
is_stream_start _ = false

-- A dispatch that C answers with 0 has written the response.
is_log_answer : Abi → List Call → LogCall → Bool
is_log_answer abi older (LogCall.server_dispatch s c q r n) =
    eq_ℤ (abi older (log (LogCall.server_dispatch s c q r n))) (pos 0)
is_log_answer abi older _ = false

is_anchor_answer : Abi → List Call → TrustCall → Bool
is_anchor_answer abi older (TrustCall.anchor_dispatch a p ids n q r t) =
    eq_ℤ (abi older (trust (TrustCall.anchor_dispatch a p ids n q r t))) (pos 0)
is_anchor_answer abi older _ = false

unfoldable pub is_answer : Abi → List Call → Call → Bool
unfolding is_response_answer is_stream_start is_log_answer is_anchor_answer
is_answer abi older (response c) = is_response_answer c
is_answer abi older (server c) = is_stream_start c
is_answer abi older (log c) = is_log_answer abi older c
is_answer abi older (trust c) = is_anchor_answer abi older c
is_answer abi older _ = false

unfoldable pub answers : Abi → List Call → ℕ
unfolding is_answer
answers abi [] = 0
answers abi (c ∷ older) = (if is_answer abi older c then 1 else 0) + answers abi older

-- The answers written and the one still open: no method adds to it.
abbrev pub spent : Abi → World Responder → ℕ
spent abi w = answers abi w.calls + (if w.self.used then 0 else 1)

write_once :
    (abi : Abi) (op : Write) (w : World Responder)
    → spent abi (perform_write abi op w).1 ≤ spent abi w
unfolding perform_write answers
write_once abi Write.defer w = ground arith
write_once abi _ w = ground arith

header_at_once :
    (abi : Abi) (msg : Ptr) (i : ℕ) (w : World Responder)
    → spent abi (header_at abi msg i w).1 ≡ spent abi w
unfolding header_at answers
header_at_once abi msg i w = ground arith

headers_from_once :
    (abi : Abi) (fuel : ℕ) (msg : Ptr) (i : ℕ) (w : World Responder)
    → spent abi (headers_from abi fuel msg i w).1 ≡ spent abi w
unfolding headers_from
headers_from_once abi zero msg i w = refl
headers_from_once abi (suc fuel) msg i w = ground (
  arith,
  header_at_once abi msg i w,
  headers_from_once abi fuel msg (i + 1) (header_at abi msg i w).1,
)

read_once :
    (abi : Abi) (op : Read) (req : Request) (w : World Responder)
    → spent abi (perform_read abi op req w).1 ≡ spent abi w
unfolding perform_read answers
read_once abi (Read.headers fuel) req w = headers_from_once abi fuel req.msg 0 w
read_once abi _ req w = ground arith

capture_once :
    (abi : Abi) (w : World Responder) → spent abi (Responder.capture abi w).1 ≡ spent abi w
unfolding Responder.capture answers
capture_once abi w = ground arith

log_once :
    (abi : Abi) (s : LogServer) (req : Request) (now : ℕ) (w : World Responder)
    → w.self.used ≡ false
    → spent abi (Serving.dispatch abi s req now w).1 ≤ spent abi w
unfolding Serving.dispatch Serving.routed answers
log_once abi s req now w u = ground arith

anchor_once :
    (abi : Abi) (a : AnchorNode) (req : Request) (ids : List NodeId) (now : ℕ) (w : World Responder)
    → w.self.used ≡ false
    → spent abi (Anchor.dispatch abi a req ids now w).1 ≤ spent abi w
unfolding Anchor.dispatch Serving.routed answers
anchor_once abi a req ids now w u = ground arith

-- The handler passes its responder on to a dispatch only while it is fresh.
unfoldable pub careful : Abi → Handler → Request → World Responder → Bool
unfolding perform_read perform_write Responder.capture Serving.dispatch Anchor.dispatch
careful abi (Handler.return reply) req w = true
careful abi (Handler.throw e) req w = true
careful abi (Handler.read op k) req w =
    let (r, w') = perform_read abi op req w in careful abi (k r) req w'
careful abi (Handler.write op k) req w =
    let (r, w') = perform_write abi op w in careful abi (k r) req w'
careful abi (Handler.capture k) req w =
    let (r, w') = Responder.capture abi w in careful abi (k r) req w'
careful abi (Handler.log_dispatch s now k) req w =
    let (r, w') = Serving.dispatch abi s req now w in not w.self.used && careful abi (k r) req w'
careful abi (Handler.anchor_dispatch a ids now k) req w =
    let (r, w') = Anchor.dispatch abi a req ids now w in not w.self.used && careful abi (k r) req w'

run_once :
    (abi : Abi) (h : Handler) (req : Request) (w : World Responder)
    → careful abi h req w ≡ true
    → spent abi (run abi h req w).1 ≤ spent abi w
unfolding run careful
run_once abi (Handler.return reply) req w c = omega arith
run_once abi (Handler.throw e) req w c = omega arith
run_once abi (Handler.read op k) req w c =
    let (r, w') = perform_read abi op req w in
    omega (arith, run_once abi (k r) req w' c, read_once abi op req w)
run_once abi (Handler.write op k) req w c =
    let (r, w') = perform_write abi op w in
    omega (arith, run_once abi (k r) req w' c, write_once abi op w)
run_once abi (Handler.capture k) req w c =
    let (r, w') = Responder.capture abi w in
    omega (arith, run_once abi (k r) req w' c, capture_once abi w)
run_once abi (Handler.log_dispatch s now k) req w c =
    let (r, w') = Serving.dispatch abi s req now w in
    omega (arith, run_once abi (k r) req w' (ground arith), log_once abi s req now w (ground arith))
run_once abi (Handler.anchor_dispatch a ids now k) req w c =
    let (r, w') = Anchor.dispatch abi a req ids now w in
    omega (
      arith,
      run_once abi (k r) req w' (ground arith),
      anchor_once abi a req ids now w (ground arith),
    )

-- The request and the fresh responder of a dispatch.
abbrev pub asked : Ptr → ℕ → ℕ → Ptr → Request
asked server_ptr conn stream_id c_request = record {
  msg = c_request;
  server_ptr = server_ptr;
  conn = conn;
  stream_id = stream_id;
}

abbrev pub fresh : Ptr → ℕ → ℕ → Ptr → List Call → World Responder
fresh server_ptr conn stream_id resp_buf calls = record {
  self = record {
    buf = resp_buf;
    server_ptr = server_ptr;
    conn = conn;
    stream_id = stream_id;
    used = false;
  };
  calls = calls;
}

-- Whatever the handler calls on its request and its responder and whatever C answers, one dispatch
-- makes at most one call that writes an answer or starts a stream, if the handler passes the responder
-- on to the `dispatch` of a log server or an anchor node only while it is not answered yet.
pub trampoline-answers_once :
    (abi : Abi) (h : Handler) (server_ptr : Ptr) (conn stream_id : ℕ) (c_request resp_buf : Ptr)
    (calls : List Call)
    → careful abi h
        (asked server_ptr conn stream_id c_request)
        (fresh server_ptr conn stream_id resp_buf calls)
      ≡ true
    → answers abi (trampoline abi h server_ptr conn stream_id c_request resp_buf calls).1.calls
      ≤ answers abi calls + 1
unfolding trampoline
trampoline-answers_once abi h server_ptr conn stream_id c_request resp_buf calls c = omega (
  arith,
  run_once abi h (asked server_ptr conn stream_id c_request)
      (fresh server_ptr conn stream_id resp_buf calls) c,
)
