-- ===== src/Server/Responder.antt =====
-- `Responder` and `Reply` of nwep/server.py: the one answer of a handler.
-- A method changes `used` and calls C, and may raise after either.
use nwep_py.Prelude.{ℕ, Bool, true, false, not, Option, none, some, List, [], ◌∷◌, is_empty, take}
use nwep_py.Errors.{value_error, runtime_error}
use nwep_py.Sys.{Bytes, Ptr, ByteRange, Abi, response, server, ResponseCall, ServerCall}
use nwep_py.Sys.Exec.{Exec, pure, lift, get, put, ◌>>=◌, ◌>>◌, raise_if, checked, ccall}
use nwep_py.Text.{Text, codes}
use nwep_py.Wire
use nwep_py.Wire.{Status, status_code, status_token}
use nwep_py.Message.{Headers, encoded, encode_headers}
use nwep_py.Client.Response.{Response, raw_message}

-- `Reply`
pub record Reply : Type 0 where
  pub deferred : Bool

pub record Responder : Type 0 where
  pub buf : Ptr
  pub server_ptr : Ptr
  pub conn : ℕ
  pub stream_id : ℕ
  pub used : Bool

-- `Status | str`
pub data StatusArg : Type 0 where
  member : Status → StatusArg
  raw_token : Text → StatusArg

-- `_body_ptr`: NULL for an empty body.
abbrev pub body_ptr : Bytes → Option Bytes
body_ptr [] = none
body_ptr (b ∷ bytes) = some (b ∷ bytes)

-- `_claim`
unfoldable pub claim : Exec Responder (Unit {0})
unfolding ◌>>=◌ ◌>>◌ raise_if
claim = do r ← get; raise_if r.used runtime_error; put (record r { used = true })

abbrev pub answered : Reply
answered = record { deferred = false }

module _ (abi : Abi) where
  -- `str(status)`
  unfoldable pub str_status : {S : Type 0} → StatusArg → Exec S Text
  unfolding status_token pure
  str_status (member s) = status_token abi (status_code s)
  str_status (raw_token t) = pure t

  -- `header`; it returns the responder itself.
  unfoldable pub header : Text → Text → Exec Responder (Unit {0})
  unfolding ◌>>=◌ ◌>>◌ encoded ccall checked
  header name value = do
    r ← get
    n ← encoded name
    v ← encoded value
    rc ← ccall abi (response (ResponseCall.header r.buf n v))
    checked rc
    pure tt

  unfoldable pub ok : Bytes → Exec Responder Reply
  unfolding ◌>>=◌ ◌>>◌ claim ccall checked
  ok body = do
    claim
    r ← get
    rc ← ccall abi (response (ResponseCall.ok r.buf (body_ptr body)))
    checked rc
    pure answered

  unfoldable pub status : StatusArg → Bytes → Exec Responder Reply
  unfolding ◌>>=◌ ◌>>◌ claim str_status encoded ccall checked
  status arg body = do
    claim
    r ← get
    text ← str_status arg
    token ← encoded text
    rc ← ccall abi (response (ResponseCall.status r.buf token (body_ptr body)))
    checked rc
    pure answered

  -- The answers by a fixed status.
  unfoldable pub created : Bytes → Exec Responder Reply
  unfolding status
  created body = status (member Wire.created) body

  unfoldable pub accepted : Bytes → Exec Responder Reply
  unfolding status
  accepted body = status (member Wire.accepted) body

  unfoldable pub bad_request : Bytes → Exec Responder Reply
  unfolding status
  bad_request body = status (member Wire.bad_request) body

  unfoldable pub unauthorized : Bytes → Exec Responder Reply
  unfolding status
  unauthorized body = status (member Wire.unauthorized) body

  unfoldable pub forbidden : Bytes → Exec Responder Reply
  unfolding status
  forbidden body = status (member Wire.forbidden) body

  unfoldable pub not_found : Bytes → Exec Responder Reply
  unfolding status
  not_found body = status (member Wire.not_found) body

  unfoldable pub conflict : Bytes → Exec Responder Reply
  unfolding status
  conflict body = status (member Wire.conflict) body

  unfoldable pub error : Bytes → Exec Responder Reply
  unfolding status
  error body = status (member Wire.error) body

  unfoldable pub no_content : Exec Responder Reply
  unfolding status
  no_content = status (member Wire.no_content) []

  unfoldable pub not_allowed : Exec Responder Reply
  unfolding status
  not_allowed = status (member Wire.not_allowed) []

  unfoldable pub gone : Exec Responder Reply
  unfolding status
  gone = status (member Wire.gone) []

  unfoldable pub too_large : Exec Responder Reply
  unfolding status
  too_large = status (member Wire.too_large) []

  unfoldable pub precondition_failed : Exec Responder Reply
  unfolding status
  precondition_failed = status (member Wire.precondition_failed) []

  unfoldable pub unavailable : Exec Responder Reply
  unfolding status
  unavailable = status (member Wire.unavailable) []

  unfoldable pub timeout : Exec Responder Reply
  unfolding status
  timeout = status (member Wire.timeout) []

  unfoldable pub not_implemented : Exec Responder Reply
  unfolding status
  not_implemented = status (member Wire.not_implemented) []

  -- A header first, and the answer behind it.
  unfoldable pub moved : Text → Exec Responder Reply
  unfolding ◌>>◌ header status
  moved location = do header (codes "location") location; status (member Wire.moved) []

  unfoldable pub rate_limited : Text → Exec Responder Reply
  unfolding ◌>>◌ header status
  rate_limited retry_after = do
    header (codes "retry-after") retry_after
    status (member Wire.rate_limited) []

  unfoldable pub not_modified : Text → Exec Responder Reply
  unfolding ◌>>=◌ ◌>>◌ claim encoded ccall checked
  not_modified etag = do
    claim
    r ← get
    raw ← encoded etag
    rc ← ccall abi (response (ResponseCall.not_modified r.buf raw))
    checked rc
    pure answered

  -- No range raises before the claim, so the responder can still answer.
  unfoldable pub partial : Bytes → List ByteRange → Text → Exec Responder Reply
  unfolding ◌>>=◌ ◌>>◌ raise_if claim encoded ccall checked
  partial body ranges content_type = do
    raise_if (is_empty ranges) value_error
    claim
    r ← get
    kind ← encoded content_type
    rc ← ccall abi (response (ResponseCall.partial r.buf (body_ptr body) ranges kind))
    checked rc
    pure answered

  unfoldable pub range_not_satisfiable : ℕ → Exec Responder Reply
  unfolding ◌>>=◌ ◌>>◌ claim ccall checked
  range_not_satisfiable total_len = do
    claim
    r ← get
    rc ← ccall abi (response (ResponseCall.range_not_satisfiable r.buf total_len))
    checked rc
    pure answered

  unfoldable pub relay : Response → Exec Responder Reply
  unfolding ◌>>=◌ ◌>>◌ claim raw_message ccall checked
  relay origin = do
    claim
    r ← get
    msg ← raw_message origin
    rc ← ccall abi (response (ResponseCall.relay r.buf msg))
    checked rc
    pure answered

  unfoldable pub blit : Bytes → Exec Responder Reply
  unfolding ◌>>=◌ ◌>>◌ claim ccall checked
  blit frame = do
    claim
    r ← get
    rc ← ccall abi (response (ResponseCall.blit r.buf frame))
    checked rc
    pure answered

  -- Two calls: the first, with no room, asks for the size. `take` is what `ffi.buffer` reads.
  unfoldable pub capture : Exec Responder Bytes
  unfolding ◌>>=◌ ◌>>◌ raise_if ccall checked
  capture = do
    r ← get
    raise_if (not r.used) runtime_error
    (rc, none_read, size) ← ccall abi (response (ResponseCall.capture r.buf 0))
    checked rc
    (rc', out, out_len) ← ccall abi (response (ResponseCall.capture r.buf size))
    checked rc'
    pure (take out_len out)

  unfoldable pub defer : Exec Responder Reply
  unfolding ◌>>◌ claim pure
  defer = do claim; pure (record { deferred = true })

  unfoldable pub stream : Text → StatusArg → Option Headers → Exec Responder Reply
  unfolding ◌>>=◌ ◌>>◌ claim encoded str_status ccall checked
  stream path arg headers = do
    claim
    r ← get
    array ← lift (encode_headers headers)
    raw ← encoded path
    text ← str_status arg
    token ← encoded text
    rc ←
        ccall abi (server (ServerCall.begin_stream r.server_ptr r.conn r.stream_id raw token array))
    checked rc
    pure answered
