-- ===== src/Client/Response.antt =====
-- `Response` of nwep/client.py: the owner of a received message.
pub mod Lifetime
use nwep_py.Prelude.{ℕ, Bool, true, false, Option, none, some}
use nwep_py.Errors.{value_error}
use nwep_py.Sys.{Bytes, Ptr, Abi, message, MessageCall}
use nwep_py.Sys.Exec.{Exec, pure, get, put, ◌>>=◌, ◌>>◌, raise_if, ccall, swallowed}
use nwep_py.Text.{Text}
use nwep_py.Wire.{Status, all_statuses, by_token}
use nwep_py.Message
use nwep_py.Message.{Headers}

pub record Response : Type 0 where
  pub msg : Ptr
  pub closed : Bool

-- `__init__`
abbrev pub new_response : Ptr → Response
new_response msg = record { msg = msg; closed = false }

-- The generator that `headers` of nwep/message.py is: its message, and the index of its next header.
pub record Generator : Type 0 where
  pub msg : Ptr
  pub index : ℕ

-- `next` on it: it reads the message, without a look at the response. None is its end.
unfoldable pub next_header : Abi → {S : Type 0} → Generator → Exec S (Option (Text × Text))
unfolding Message.header_at
next_header abi g = Message.header_at abi g.msg g.index

-- `_check_open`
unfoldable pub check_open : Exec Response (Unit {0})
unfolding ◌>>=◌ raise_if
check_open = do r ← get; raise_if r.closed value_error

-- `_raw_message`, on a response that is lent to another object's method.
unfoldable pub raw_message : {S : Type 0} → Response → Exec S Ptr
unfolding ◌>>◌ raise_if
raw_message r = do raise_if r.closed value_error; pure r.msg

-- `_STATUS_BY_TOKEN.get(token)`, over the tokens at the time of import
abbrev pub status_of_token : (Status → Text) → Option Text → Option Status
status_of_token tokens none = none
status_of_token tokens (some t) = by_token tokens all_statuses t

module _ (abi : Abi) where
  -- `status`; unlike its neighbours it does not call `_check_open`.
  unfoldable pub status : (Status → Text) → Exec Response (Option Status)
  unfolding ◌>>=◌ Message.status_token
  status tokens = do
    r ← get
    token ← Message.status_token abi r.msg
    pure (status_of_token tokens token)

  unfoldable pub header : Text → Exec Response (Option Text)
  unfolding ◌>>=◌ ◌>>◌ check_open Message.header
  header name = do check_open; r ← get; Message.header abi r.msg name

  -- `headers` looks whether the response is open, and returns a generator that reads nothing yet.
  unfoldable pub headers : Exec Response Generator
  unfolding ◌>>=◌ ◌>>◌ check_open pure
  headers = do check_open; r ← get; pure (record { msg = r.msg; index = 0 })

  -- `list(r.headers())`
  unfoldable pub list_headers : ℕ → Exec Response (Option Headers)
  unfolding ◌>>=◌ headers Message.headers_from
  list_headers fuel = do g ← headers; Message.headers_from abi fuel g.msg g.index

  unfoldable pub header_count : Exec Response ℕ
  unfolding ◌>>=◌ ◌>>◌ check_open Message.header_count
  header_count = do check_open; r ← get; Message.header_count abi r.msg

  unfoldable pub body : Exec Response Bytes
  unfolding ◌>>=◌ ◌>>◌ check_open Message.body
  body = do check_open; r ← get; Message.body abi r.msg

  unfoldable pub lend : Exec Response Ptr
  unfolding ◌>>=◌ raw_message
  lend = do r ← get; raw_message r

  -- `close`, also run on context exit and by the finalizer
  abbrev free_if_open : Bool → Exec Response (Unit {0})
  free_if_open true = pure tt
  free_if_open false = do
    r ← get
    ccall abi (message (MessageCall.free r.msg))
    put (record r { closed = true })

  unfoldable pub close : Exec Response (Unit {0})
  unfolding ◌>>=◌ ◌>>◌ ccall
  close = do r ← get; free_if_open r.closed

  -- `__del__`
  unfoldable pub finalize : Exec Response (Unit {0})
  unfolding close swallowed
  finalize = swallowed close
