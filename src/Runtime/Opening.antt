-- ===== src/Runtime/Opening.antt =====
-- `_connect_async` and `_stream` of nwep/runtime.py up to their loops: the owner thread connects,
-- opens the stream, and reports to the awaiter, which may have been cancelled.
pub mod Handles
use nwep_py.Prelude.{ℕ, Bool, true, false, Option, none, some, List}
use nwep_py.Errors.{Exc, Outcome, ok, raise}
use nwep_py.Sys.{Abi, Call}
use nwep_py.Sys.Exec.{World}
use nwep_py.Text.{Text}
use nwep_py.Wire.{Status}
use nwep_py.Message.{Headers}
use nwep_py.Identity.{NodeId, Identity}
use nwep_py.Address.{Address}
use nwep_py.Client.Building.{ClientBuilder, config_missing, connect}
use nwep_py.Client.Driven
use nwep_py.Client.Driven.{Client, MethodArg}
use nwep_py.Client.Response
use nwep_py.Client.Response.{Response}
use nwep_py.Client.Stream
use nwep_py.Client.Stream.{Stream, new_stream}

-- What the awaiter gets, and the objects that the owner holds then: without a connection only the
-- calls. The headers are none where their fuel ran out.
pub data Opening : Type 0 where
  refused : Exc → List Call → Opening
  failed : Exc → World Client → Opening
  abandoned : World Client → Opening
  connected : World Client → Opening
  streaming : Option Status → Option Headers → World Stream → Opening

abbrev pub client_of : World Stream → World Client
client_of w = record { self = w.self.owner; calls = w.calls }

-- Another object's method made these calls.
abbrev pub with_calls : World Stream → List Call → World Stream
with_calls w calls = record w { calls = calls }

module _ (abi : Abi) where
  -- `client.close()`
  abbrev pub closed : World Client → World Client
  closed w = (Driven.close abi w).1

  -- The `ready.set_result` of `_connect_async`.
  abbrev pub report : Bool → World Client → Opening
  report true w = abandoned (closed w)
  report false w = connected w

  abbrev pub shut_stream : World Stream → World Client
  shut_stream w = closed (client_of (Stream.close abi w).1)

  abbrev pub report_stream : Bool → Option Status → Option Headers → World Stream → Opening
  report_stream true status headers w = abandoned (shut_stream w)
  report_stream false status headers w = streaming status headers w

  abbrev pub on_headers : Bool → Option Status → Outcome (Option Headers) → World Stream → Opening
  on_headers cancelled status (raise e) w = failed e (closed (client_of w))
  on_headers cancelled status (ok headers) w = report_stream cancelled status headers w

  abbrev pub on_status :
      ℕ → Bool → Outcome (Option Status) → World Response → World Stream → Opening
  on_status fuel cancelled (raise e) m w = failed e (closed (client_of (with_calls w m.calls)))
  on_status fuel cancelled (ok status) m w =
      let (r, n) = Response.list_headers abi fuel m in
      on_headers cancelled status r (with_calls w n.calls)

  -- `meta.status, list(meta.headers())`
  abbrev pub on_meta : (Status → Text) → ℕ → Bool → Outcome Response → World Stream → Opening
  on_meta tokens fuel cancelled (raise e) w = failed e (closed (client_of w))
  on_meta tokens fuel cancelled (ok meta) w =
      let (r, m) = Response.status abi tokens (record { self = meta; calls = w.calls }) in
      on_status fuel cancelled r m w

  abbrev pub on_stream : (Status → Text) → ℕ → Bool → Outcome ℕ → World Client → Opening
  on_stream tokens fuel cancelled (raise e) w = failed e (closed w)
  on_stream tokens fuel cancelled (ok id) w =
      let (r, v) = Stream.response abi (record { self = new_stream w.self id; calls = w.calls }) in
      on_meta tokens fuel cancelled r v

  -- The second `try` of `_stream` and what follows it.
  unfoldable pub open_stream :
      (Status → Text) → ℕ → Bool → MethodArg → Text → World Client → Opening
  unfolding Driven.open_stream Driven.close Stream.response Stream.close Response.status
      Response.list_headers
  open_stream tokens fuel cancelled method path w =
      let (r, v) = Driven.open_stream abi method path none w in on_stream tokens fuel cancelled r v

  -- `builder.connect`, and what its owner does with the client.
  abbrev on_client : (World Client → Opening) → Outcome Client → List Call → Opening
  on_client next (raise e) calls = refused e calls
  on_client next (ok c) calls = next (record { self = c; calls = calls })

  -- The owner of `_connect_async`.
  unfoldable pub connect_async : Bool → NodeId → Address → World ClientBuilder → Opening
  unfolding connect Driven.close
  connect_async cancelled target address w =
      let (r, v) = connect abi target address w in on_client (report cancelled) r v.calls

  -- The owner of `_stream`.
  unfoldable pub stream :
      (Status → Text)
      → ℕ
      → Bool
      → MethodArg
      → Text
      → NodeId
      → Address
      → World ClientBuilder
      → Opening
  unfolding connect open_stream
  stream tokens fuel cancelled method path target address w =
      let (r, v) = connect abi target address w in
      on_client (open_stream tokens fuel cancelled method path) r v.calls

  -- The async terminals of `ClientBuilder`: without an identity they raise before a thread starts.
  abbrev pub guarded :
      Option Identity → (World ClientBuilder → Opening) → World ClientBuilder → Opening
  guarded none next w = refused config_missing w.calls
  guarded (some i) next w = next w

  unfoldable pub builder_connect_async : Bool → NodeId → Address → World ClientBuilder → Opening
  unfolding connect_async
  builder_connect_async cancelled target address w =
      guarded w.self.owner (connect_async cancelled target address) w

  unfoldable pub builder_stream :
      (Status → Text)
      → ℕ
      → Bool
      → MethodArg
      → Text
      → NodeId
      → Address
      → World ClientBuilder
      → Opening
  unfolding stream
  builder_stream tokens fuel cancelled method path target address w =
      guarded w.self.owner (stream tokens fuel cancelled method path target address) w
