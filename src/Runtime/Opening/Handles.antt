-- ===== src/Runtime/Opening/Handles.antt =====
-- A managed client or stream is handed an open connection, or its connection has been closed.
use nwep_py.Prelude.{
  ℕ, zero, suc, ◌+◌, ==_iff, Bool, true, false, Option, none, List, ◌≡◌, arith, refl,
}
use nwep_py.Errors.{Outcome, ok, raise}
use nwep_py.Sys.{Ptr, Abi, Call}
use nwep_py.Sys.Exec.{World}
use nwep_py.Sys.Handles.{client_handle, freed}
use nwep_py.Text.{Text}
use nwep_py.Wire.{Status}
use nwep_py.Message.{Headers, headers_from, header_at}
use nwep_py.Client.Driven
use nwep_py.Client.Driven.{Client, MethodArg}
use nwep_py.Client.Response
use nwep_py.Client.Response.{Response}
use nwep_py.Client.Stream
use nwep_py.Client.Stream.{Stream, new_stream}
use nwep_py.Runtime.Opening.{
  Opening, refused, failed, abandoned, connected, streaming, closed, report, report_stream,
  client_of, on_headers, on_status, on_meta, on_stream, with_calls, open_stream,
}

-- An open client over a connection that nobody has freed.
pub record IsOpen (h : Ptr) (w : World Client) : Type 0 where
  pub handle : w.self.handle ≡ h
  pub still : w.self.closed ≡ false
  pub alive : freed (client_handle h) w.calls ≡ false

-- The loop gets an open connection, and on every other path the connection has been freed.
abbrev pub Settled : Ptr → Opening → Type 0
Settled h (refused e calls) = Unit
Settled h (failed e w) = freed (client_handle h) w.calls ≡ true
Settled h (abandoned w) = freed (client_handle h) w.calls ≡ true
Settled h (connected w) = IsOpen h w
Settled h (streaming status headers w) = IsOpen h (client_of w) × (w.self.closed ≡ false)

module _ (abi : Abi) (h : Ptr) where
  closed_freed :
      (w : World Client) → IsOpen h w → freed (client_handle h) (closed abi w).calls ≡ true
  unfolding Driven.close freed
  closed_freed w o = ground (arith, ==_iff h h)

  header_at_alive :
      {S : Type 0} (msg : Ptr) (i : ℕ) (w : World S)
      → freed (client_handle h) w.calls ≡ false
      → freed (client_handle h) (header_at abi msg i w).1.calls ≡ false
  unfolding header_at freed
  header_at_alive msg i w a = ground arith

  headers_from_alive :
      {S : Type 0} (fuel : ℕ) (msg : Ptr) (i : ℕ) (w : World S)
      → freed (client_handle h) w.calls ≡ false
      → freed (client_handle h) (headers_from abi fuel msg i w).1.calls ≡ false
  unfolding headers_from
  headers_from_alive zero msg i w a = a
  headers_from_alive (suc fuel) msg i w a = ground (
    arith,
    header_at_alive msg i w a,
    headers_from_alive fuel msg (i + 1) (header_at abi msg i w).1 (header_at_alive msg i w a),
  )

  headers_alive :
      (fuel : ℕ) (m : World Response)
      → freed (client_handle h) m.calls ≡ false
      → freed (client_handle h) (Response.list_headers abi fuel m).1.calls ≡ false
  unfolding Response.list_headers
  headers_alive fuel m a = ground (arith, headers_from_alive fuel m.self.msg 0 m a)

  status_alive :
      (tokens : Status → Text) (m : World Response)
      → freed (client_handle h) m.calls ≡ false
      → freed (client_handle h) (Response.status abi tokens m).1.calls ≡ false
  unfolding Response.status freed
  status_alive tokens m a = ground arith

  -- A new stream over an open client.
  abbrev IsReady : World Stream → Type 0
  IsReady w = IsOpen h (client_of w) × (w.self.closed ≡ false)

  report_stream-Settled :
      (cancelled : Bool) (status : Option Status) (headers : Option Headers) (w : World Stream)
      → IsReady w
      → Settled h (report_stream abi cancelled status headers w)
  unfolding Stream.close Driven.close freed
  report_stream-Settled true status headers w (o, c) = ground (arith, o, ==_iff h h)
  report_stream-Settled false status headers w r = r

  on_headers-Settled :
      (cancelled : Bool) (status : Option Status) (r : Outcome (Option Headers)) (w : World Stream)
      → IsReady w
      → Settled h (on_headers abi cancelled status r w)
  on_headers-Settled cancelled status (raise e) w (o, c) = closed_freed (client_of w) o
  on_headers-Settled cancelled status (ok headers) w o =
      report_stream-Settled cancelled status headers w o

  -- Calls that do not free the connection leave the stream ready.
  with_calls-IsReady :
      (w : World Stream) (calls : List Call)
      → IsReady w
      → freed (client_handle h) calls ≡ false
      → IsReady (with_calls w calls)
  with_calls-IsReady w calls (o, c) a =
      (record { handle = o.handle; still = o.still; alive = a }, c)

  on_status-Settled :
      (fuel : ℕ) (cancelled : Bool) (r : Outcome (Option Status)) (m : World Response)
      (w : World Stream)
      → IsReady w
      → freed (client_handle h) m.calls ≡ false
      → Settled h (on_status abi fuel cancelled r m w)
  on_status-Settled fuel cancelled (raise e) m w o a =
      closed_freed (client_of (with_calls w m.calls)) (with_calls-IsReady w m.calls o a).0
  on_status-Settled fuel cancelled (ok status) m w o a =
      let (r, n) = Response.list_headers abi fuel m in
      on_headers-Settled cancelled status r (with_calls w n.calls)
        (with_calls-IsReady w n.calls o (headers_alive fuel m a))

  on_meta-Settled :
      (tokens : Status → Text) (fuel : ℕ) (cancelled : Bool) (r : Outcome Response)
      (w : World Stream)
      → IsReady w
      → Settled h (on_meta abi tokens fuel cancelled r w)
  on_meta-Settled tokens fuel cancelled (raise e) w (o, c) = closed_freed (client_of w) o
  on_meta-Settled tokens fuel cancelled (ok meta) w (o, c) =
      let m : World Response = record { self = meta; calls = w.calls } in
      on_status-Settled fuel cancelled (Response.status abi tokens m).0
        (Response.status abi tokens m).1 w (o, c) (status_alive tokens m o.alive)

  response-IsReady : (w : World Stream) → IsReady w → IsReady (Stream.response abi w).1
  unfolding Stream.response freed
  response-IsReady w (o, c) = ground (arith, o)

  on_stream-Settled :
      (tokens : Status → Text) (fuel : ℕ) (cancelled : Bool) (r : Outcome ℕ) (w : World Client)
      → IsOpen h w
      → Settled h (on_stream abi tokens fuel cancelled r w)
  on_stream-Settled tokens fuel cancelled (raise e) w o = closed_freed w o
  on_stream-Settled tokens fuel cancelled (ok id) w o =
      let fresh : World Stream = record { self = new_stream w.self id; calls = w.calls } in
      on_meta-Settled tokens fuel cancelled (Stream.response abi fresh).0
        (Stream.response abi fresh).1
        (response-IsReady fresh
          (record { handle = o.handle; still = o.still; alive = o.alive }, refl))

  open_stream-IsOpen :
      (method : MethodArg) (path : Text) (w : World Client)
      → IsOpen h w
      → IsOpen h (Driven.open_stream abi method path none w).1
  unfolding Driven.open_stream freed
  open_stream-IsOpen method path w o = ground (arith, o)

  -- Over an open connection, and whatever C answers, the owner of a managed stream either hands its
  -- loop an open stream of an open client, or it reports a failure or was abandoned, and has freed the
  -- connection.
  pub open_stream-Settled :
      (tokens : Status → Text) (fuel : ℕ) (cancelled : Bool) (method : MethodArg) (path : Text)
      (w : World Client)
      → IsOpen h w
      → Settled h (open_stream abi tokens fuel cancelled method path w)
  unfolding open_stream
  open_stream-Settled tokens fuel cancelled method path w o =
      let (r, v) = Driven.open_stream abi method path none w in
      on_stream-Settled tokens fuel cancelled r v (open_stream-IsOpen method path w o)

  -- Likewise the owner of a managed client.
  pub report-Settled :
      (cancelled : Bool) (w : World Client) → IsOpen h w → Settled h (report abi cancelled w)
  report-Settled true w o = closed_freed w o
  report-Settled false w o = o
