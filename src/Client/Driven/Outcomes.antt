-- ===== src/Client/Driven/Outcomes.antt =====
-- What a request ends with: the two ways to learn of it agree, and an error is the one C returned.
use nwep_py.Prelude.{
  ℕ, zero, suc, Option, some, ◌≡◌, ◌≢◌, refl, arith, ℤ, pos, negsuc, eq_ℤ_iff, ==_iff, true, false,
}
use nwep_py.Errors.{Outcome, ok, raise, nwep, from_code, NwepError}
use nwep_py.Errors.Codes.{from_code-code}
use nwep_py.Sys.{Bytes, Ptr, Abi, client, ClientCall}
use nwep_py.Sys.Exec.{World}
use nwep_py.Sys.Handles.{client_handle, freed, use_after_free}
use nwep_py.Text.{Text, encode}
use nwep_py.Message.{Headers, encode_headers}
use nwep_py.Server.Responder.{body_ptr}
use nwep_py.Client.Response.{Response, new_response}
use nwep_py.Client.Driven.{
  Client, MethodArg, int_method, would_block, Done, completed, failed, done_args, send,
  poll_request, tick, close,
}

-- What the arguments of the hook say, as a poll would.
abbrev pub as_poll : Done → Outcome (Option Response)
as_poll (completed request r) = ok (some r)
as_poll (failed request e) = raise (nwep e)

-- The hook of `on_request_done` and `poll_request` read one code alike: for 0 and every negative
-- code but WOULD_BLOCK, what the hook is given is what a poll with that code returns or raises.
pub poll_request-eq-hook :
    (abi : Abi) (request : ℕ) (w : World Client) (rc : ℤ) (msg : Ptr)
    → abi w.calls (client (ClientCall.request_poll w.self.handle request)) ≡ (rc, msg)
    → rc ≢ would_block
    → ((n : ℕ) → rc ≢ pos (suc n))
    → (poll_request abi request w).0 ≡ as_poll (done_args request rc msg)
unfolding poll_request done_args
poll_request-eq-hook abi request w (pos zero) msg a b n = ground arith
poll_request-eq-hook abi request w (pos (suc k)) msg a b n = absurd (n k refl)
poll_request-eq-hook abi request w (negsuc k) msg a b n =
    ground (arith, eq_ℤ_iff (negsuc k) would_block)

-- An exception with the code where that is negative, and otherwise an open response of the message.
abbrev pub IsEnd : Outcome Response → ℤ → Ptr → Type 0
IsEnd r (pos n) out = r ≡ ok (new_response out)
IsEnd r (negsuc n) out = (e : NwepError) × (r ≡ raise (nwep e)) × (e.code ≡ negsuc n)

-- With a path and headers that encode, `send` ends as the answer of C says: with an exception that
-- carries the code where that is negative, and otherwise with an open response that owns the message.
pub send-IsEnd :
    (abi : Abi) (method : MethodArg) (path : Text) (body : Bytes) (headers : Option Headers)
    (w : World Client) {raw : Bytes} {array : _} (rc : ℤ) (out : Ptr)
    → encode path ≡ ok raw
    → encode_headers headers ≡ ok array
    → abi w.calls
        (client (ClientCall.send w.self.handle (int_method method) raw array (body_ptr body)))
      ≡ (rc, out)
    → IsEnd (send abi method path body headers w).0 rc out
unfolding send
send-IsEnd abi method path body headers w (pos n) out p q a = ground arith
send-IsEnd abi method path body headers w (negsuc n) out p q a =
    (from_code (negsuc n), ground arith, from_code-code (negsuc n))

-- A client is called through its handle whether it is closed or not: `tick` behind a close touches
-- the client that was freed.
pub tick_after_close :
    (abi : Abi) (now : ℕ) (w : World Client)
    → w.self.closed ≡ false
    → use_after_free (client_handle w.self.handle) (tick abi now (close abi w).1).1.calls ≡ true
unfolding tick close use_after_free freed
tick_after_close abi now w o = ground (arith, ==_iff w.self.handle w.self.handle)
