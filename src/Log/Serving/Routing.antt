-- ===== src/Log/Serving/Routing.antt =====
-- What `LogServer.dispatch` of nwep/log.py answers.
use nwep_py.Prelude.{ℕ, zero, suc, true, false, Option, none, some, ◌∷◌, ◌≡◌, ℤ, pos, negsuc, arith}
use nwep_py.Errors.{Outcome, ok, raise, nwep, from_code, runtime_error}
use nwep_py.Sys.{Abi, Call, log, LogCall}
use nwep_py.Sys.Exec.{World}
use nwep_py.Log.Serving.{LogServer, dispatch}
use nwep_py.Server.Request.{Request}
use nwep_py.Server.Responder.{Responder, Reply, answered}

-- The call of a dispatch.
abbrev pub routing : LogServer → Request → Responder → ℕ → Call
routing s q r now = log (LogCall.server_dispatch s.handle q.conn q.msg r.buf now)

-- What a code of C stands for: a reply, no route of the log, or an exception.
abbrev pub reply_of : ℤ → Outcome (Option Reply)
reply_of (pos zero) = ok (some answered)
reply_of (pos (suc n)) = ok none
reply_of (negsuc n) = raise (nwep (from_code (negsuc n)))

-- Only a reply uses the responder up.
abbrev pub claimed_by : ℤ → Responder → Responder
claimed_by (pos zero) r = record r { used = true }
claimed_by rc r = r

module _ (abi : Abi) (s : LogServer) (request : Request) (now : ℕ) where
  -- On a responder that was not used, a dispatch asks C once: it gives a reply and uses the responder
  -- up, leaves the responder for the handler, or raises the exception of C's code.
  pub dispatch-reply_of :
      (w : World Responder) (rc : ℤ)
      → w.self.used ≡ false
      → abi w.calls (routing s request w.self now) ≡ rc
      → dispatch abi s request now w ≡ (
        reply_of rc,
        record { self = claimed_by rc w.self; calls = routing s request w.self now ∷ w.calls },
      )
  unfolding dispatch
  dispatch-reply_of w (pos zero) u a = ground arith
  dispatch-reply_of w (pos (suc zero)) u a = ground arith
  dispatch-reply_of w (pos (suc (suc n))) u a = ground arith
  dispatch-reply_of w (negsuc n) u a = ground arith

  -- On a responder that was used up, a dispatch that C handles writes a second answer into its buffer
  -- before it raises RuntimeError.
  pub dispatch_after_answer :
      (w : World Responder)
      → w.self.used ≡ true
      → abi w.calls (routing s request w.self now) ≡ pos 0
      → dispatch abi s request now w
        ≡ (raise runtime_error, record w { calls = routing s request w.self now ∷ w.calls })
  unfolding dispatch
  dispatch_after_answer w u a = ground arith
