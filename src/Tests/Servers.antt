-- ===== src/Tests/Servers.antt =====
-- The dispatch of a request, and range headers.
use nwep_py.Prelude.{◌≡◌, ◌⊎◌, refl, ◌+◌, ◌≤◌, true, false, some, [], ◌∷◌}
use nwep_py.Errors.{Outcome, runtime_error}
use nwep_py.Sys.Exec.{World}
use nwep_py.Server.Request.{Request}
use nwep_py.Server.Responder.{Responder, Reply, answered}
use nwep_py.Server.Handler.{Write, Handler, perform_write, trampoline}
use nwep_py.Server.Handler.Trampoline.{answers, careful, trampoline-answers_once}
use nwep_py.Server.Handler.Answers.{claim_cases, reply_answers}
use nwep_py.Log.Serving.{LogServer}
use nwep_py.Tests.Quiet.{quiet}

-- A handler that passes its responder on to a log server, and answers twice behind it.
abbrev give : Outcome Reply → Handler
give (Outcome.ok reply) = Handler.return (some reply)
give (Outcome.raise e) = Handler.throw e

abbrev served : LogServer
served = record { handle = 23; tree = 19; append_cb = false; closed = false }

abbrev twice : Handler
twice =
    Handler.log_dispatch served 100
      (λ r. Handler.write (Write.ok (98 ∷ [])) (λ s. Handler.write Write.not_allowed give))

trampoline-answers_once_example :
    answers quiet (trampoline quiet twice 5 1 2 8 9 []).1.calls ≤ answers quiet [] + 1
unfolding careful
trampoline-answers_once_example = trampoline-answers_once quiet twice 5 1 2 8 9 [] refl

abbrev fresh : World Responder
fresh = record {
  self = record { buf = 9; server_ptr = 5; conn = 1; stream_id = 2; used = false };
  calls = [];
}

abbrev spent_responder : World Responder
spent_responder = record {
  self = record { buf = 9; server_ptr = 5; conn = 1; stream_id = 2; used = true };
  calls = [];
}

claim_cases_example :
    ((spent_responder.self.used ≡ true)
      × (perform_write quiet Write.not_allowed spent_responder
          ≡ (Outcome.raise runtime_error, spent_responder)))
    ⊎ ((spent_responder.self.used ≡ false)
        × ((perform_write quiet Write.not_allowed spent_responder).1.self.used ≡ true))
claim_cases_example = claim_cases quiet Write.not_allowed spent_responder refl

reply_answers_example :
    answers quiet (perform_write quiet (Write.ok (98 ∷ [])) fresh).1.calls ≡ 1 + answers quiet []
unfolding perform_write
reply_answers_example = reply_answers quiet (Write.ok (98 ∷ [])) fresh answered refl refl

abbrev req : Request
req = record { msg = 8; server_ptr = 5; conn = 1; stream_id = 2 }
