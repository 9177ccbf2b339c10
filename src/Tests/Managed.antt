-- ===== src/Tests/Managed.antt =====
-- A managed client: two sends, one before and one behind the close.
use nwep_py.Prelude.{◌≡◌, ◌≢◌, ◌+◌, refl, arith, neg, suc, length, none, List, [], ◌∷◌}
use nwep_py.Sys.Exec.{World}
use nwep_py.Wire.{Method}
use nwep_py.Client.Driven.{Client, new_client, MethodArg}
use nwep_py.Runtime.ClientOwner.{
  send_command, System, Action, call_send, call_aclose, deliver, serve, drain, idle, pending, ended,
  init, run, after,
}
use nwep_py.Runtime.ClientOwner.Order.{line, requests_in_order}
use nwep_py.Runtime.Line.{upto}
use nwep_py.Runtime.ClientOwner.Shutdown.{no_send_hangs, has_stop}
use nwep_py.Runtime.ClientOwner.Progress.{turns, owner_ends}
use nwep_py.Runtime.ClientOwner.Faults.{tick_fault_hangs}
use nwep_py.Tests.Quiet.{quiet, with_tick}

abbrev fresh : World Client
fresh = record { self = new_client 7; calls = [] }

abbrev ask : Action
ask = call_send (MethodArg.member Method.read) (47 ∷ []) [] none

abbrev day : List Action
day =
    ask ∷ idle 5 ∷ serve ∷ ask ∷ call_aclose ∷ deliver ∷ serve ∷ serve ∷ ask ∷ drain ∷ deliver ∷ []

requests_in_order_example :
    line (run quiet day (init fresh)) ≡ upto (run quiet day (init fresh)).next
requests_in_order_example = requests_in_order quiet day fresh

no_send_hangs_example : (run quiet day (init fresh)).futures 1 ≢ pending
unfolding run after
no_send_hangs_example =
    no_send_hangs quiet day fresh (λ calls handle now. (0, refl)) refl refl 1 (omega arith)

abbrev closing : System
closing = after quiet call_aclose (after quiet ask (init fresh))

owner_ends_example : (turns quiet (suc (length closing.queue)) closing).phase ≡ ended
unfolding after has_stop
owner_ends_example = owner_ends quiet closing refl refl

abbrev lost : List Action
lost = idle 5 ∷ drain ∷ ask ∷ call_aclose ∷ serve ∷ drain ∷ deliver ∷ []

tick_fault_hangs_example :
    ((run (with_tick (neg 203)) (idle 5 ∷ drain ∷ ask ∷ []) (init fresh)).phase ≡ ended)
    × ((run (with_tick (neg 203)) (idle 5 ∷ drain ∷ ask ∷ []) (init fresh)).queue
        ≡ send_command 0 (MethodArg.member Method.read) (47 ∷ []) [] none ∷ [])
    × ((run (with_tick (neg 203)) (idle 5 ∷ drain ∷ ask ∷ []) (init fresh)).next ≡ 0 + 1)
    × ((run (with_tick (neg 203)) lost (init fresh)).futures 0 ≡ pending)
tick_fault_hangs_example =
    tick_fault_hangs (with_tick (neg 203)) (init fresh) 5 202 (MethodArg.member Method.read)
      (47 ∷ []) [] none (call_aclose ∷ serve ∷ drain ∷ deliver ∷ []) refl refl refl refl refl refl
      refl
