-- ===== src/Tests/Clients.antt =====
-- Responses, clients, handshakes and streams.
use nwep_py.Client.Response.{finalize}
use nwep_py.Prelude.{◌≡◌, refl, arith, neg, true, false, none, List, [], ◌∷◌}
use nwep_py.Sys.{Call, MessageCall, ClientCall}
use nwep_py.Sys.Exec.{World}
use nwep_py.Sys.Handles.{freed, use_after_free, message_handle}
use nwep_py.Wire.{Method}
use nwep_py.Client.Response.{Response, new_response}
use nwep_py.Client.Response.Lifetime as Lifetime
use nwep_py.Client.Driven.{Client, new_client, MethodArg, poll_request, done_args}
use nwep_py.Client.Driven.Outcomes.{as_poll, poll_request-eq-hook}
use nwep_py.Client.Connecting.{Connecting, new_connecting}
use nwep_py.Client.Connecting.Handover
use nwep_py.Client.Connecting.Handover.{
  Pair, ended, misused, handover-IsSound, run_settled, handshake_tick_after_close,
}
use nwep_py.Client.Stream
use nwep_py.Client.Stream.{new_stream, recv}
use nwep_py.Tests.Quiet.{quiet}

abbrev open_response : World Response
open_response = record { self = new_response 9; calls = [] }

-- The status and a header by a generator, a close, and a read behind it.
abbrev reads : List Lifetime.ResponseOp
reads =
    Lifetime.headers_op
    ∷ Lifetime.next_op 0
    ∷ Lifetime.status_op (λ s. [])
    ∷ Lifetime.close_op
    ∷ Lifetime.body_op
    ∷ []

with_block_frees_example :
    (freed
        (message_handle 9)
        (Lifetime.step quiet Lifetime.close_op (Lifetime.run quiet reads open_response)).calls
      ≡ true)
    × (use_after_free
          (message_handle 9)
          (Lifetime.step quiet Lifetime.close_op (Lifetime.run quiet reads open_response)).calls
        ≡ false)
    × ((finalize quiet (Lifetime.run quiet reads open_response)).1
        ≡ Lifetime.step quiet Lifetime.close_op (Lifetime.run quiet reads open_response))
    × ((finalize quiet
          (Lifetime.step quiet Lifetime.close_op (Lifetime.run quiet reads open_response))).1
        ≡ Lifetime.step quiet Lifetime.close_op (Lifetime.run quiet reads open_response))
unfolding freed use_after_free Lifetime.careful
with_block_frees_example =
    Lifetime.with_block_frees quiet 9 reads open_response refl
      (record { owns = refl; flagged = refl; sound = refl })

-- The response after its `close`.
abbrev closed_response : World Response
closed_response = record {
  self = record { msg = 9; closed = true };
  calls = Call.message (MessageCall.free 9) ∷ [];
}

abbrev open_client : World Client
open_client = record { self = new_client 7; calls = [] }

abbrev read : MethodArg
read = MethodArg.member Method.read

poll_request-eq-hook_example :
    (poll_request quiet 1 open_client).0 ≡ as_poll (done_args 1 (neg 203) 9)
poll_request-eq-hook_example =
    poll_request-eq-hook quiet 1 open_client (neg 203) 9 refl (λ e. ground (arith, e))
      (λ n e. ground (arith, e))

abbrev handshake : World Pair
handshake = record { self = record { connecting = new_connecting 7; made = none }; calls = [] }

handover-IsSound_example : Handover.IsSound quiet 7 (
    Handover.run quiet
      (Handover.poll ∷ Handover.close_connecting ∷ Handover.close_client ∷ [])
      handshake)
unfolding ended misused
handover-IsSound_example =
    handover-IsSound quiet 7
      (Handover.poll ∷ Handover.close_connecting ∷ Handover.close_client ∷ []) handshake
      (record { handle = refl; owned = refl; sound = refl })

abbrev failed_handshake : World Pair
failed_handshake = record {
  self = record { connecting = record { handle = 7; done = true }; made = none };
  calls = [];
}

abbrev closed_handshake : World Connecting
closed_handshake = record {
  self = record { handle = 7; done = true };
  calls = Call.client (ClientCall.close 7) ∷ [];
}

abbrev open_stream : World Stream.Stream
open_stream = record { self = new_stream (new_client 7) 4; calls = [] }

abbrev orphan_stream : World Stream.Stream
orphan_stream = record {
  self = new_stream (record { handle = 7; closed = true; cache = none; done_cb = false }) 4;
  calls = Call.client (ClientCall.close 7) ∷ [];
}
