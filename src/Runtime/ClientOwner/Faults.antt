-- ===== src/Runtime/ClientOwner/Faults.antt =====
-- What a failing tick of the idle loop of nwep/runtime.py leads to.
use nwep_py.Prelude.{
  ℕ, ◌+◌, ◌==◌, ==_iff, Bool, true, false, not, Option, List, [], ◌∷◌, ◌≡◌, arith, negsuc, all,
}
use nwep_py.Sys.{Bytes, Abi, client, ClientCall}
use nwep_py.Text.{Text}
use nwep_py.Message.{Headers}
use nwep_py.Client.Driven.{MethodArg, tick}
use nwep_py.Runtime.ClientOwner.{
  send_command, pending, running, ended, System, Action, call_send, drain, cancel, idle, after, run,
}

-- The schedule does not cancel the future.
abbrev spares : ℕ → Action → Bool
spares id (cancel j) = not (j == id)
spares id _ = true

record Hangs (id : ℕ) (s : System) : Type 0 where
  gone : s.phase ≡ ended
  unposted : s.posted ≡ []
  waiting : s.futures id ≡ pending

after-Hangs :
    (abi : Abi) (id : ℕ) (a : Action) (s : System)
    → spares id a ≡ true
    → Hangs id s
    → Hangs id (after abi a s)
unfolding after
after-Hangs abi id (cancel j) s p h = ground (arith, ==_iff id j)
after-Hangs abi id _ s p h = ground arith

run-Hangs :
    (abi : Abi) (id : ℕ) (actions : List Action) (s : System)
    → all (spares id) actions ≡ true
    → Hangs id s
    → Hangs id (run abi actions s)
unfolding run
run-Hangs abi id [] s p h = h
run-Hangs abi id (a ∷ actions) s p h =
    run-Hangs abi id actions (after abi a s) (ground arith)
      (after-Hangs abi id a s (ground arith) h)

-- An idle tick that raises ends the owner of a client that is still open. The next `send` is accepted
-- all the same: its command is queued, under a new future, behind the owner that is gone. If that
-- future is pending at first, as a new one is, it stays so under every schedule that does not cancel it.
pub tick_fault_hangs :
    (abi : Abi) (s : System) (now n : ℕ) (m : MethodArg) (p : Text) (b : Bytes) (h : Option Headers)
    (actions : List Action)
    → s.phase ≡ running
    → s.queue ≡ []
    → s.posted ≡ []
    → s.closed ≡ false
    → s.futures s.next ≡ pending
    → abi s.client.calls (client (ClientCall.tick s.client.self.handle now)) ≡ negsuc n
    → all (spares s.next) actions ≡ true
    → ((run abi (idle now ∷ drain ∷ call_send m p b h ∷ []) s).phase ≡ ended)
      × ((run abi (idle now ∷ drain ∷ call_send m p b h ∷ []) s).queue
          ≡ send_command s.next m p b h ∷ [])
      × ((run abi (idle now ∷ drain ∷ call_send m p b h ∷ []) s).next ≡ s.next + 1)
      × ((run abi (idle now ∷ drain ∷ call_send m p b h ∷ actions) s).futures s.next ≡ pending)
unfolding run after tick
tick_fault_hangs abi s now n m p b h actions f q o c w t k = (
  ground arith,
  ground arith,
  ground arith,
  (run-Hangs abi s.next actions
      (after abi (call_send m p b h) (after abi drain (after abi (idle now) s))) k
      (ground arith)).waiting,
)
