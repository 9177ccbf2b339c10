-- ===== src/Runtime/ServerOwner/Faults.antt =====
-- What a managed server leaves waiting, and how its start can fail.
use nwep_py.Prelude.{ℕ, ◌+◌, ◌++◌, ◌==◌, ==_iff, Bool, true, not, List, [], ◌∷◌, ◌≡◌, arith, all}
use nwep_py.Sys.{Abi}
use nwep_py.Identity.{NodeId}
use nwep_py.Runtime.ServerOwner.{
  resolve_command, pending, ended, System, Action, call_resolve, cancel, after, run,
}

-- The schedule does not cancel the future.
abbrev spares : ℕ → Action → Bool
spares id (cancel j) = not (j == id)
spares id _ = true

record Hangs (id : ℕ) (s : System) : Type 0 where
  gone : s.phase ≡ ended
  unposted : s.posted ≡ []
  waiting : s.futures id ≡ pending

after-Hangs :
    (abi : Abi) (id : ℕ) (a : Action) (s : System)
    → spares id a ≡ true
    → Hangs id s
    → Hangs id (after abi a s)
unfolding after
after-Hangs abi id (cancel j) s p h = ground (arith, ==_iff id j)
after-Hangs abi id _ s p h = ground arith

run-Hangs :
    (abi : Abi) (id : ℕ) (actions : List Action) (s : System)
    → all (spares id) actions ≡ true
    → Hangs id s
    → Hangs id (run abi actions s)
unfolding run
run-Hangs abi id [] s p h = h
run-Hangs abi id (a ∷ actions) s p h =
    run-Hangs abi id actions (after abi a s) (ground arith)
      (after-Hangs abi id a s (ground arith) h)

-- Once the owner of a managed server with a DHT is gone and its callbacks have run, a `resolve` is
-- accepted all the same: its command is queued, under a new future. If that future is pending at first,
-- as a new one is, it stays so under every schedule that does not cancel it.
pub resolve_hangs :
    (abi : Abi) (target : NodeId) (timeout : ℕ) (actions : List Action) (s : System)
    → s.managed ≡ true
    → s.phase ≡ ended
    → s.posted ≡ []
    → s.futures s.next ≡ pending
    → all (spares s.next) actions ≡ true
    → ((run abi (call_resolve target timeout ∷ []) s).queue
        ≡ s.queue ++ resolve_command s.next target timeout ∷ [])
      × ((run abi (call_resolve target timeout ∷ []) s).next ≡ s.next + 1)
      × ((run abi (call_resolve target timeout ∷ actions) s).futures s.next ≡ pending)
unfolding run after
resolve_hangs abi target timeout actions s m e p f g = (
  ground arith,
  ground arith,
  (run-Hangs abi s.next actions (after abi (call_resolve target timeout) s) g
      (record { gone = ground arith; unposted = ground arith; waiting = ground arith })).waiting,
)
