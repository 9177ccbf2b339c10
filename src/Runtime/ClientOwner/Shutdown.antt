-- ===== src/Runtime/ClientOwner/Shutdown.antt =====
-- The end of a managed client of nwep/runtime.py leaves no caller waiting.
use mathlib.Core.Path.{subst}
use mathlib.Core.List.{append-nil}
use nwep_py.Prelude.{
  ℕ, ◌<◌, ==_iff, Bool, true, false, Option, List, [], ◌∷◌, ◌++◌, ◌≡◌, ◌≢◌, ◌⊎◌, inl, inr, refl,
  arith, pos,
}
use nwep_py.Errors.{Outcome}
use nwep_py.Sys.{Bytes, Ptr, Abi, Call, client, ClientCall}
use nwep_py.Sys.Exec.{World}
use nwep_py.Text.{Text}
use nwep_py.Message.{Headers}
use nwep_py.Client.Driven.{Client, MethodArg, tick}
use nwep_py.Runtime.ClientOwner.{
  Response, settle, Command, send_command, stop_command, Future, pending, cancelled, settled,
  running, ended, System, init, Action, call_send, deliver, idle, after, run,
}
use nwep_py.Runtime.ClientOwner.Order.{queue_ids, line, requests_in_order}
use nwep_py.Runtime.Line.{posted_ids, upto}
use nwep_py.Runtime.Answering.{Answered, Answered-added, Answered-upto}

-- Once a future is not pending it never is again.
pub after_ne_pending :
    (abi : Abi) (a : Action) (s : System) (id : ℕ)
    → s.futures id ≢ pending
    → (after abi a s).futures id ≢ pending
unfolding after
after_ne_pending abi a s id h = ground arith

unfoldable pub has_stop : List Command → Bool
has_stop [] = false
has_stop (stop_command ∷ q) = true
has_stop (send_command id m p b h ∷ q) = has_stop q

has_stop-append_send :
    (q : List Command) (id : ℕ) (m : MethodArg) (p : Text) (b : Bytes) (h : Option Headers)
    → has_stop (q ++ send_command id m p b h ∷ []) ≡ has_stop q
unfolding has_stop
has_stop-append_send [] id m p b h = refl
has_stop-append_send (stop_command ∷ q) id m p b h = refl
has_stop-append_send (send_command i n r c k ∷ q) id m p b h = has_stop-append_send q id m p b h

-- `aclose` has been called if the owner has left its loop or has a stop before it, and the queue is
-- empty when the owner is gone.
record IsClean (s : System) : Type 0 where
  open_running : s.closed ≡ false → s.phase ≡ running
  stopped : has_stop s.queue ≡ true → s.closed ≡ true
  ended_empty : s.phase ≡ ended → s.queue ≡ []

-- C never fails a tick.
abbrev pub TicksSucceed : Abi → Type 0
TicksSucceed abi =
    (calls : List Call) (handle : Ptr) (now : ℕ)
    → (n : ℕ) × (abi calls (client (ClientCall.tick handle now)) ≡ pos n)

after-IsClean :
    (abi : Abi) → TicksSucceed abi → (a : Action) (s : System) → IsClean s → IsClean (after abi a s)
unfolding after tick has_stop
after-IsClean abi t (idle now) s h = ground (arith, t s.client.calls s.client.self.handle now)
after-IsClean abi t (call_send m p b hs) s h =
    ground (arith, has_stop-append_send s.queue s.next m p b hs)
after-IsClean abi t _ s h = ground arith

init-IsClean : (world : World Client) → IsClean (init world)
unfolding has_stop
init-IsClean world = ground arith

run-IsClean :
    (abi : Abi)
    → TicksSucceed abi
    → (actions : List Action) (s : System) → IsClean s
    → IsClean (run abi actions s)
unfolding run
run-IsClean abi t [] s h = h
run-IsClean abi t (a ∷ actions) s h =
    run-IsClean abi t actions (after abi a s) (after-IsClean abi t a s h)

settle_ne_pending : (r : Outcome Response) (f : Future) → settle r f ≢ pending
settle_ne_pending r pending = ground arith
settle_ne_pending r (settled q) = ground arith
settle_ne_pending r cancelled = ground arith

-- The first callback answers its future.
deliver_answers :
    (abi : Abi) (s : System) (id : ℕ) (r : Outcome Response) (p : List (ℕ × Outcome Response))
    → s.posted ≡ (id, r) ∷ p
    → (after abi deliver s).futures id ≢ pending
unfolding after
deliver_answers abi s id r p e = ground (arith, ==_iff id id, settle_ne_pending r (s.futures id))

deliver-delivered :
    (abi : Abi) (s : System) (p : List (ℕ × Outcome Response))
    → s.posted ≡ p
    → (after abi deliver s).delivered ≡ s.delivered
      ⊎ (id : ℕ) × (after abi deliver s).delivered ≡ s.delivered ++ id ∷ []
        × (after abi deliver s).futures id ≢ pending
unfolding after
deliver-delivered abi s [] e = inl (ground arith)
deliver-delivered abi s ((id, r) ∷ p) e = inr (id, ground arith, deliver_answers abi s id r p e)

-- What an action adds to the delivered futures: at most one, which is then answered.
after-delivered :
    (abi : Abi) (a : Action) (s : System)
    → (after abi a s).delivered ≡ s.delivered
      ⊎ (id : ℕ) × (after abi a s).delivered ≡ s.delivered ++ id ∷ []
        × (after abi a s).futures id ≢ pending
unfolding after
after-delivered abi deliver s = deliver-delivered abi s s.posted refl
after-delivered abi _ s = ground arith

after_keeps :
    (abi : Abi) (a : Action) (s : System)
    → Answered pending s.futures s.delivered
    → Answered pending (after abi a s).futures (after abi a s).delivered
after_keeps abi a s h =
    Answered-added pending s.futures (after abi a s).futures s.delivered (after abi a s).delivered
      (after_ne_pending abi a s) (after-delivered abi a s) h

run-Answered :
    (abi : Abi) (actions : List Action) (s : System)
    → Answered pending s.futures s.delivered
    → Answered pending (run abi actions s).futures (run abi actions s).delivered
unfolding run
run-Answered abi [] s h = h
run-Answered abi (a ∷ actions) s h =
    run-Answered abi actions (after abi a s) (after_keeps abi a s h)

-- If C never fails a tick: once the owner is gone and the posted callbacks have run, no future that a
-- send made is pending, whatever the schedule was.
pub no_send_hangs :
    (abi : Abi) (actions : List Action) (world : World Client)
    → TicksSucceed abi
    → (run abi actions (init world)).phase ≡ ended
    → (run abi actions (init world)).posted ≡ []
    → (id : ℕ) → id < (run abi actions (init world)).next
    → (run abi actions (init world)).futures id ≢ pending
unfolding line posted_ids queue_ids
no_send_hangs abi actions world t e p id l =
    let s = run abi actions (init world) in
    let clean : IsClean s = run-IsClean abi t actions (init world) (init-IsClean world) in
    let q : s.queue ≡ [] = clean.ended_empty e in
    let d : s.delivered ≡ upto s.next =
      cc (p, q, requests_in_order abi actions world, append-nil s.delivered) in
    Answered-upto pending s.futures s.next
      (subst (Answered pending s.futures) d (run-Answered abi actions (init world) tt)) id l
