-- ===== src/Runtime/ClientOwner/Order.antt =====
-- Requests are answered in the order of their calls, each once.
use mathlib.Core.List.{append_assoc, append-nil}
use nwep_py.Prelude.{
  ℕ, Bool, true, false, Option, List, [], ◌∷◌, ◌++◌, ◌≡◌, refl, sym, ap, ◌∙◌, arith,
}
use nwep_py.Errors.{Outcome, raise}
use nwep_py.Sys.{Bytes, Abi}
use nwep_py.Sys.Exec.{World}
use nwep_py.Client.Response.{Response}
use nwep_py.Client.Driven.{Client, MethodArg, send}
use nwep_py.Text.{Text}
use nwep_py.Message.{Headers}
use nwep_py.Runtime.Line.{posted_ids, posted_ids-append, upto, upto-add_one}
use nwep_py.Runtime.ClientOwner.{
  or_stay, do_deliver, do_serve, do_drain, do_idle, do_send, do_aclose, Phase, running, draining,
  network_closed, Command, send_command, stop_command, System, init, Action, call_send, call_aclose,
  deliver, serve, drain, cancel, idle, after, run,
}

unfoldable pub queue_ids : List Command → List ℕ
queue_ids [] = []
queue_ids (stop_command ∷ q) = queue_ids q
queue_ids (send_command id method path body headers ∷ q) = id ∷ queue_ids q

queue_ids-append : (q r : List Command) → queue_ids (q ++ r) ≡ queue_ids q ++ queue_ids r
unfolding queue_ids
queue_ids-append [] r = refl
queue_ids-append (stop_command ∷ q) r = queue_ids-append q r
queue_ids-append (send_command id m p b h ∷ q) r = simp (queue_ids-append q r)

-- The futures in the order in which they pass: answered, posted, waiting.
unfoldable pub line : System → List ℕ
line s = s.delivered ++ (posted_ids s.posted ++ queue_ids s.queue)

-- Every future made stands in the line once, in the order of the calls.
abbrev pub InOrder : System → Type 0
InOrder s = line s ≡ upto s.next

-- One lemma for each list that an action takes from.
deliver-InOrder :
    (s : System) (p : List (ℕ × Outcome Response))
    → s.posted ≡ p
    → InOrder s
    → InOrder (or_stay s (do_deliver p s))
unfolding line posted_ids
deliver-InOrder s [] e o = o
deliver-InOrder s ((id, r) ∷ p) e o =
    ground (arith, append_assoc s.delivered (id ∷ []) (posted_ids p ++ queue_ids s.queue))

post_line :
    (s : System) (id : ℕ) (r : Outcome Response) (q : List Command)
    → s.delivered ++ (posted_ids (s.posted ++ (id, r) ∷ []) ++ queue_ids q)
      ≡ s.delivered ++ (posted_ids s.posted ++ (id ∷ queue_ids q))
post_line s id r q = rw (posted_ids-append) (unfold posted_ids in rw append_assoc)

serve-InOrder :
    (abi : Abi) (s : System) (f : Phase) (q : List Command)
    → s.queue ≡ q
    → InOrder s
    → InOrder (or_stay s (do_serve abi f q s))
unfolding line queue_ids
serve-InOrder abi s running (stop_command ∷ q) e o = ground arith
serve-InOrder abi s running (send_command id m p b h ∷ q) e o =
    ground (arith, post_line s id (send abi m p b h s.client).0 q)
serve-InOrder abi s _ _ e o = o

drain-InOrder :
    (abi : Abi) (s : System) (f : Phase) (q : List Command)
    → s.queue ≡ q
    → InOrder s
    → InOrder (or_stay s (do_drain abi f q s))
unfolding line queue_ids
drain-InOrder abi s draining [] e o = o
drain-InOrder abi s draining (stop_command ∷ q) e o = ground arith
drain-InOrder abi s draining (send_command id m p b h ∷ q) e o =
    ground (arith, post_line s id (raise network_closed) q)
drain-InOrder abi s _ _ e o = o

idle-InOrder :
    (abi : Abi) (now : ℕ) (s : System) (f : Phase) (q : List Command)
    → InOrder s
    → InOrder (or_stay s (do_idle abi now f q s))
unfolding line
idle-InOrder abi now s running [] o = o
idle-InOrder abi now s _ _ o = o

put_line :
    (s : System) (c : Command)
    → s.delivered ++ (posted_ids s.posted ++ queue_ids (s.queue ++ c ∷ []))
      ≡ line s ++ queue_ids (c ∷ [])
unfolding line
put_line s c = rw queue_ids-append (simp append_assoc)

call_send-InOrder :
    (abi : Abi) (m : MethodArg) (p : Text) (b : Bytes) (h : Option Headers) (closed : Bool)
    (s : System)
    → InOrder s
    → InOrder (or_stay s (do_send m p b h closed s))
unfolding line queue_ids
call_send-InOrder abi m p b h true s o = o
call_send-InOrder abi m p b h false s o =
    put_line s (send_command s.next m p b h)
    ∙ ap (λ l. l ++ s.next ∷ []) o
    ∙ sym (upto-add_one s.next)

call_aclose-InOrder :
    (closed : Bool) (s : System) → InOrder s → InOrder (or_stay s (do_aclose closed s))
unfolding line queue_ids
call_aclose-InOrder true s o = o
call_aclose-InOrder false s o = put_line s stop_command ∙ append-nil (line s) ∙ o

after-InOrder : (abi : Abi) (a : Action) (s : System) → InOrder s → InOrder (after abi a s)
unfolding after
after-InOrder abi (call_send m p b h) s o = call_send-InOrder abi m p b h s.closed s o
after-InOrder abi call_aclose s o = call_aclose-InOrder s.closed s o
after-InOrder abi deliver s o = deliver-InOrder s s.posted refl o
after-InOrder abi serve s o = serve-InOrder abi s s.phase s.queue refl o
after-InOrder abi drain s o = drain-InOrder abi s s.phase s.queue refl o
after-InOrder abi (cancel id) s o = unfold line in o
after-InOrder abi (idle now) s o = idle-InOrder abi now s s.phase s.queue o

run-InOrder :
    (abi : Abi) (actions : List Action) (s : System) → InOrder s → InOrder (run abi actions s)
unfolding run
run-InOrder abi [] s o = o
run-InOrder abi (a ∷ actions) s o =
    run-InOrder abi actions (after abi a s) (after-InOrder abi a s o)

-- From the start, under every schedule of the threads, the futures that were made stand in the order
-- of their calls, each once: those delivered first, then those whose callback is posted, then those in
-- the queue.
pub requests_in_order :
    (abi : Abi) (actions : List Action) (client : World Client)
    → line (run abi actions (init client)) ≡ upto (run abi actions (init client)).next
requests_in_order abi actions client =
    run-InOrder abi actions (init client) (unfold line upto posted_ids queue_ids in refl)
