-- ===== src/Runtime/ServerOwner/Order.antt =====
-- The commands of a managed server are answered in the order of their calls, each once.
use mathlib.Core.List.{append_assoc}
use nwep_py.Prelude.{
  ℕ, Bool, true, false, Option, none, some, List, [], ◌∷◌, ◌++◌, ◌≡◌, refl, sym, ap, ◌∙◌, arith,
}
use nwep_py.Errors.{Outcome, ok, raise}
use nwep_py.Sys.{Abi}
use nwep_py.Sys.Exec.{World}
use nwep_py.Address.{Address}
use nwep_py.Dht
use nwep_py.Runtime.Hosting.{Host, on_dht, Readings, resolve_blocking}
use nwep_py.Runtime.Line.{posted_ids, posted_ids-append, upto, upto-add_one}
use nwep_py.Runtime.ServerOwner.{
  enqueue, do_deliver, resolved, metered, post, do_look, do_serve, do_work, after_turn, turn,
  Command, resolve_command, metrics_command, Answer, Phase, testing, servicing, System, init,
  Action, call_resolve, call_metrics, call_shutdown, deliver, look, cancel, serve, work, or_stay,
  after, run,
}

abbrev command_id : Command → ℕ
command_id (resolve_command id target timeout) = id
command_id (metrics_command id) = id

unfoldable pub queue_ids : List Command → List ℕ
queue_ids [] = []
queue_ids (c ∷ q) = command_id c ∷ queue_ids q

queue_ids-append : (q r : List Command) → queue_ids (q ++ r) ≡ queue_ids q ++ queue_ids r
unfolding queue_ids
queue_ids-append [] r = refl
queue_ids-append (c ∷ q) r = simp (queue_ids-append q r)

-- The futures in the order in which they pass: answered, posted, waiting.
unfoldable pub line : System → List ℕ
line s = s.delivered ++ (posted_ids s.posted ++ queue_ids s.queue)

-- Every future made stands in the line once, in the order of the calls.
abbrev pub InOrder : System → Type 0
InOrder s = line s ≡ upto s.next

put_line :
    (s : System) (c : Command)
    → s.delivered ++ (posted_ids s.posted ++ queue_ids (s.queue ++ c ∷ []))
      ≡ line s ++ queue_ids (c ∷ [])
unfolding line
put_line s c = rw queue_ids-append (simp append_assoc)

enqueue-InOrder :
    (managed : Bool) (c : Command) (s : System)
    → command_id c ≡ s.next
    → InOrder s
    → InOrder (or_stay s (enqueue managed c s))
unfolding line queue_ids
enqueue-InOrder false c s e o = o
enqueue-InOrder true c s e o =
    put_line s c
    ∙ ap (λ l. l ++ command_id c ∷ []) o
    ∙ ap (λ n. upto s.next ++ n ∷ []) e
    ∙ sym (upto-add_one s.next)

deliver-InOrder :
    (s : System) (p : List (ℕ × Outcome Answer))
    → s.posted ≡ p
    → InOrder s
    → InOrder (or_stay s (do_deliver p s))
unfolding line posted_ids
deliver-InOrder s [] e o = o
deliver-InOrder s ((id, r) ∷ p) e o =
    ground (arith, append_assoc s.delivered (id ∷ []) (posted_ids p ++ queue_ids s.queue))

post_line :
    (s : System) (id : ℕ) (r : Outcome Answer) (q : List Command)
    → s.delivered ++ (posted_ids (s.posted ++ (id, r) ∷ []) ++ queue_ids q)
      ≡ s.delivered ++ (posted_ids s.posted ++ (id ∷ queue_ids q))
post_line s id r q = rw (posted_ids-append) (unfold posted_ids in rw append_assoc)

post-InOrder :
    (c : Command) (r : Option (Outcome Answer)) (host : World Host) (q : List Command) (s : System)
    → s.queue ≡ c ∷ q
    → InOrder s
    → InOrder (or_stay s (post (command_id c) r host q s))
unfolding line queue_ids
post-InOrder c none host q s e o = o
post-InOrder c (some r) host q s e o = ground (arith, post_line s (command_id c) r q)

serve-InOrder :
    (abi : Abi) (t : Readings) (turns : List Readings) (f : Phase) (q : List Command) (s : System)
    → s.queue ≡ q
    → InOrder s
    → InOrder (or_stay s (do_serve abi t turns f q s))
serve-InOrder abi t turns (servicing last) (resolve_command id target timeout ∷ q) s e o =
    let (r, host) = resolve_blocking abi target timeout t turns s.host in
    post-InOrder (resolve_command id target timeout) (resolved r) host q s e o
serve-InOrder abi t turns (servicing last) (metrics_command id ∷ q) s e o =
    let (r, host) = on_dht (Dht.metrics abi) s.host in
    post-InOrder (metrics_command id) (some (metered r)) host q s e o
serve-InOrder abi t turns _ _ s e o = o

look-InOrder :
    (abi : Abi) (stop : Bool) (f : Phase) (s : System)
    → InOrder s
    → InOrder (or_stay s (do_look abi stop f s))
unfolding line
look-InOrder abi true (testing last) s o = o
look-InOrder abi false (testing last) s o = o
look-InOrder abi _ _ s o = o

after_turn-InOrder :
    (abi : Abi) (r : Outcome ℕ) (host : World Host) (s : System)
    → InOrder s
    → InOrder (or_stay s (after_turn abi r host s))
unfolding line
after_turn-InOrder abi (ok last) host s o = o
after_turn-InOrder abi (raise e) host s o = o

work-InOrder :
    (abi : Abi) (t : Readings) (later_ms : ℕ) (f : Phase) (q : List Command) (s : System)
    → InOrder s
    → InOrder (or_stay s (do_work abi t later_ms f q s))
work-InOrder abi t later_ms (servicing last) [] s o =
    let (r, host) = turn abi s.managed s.service t later_ms last s.host in
    after_turn-InOrder abi r host s o
work-InOrder abi t later_ms _ _ s o = o

after-InOrder : (abi : Abi) (a : Action) (s : System) → InOrder s → InOrder (after abi a s)
unfolding after
after-InOrder abi (call_resolve target timeout) s o =
    enqueue-InOrder s.managed (resolve_command s.next target timeout) s refl o
after-InOrder abi call_metrics s o = enqueue-InOrder s.managed (metrics_command s.next) s refl o
after-InOrder abi call_shutdown s o = unfold line in o
after-InOrder abi (cancel id) s o = unfold line in o
after-InOrder abi deliver s o = deliver-InOrder s s.posted refl o
after-InOrder abi look s o = look-InOrder abi s.stop s.phase s o
after-InOrder abi (serve t turns) s o = serve-InOrder abi t turns s.phase s.queue s refl o
after-InOrder abi (work t later_ms) s o = work-InOrder abi t later_ms s.phase s.queue s o

pub run-InOrder :
    (abi : Abi) (actions : List Action) (s : System) → InOrder s → InOrder (run abi actions s)
unfolding run
run-InOrder abi [] s o = o
run-InOrder abi (a ∷ actions) s o =
    run-InOrder abi actions (after abi a s) (after-InOrder abi a s o)

-- From the start, under every schedule of the threads, the resolves and the scrapes that were asked
-- for stand in the order of their calls, each once: those delivered first, then those whose callback
-- is posted, then those in the queue.
pub commands_in_order :
    (abi : Abi) (actions : List Action) (managed : Bool) (service : Option Address)
    (host : World Host)
    → line (run abi actions (init managed service host))
      ≡ upto (run abi actions (init managed service host)).next
commands_in_order abi actions managed service host =
    run-InOrder abi actions (init managed service host)
      (unfold line upto posted_ids queue_ids in refl)
