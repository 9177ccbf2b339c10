-- ===== src/Runtime/ServerOwner/Answers.antt =====
-- What is asked of a managed server before its owner comes to the commands is answered.
use mathlib.Core.Path.{subst}
use mathlib.Core.List.{append-nil}
use nwep_py.Prelude.{
  ℕ, ◌<◌, ==_iff, Bool, Option, List, [], ◌∷◌, ◌++◌, ◌≡◌, ◌≢◌, ◌⊎◌, inl, inr, map, refl, ◌∙◌, arith,
}
use nwep_py.Errors.{Outcome}
use nwep_py.Sys.{Abi}
use nwep_py.Sys.Exec.{World}
use nwep_py.Address.{Address}
use nwep_py.Runtime.Hosting.{Host}
use nwep_py.Runtime.Line.{posted_ids, upto}
use nwep_py.Runtime.Answering.{Answered, Answered-added, Answered-upto}
use nwep_py.Runtime.ServerOwner.{
  Command, Answer, Future, pending, cancelled, settled, settle, System, init, Action, deliver,
  after, run,
}
use nwep_py.Runtime.ServerOwner.Order.{line, queue_ids, InOrder, run-InOrder, commands_in_order}
use nwep_py.Runtime.ServerOwner.Progress.{Enough, Reading, serving, IsServicing, run-IsServicing}

after_ne_pending :
    (abi : Abi) (a : Action) (s : System) (id : ℕ)
    → s.futures id ≢ pending
    → (after abi a s).futures id ≢ pending
unfolding after
after_ne_pending abi a s id h = ground arith

settle_ne_pending : (r : Outcome Answer) (f : Future) → settle r f ≢ pending
settle_ne_pending r pending = ground arith
settle_ne_pending r (settled q) = ground arith
settle_ne_pending r cancelled = ground arith

deliver-delivered :
    (abi : Abi) (s : System) (p : List (ℕ × Outcome Answer))
    → s.posted ≡ p
    → (after abi deliver s).delivered ≡ s.delivered
      ⊎ (id : ℕ) × (after abi deliver s).delivered ≡ s.delivered ++ id ∷ []
        × (after abi deliver s).futures id ≢ pending
unfolding after
deliver-delivered abi s [] e = inl (ground arith)
deliver-delivered abi s ((id, r) ∷ p) e =
    inr (id, ground arith, ground (arith, ==_iff id id, settle_ne_pending r (s.futures id)))

after-delivered :
    (abi : Abi) (a : Action) (s : System)
    → (after abi a s).delivered ≡ s.delivered
      ⊎ (id : ℕ) × (after abi a s).delivered ≡ s.delivered ++ id ∷ []
        × (after abi a s).futures id ≢ pending
unfolding after
after-delivered abi deliver s = deliver-delivered abi s s.posted refl
after-delivered abi _ s = inl (ground arith)

run-Answered :
    (abi : Abi) (actions : List Action) (s : System)
    → Answered pending s.futures s.delivered
    → Answered pending (run abi actions s).futures (run abi actions s).delivered
unfolding run
run-Answered abi [] s h = h
run-Answered abi (a ∷ actions) s h = run-Answered abi actions (after abi a s) (
    Answered-added pending s.futures (after abi a s).futures s.delivered (after abi a s).delivered
      (after_ne_pending abi a s) (after-delivered abi a s) h)

-- The loop runs the callbacks that are posted.
abbrev deliveries : List (ℕ × Outcome Answer) → List Action
deliveries p = map (λ _. deliver) p

record IsRest (q : List Command) (n : ℕ) (s : System) : Type 0 where
  posted : s.posted ≡ []
  queue : s.queue ≡ q
  next : s.next ≡ n

deliver_once :
    (abi : Abi) (s : System) (id : ℕ) (r : Outcome Answer) (p : List (ℕ × Outcome Answer))
    → s.posted ≡ (id, r) ∷ p
    → ((after abi deliver s).posted ≡ p)
      × ((after abi deliver s).queue ≡ s.queue)
      × ((after abi deliver s).next ≡ s.next)
unfolding after
deliver_once abi s id r p e = ground arith

run-IsRest :
    (abi : Abi) (p : List (ℕ × Outcome Answer)) (q : List Command) (n : ℕ) (s : System)
    → s.posted ≡ p
    → s.queue ≡ q
    → s.next ≡ n
    → IsRest q n (run abi (deliveries p) s)
unfolding run
run-IsRest abi [] q n s e f g = record { posted = e; queue = f; next = g }
run-IsRest abi ((id, r) ∷ p) q n s e f g =
    let (posted, queue, next) = deliver_once abi s id r p e in
    run-IsRest abi p q n (after abi deliver s) posted (queue ∙ f) (next ∙ g)

-- The owner serves the commands that wait, and the loop runs what is posted.
abbrev pub served : Abi → List Reading → System → System
served abi rs s = let t = run abi (map serving rs) s in run abi (deliveries t.posted) t

-- In every state that a managed server gets to under any schedule, where its owner is in the loop of
-- the commands: when it has served them and the loop has run the callbacks, no resolve and no scrape
-- that was asked until then is pending, whatever C answered, if the clock gets to the deadline of each
-- resolve.
pub no_call_hangs :
    (abi : Abi) (actions : List Action) (managed : Bool) (service : Option Address)
    (host : World Host) (b : Bool) (n : ℕ) (q : List Command) (rs : List Reading)
    → IsServicing b n q (run abi actions (init managed service host))
    → Enough q rs
    → (id : ℕ) → id < n
    → (served abi rs (run abi actions (init managed service host))).futures id ≢ pending
unfolding line posted_ids queue_ids
no_call_hangs abi actions managed service host b n q rs i e id l =
    let s = run abi actions (init managed service host) in
    let t = run abi (map serving rs) s in
    let u = served abi rs s in
    let idle : IsServicing b n [] t = run-IsServicing abi b n q rs s e i in
    let rest : IsRest [] n u = run-IsRest abi t.posted [] n t refl idle.queue idle.next in
    let ordered : InOrder u =
      run-InOrder abi (deliveries t.posted) t
        (run-InOrder abi (map serving rs) s (commands_in_order abi actions managed service host)) in
    let d : u.delivered ≡ upto n =
      cc (rest.posted, rest.queue, rest.next, ordered, append-nil u.delivered) in
    let done : Answered pending u.futures u.delivered = run-Answered abi (deliveries t.posted) t (
      run-Answered abi (map serving rs) s
        (run-Answered abi actions (init managed service host) tt)) in
    Answered-upto pending u.futures n (subst (Answered pending u.futures) d done) id l
