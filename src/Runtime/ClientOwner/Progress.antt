-- ===== src/Runtime/ClientOwner/Progress.antt =====
-- That the owner of a managed client of nwep/runtime.py comes to its end.
use mathlib.Core.Path.{subst}
use nwep_py.Prelude.{ℕ, zero, suc, true, Option, List, [], ◌∷◌, length, ◌≡◌, sym, refl, arith}
use nwep_py.Sys.{Bytes, Abi}
use nwep_py.Text.{Text}
use nwep_py.Message.{Headers}
use nwep_py.Client.Driven.{MethodArg}
use nwep_py.Runtime.ClientOwner.{
  Command, send_command, stop_command, Phase, running, draining, ended, System, Action, serve,
  drain, after,
}
use nwep_py.Runtime.ClientOwner.Shutdown.{has_stop}

-- The owner's next turn on a command.
abbrev owner_turn : Phase → Action
owner_turn running = serve
owner_turn draining = drain
owner_turn ended = drain

-- A number of turns of the owner.
abbrev pub turns : Abi → ℕ → System → System
turns abi zero s = s
turns abi (suc n) s = turns abi n (after abi (owner_turn s.phase) s)

drained :
    (abi : Abi) (s : System) → s.phase ≡ draining → s.queue ≡ [] → (after abi drain s).phase ≡ ended
unfolding after
drained abi s f q = ground arith

drain_next :
    (abi : Abi) (s : System) (c : Command) (q : List Command)
    → s.phase ≡ draining
    → s.queue ≡ c ∷ q
    → (after abi drain s).phase ≡ draining × (after abi drain s).queue ≡ q
unfolding after
drain_next abi s (send_command id m p b h) q f e = ground arith
drain_next abi s stop_command q f e = ground arith

serve_stop :
    (abi : Abi) (s : System) (q : List Command)
    → s.phase ≡ running
    → s.queue ≡ stop_command ∷ q
    → (after abi serve s).phase ≡ draining × (after abi serve s).queue ≡ q
unfolding after
serve_stop abi s q f e = ground arith

serve_next :
    (abi : Abi) (s : System) (id : ℕ) (m : MethodArg) (p : Text) (b : Bytes) (h : Option Headers)
    (q : List Command)
    → s.phase ≡ running
    → s.queue ≡ send_command id m p b h ∷ q
    → (after abi serve s).phase ≡ running × (after abi serve s).queue ≡ q
unfolding after
serve_next abi s id m p b h q f e = ground arith

turn_at :
    (abi : Abi) (n : ℕ) (s : System) (f : Phase)
    → s.phase ≡ f
    → (turns abi n (after abi (owner_turn f) s)).phase ≡ ended
    → (turns abi (suc n) s).phase ≡ ended
turn_at abi n s f e h =
    subst (λ g. (turns abi n (after abi (owner_turn g) s)).phase ≡ ended) (sym e) h

drain_turns :
    (abi : Abi) (q : List Command) (s : System)
    → s.phase ≡ draining
    → s.queue ≡ q
    → (turns abi (suc (length q)) s).phase ≡ ended
drain_turns abi [] s f e = turn_at abi 0 s draining f (drained abi s f e)
drain_turns abi (c ∷ q) s f e =
    let (g, k) = drain_next abi s c q f e in
    turn_at abi (suc (length q)) s draining f (drain_turns abi q (after abi drain s) g k)

serve_turns :
    (abi : Abi) (q : List Command) (s : System)
    → has_stop q ≡ true
    → s.phase ≡ running
    → s.queue ≡ q
    → (turns abi (suc (length q)) s).phase ≡ ended
unfolding has_stop
serve_turns abi [] s h f e = ground arith
serve_turns abi (stop_command ∷ q) s h f e =
    let (g, k) = serve_stop abi s q f e in
    turn_at abi (suc (length q)) s running f (drain_turns abi q (after abi serve s) g k)
serve_turns abi (send_command id m p b hs ∷ q) s h f e =
    let (g, k) = serve_next abi s id m p b hs q f e in
    turn_at abi (suc (length q)) s running f (serve_turns abi q (after abi serve s) h g k)

-- An owner in its loop with a stop in its queue is gone after one turn for each command and one more,
-- whatever C answers.
pub owner_ends :
    (abi : Abi) (s : System)
    → s.phase ≡ running
    → has_stop s.queue ≡ true
    → (turns abi (suc (length s.queue)) s).phase ≡ ended
owner_ends abi s f h = serve_turns abi s.queue s h f refl
