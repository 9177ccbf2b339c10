-- ===== src/Runtime/StreamOwner/Ending.antt =====
-- The end of a managed stream: the connection is closed, and the queue stays as it is.
use nwep_py.Prelude.{Bool, true, false, not, ◌||◌, ◌&&◌, List, [], ◌∷◌, ◌≡◌, refl, ◌∙◌, arith}
use nwep_py.Sys.{Bytes, Abi}
use nwep_py.Sys.Exec.{World}
use nwep_py.Client.Stream.{Stream}
use nwep_py.Runtime.StreamOwner.{
  init, Phase, reading, gone, System, Action, turn, recv, recv_cancelled, aclose, step, run,
}

abbrev is_gone : Phase → Bool
is_gone gone = true
is_gone _ = false

-- An owner that is gone has closed the stream and its client.
abbrev IsShut : System → Type 0
IsShut s = not (is_gone s.phase) || s.world.self.closed && s.world.self.owner.closed ≡ true

step-IsShut : (abi : Abi) (a : Action) (s : System) → IsShut s → IsShut (step abi a s)
unfolding step
step-IsShut abi turn s h = ground arith
step-IsShut abi recv s h = ground arith
step-IsShut abi recv_cancelled s h = ground arith
step-IsShut abi aclose s h = ground arith

run-IsShut :
    (abi : Abi) (actions : List Action) (s : System) → IsShut s → IsShut (run abi actions s)
unfolding run
run-IsShut abi [] s h = h
run-IsShut abi (a ∷ actions) s h = run-IsShut abi actions (step abi a s) (step-IsShut abi a s h)

-- However the owner of a stream comes to its end, by the body's end, by a fault or by `aclose`, the
-- stream and the connection under it are closed.
pub gone_is_shut :
    (abi : Abi) (actions : List Action) (w : World Stream)
    → (run abi actions (init w)).phase ≡ gone
    → ((run abi actions (init w)).world.self.closed ≡ true)
      × ((run abi actions (init w)).world.self.owner.closed ≡ true)
gone_is_shut abi actions w g = ground (arith, g, run-IsShut abi actions (init w) refl)

-- The first turn of the owner that begins behind `aclose`, in its loop, is its last.
pub aclose_ends :
    (abi : Abi) (s : System) (peer : Bytes)
    → s.phase ≡ reading peer
    → (step abi turn (step abi aclose s)).phase ≡ gone
unfolding step
aclose_ends abi s peer f = ground arith

step_drained :
    (abi : Abi) (a : Action) (s : System)
    → s.phase ≡ gone
    → s.items ≡ []
    → ((step abi a s).phase ≡ gone) × ((step abi a s).items ≡ []) × ((step abi a s).got ≡ s.got)
unfolding step
step_drained abi turn s g e = ground arith
step_drained abi recv s g e = ground arith
step_drained abi recv_cancelled s g e = ground arith
step_drained abi aclose s g e = ground arith

-- When the owner is gone and its queue is empty, as after the end was taken, no `recv` gets an item
-- any more, under any schedule: a second `recv` behind the end waits for ever.
pub drained_for_ever :
    (abi : Abi) (actions : List Action) (s : System)
    → s.phase ≡ gone
    → s.items ≡ []
    → (run abi actions s).got ≡ s.got
unfolding run
drained_for_ever abi [] s g e = refl
drained_for_ever abi (a ∷ actions) s g e =
    let (g', e', k) = step_drained abi a s g e in
    drained_for_ever abi actions (step abi a s) g' e' ∙ k
