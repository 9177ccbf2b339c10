-- ===== src/Runtime/ClientOwner.antt =====
-- `AsyncClient` and `_connect_async` of nwep/runtime.py: the asyncio side, the owner thread, and the
-- callbacks that the owner posts to the loop. The connection is made; the driven client runs as
-- `Client.Driven` says.
pub mod Order
pub mod Shutdown
pub mod Progress
pub mod Faults
use nwep_py.Prelude.{
  ℕ, zero, suc, ◌+◌, ◌==◌, Bool, true, false, Option, none, some, List, [], ◌∷◌, ◌++◌, neg,
  if◌then◌else◌,
}
use nwep_py.Errors.{Exc, Outcome, ok, raise, nwep, from_code}
use nwep_py.Sys.{Bytes, Abi, Call}
use nwep_py.Sys.Exec.{World}
use nwep_py.Text.{Text}
use nwep_py.Message.{Headers}
use nwep_py.Client.Response.{Response}
use nwep_py.Client.Driven.{Client, MethodArg, send, tick, close}

-- `_Send`, its future by number, and `_STOP`.
pub data Command : Type 0 where
  send_command : ℕ → MethodArg → Text → Bytes → Option Headers → Command
  stop_command : Command

pub data Future : Type 0 where
  pending cancelled : Future
  settled : Outcome Response → Future

-- The owner thread: in its loop, in the drain of its `finally`, or gone.
pub data Phase : Type 0 where
  running draining ended : Phase

pub record System : Type 0 where
  pub closed : Bool
  pub queue : List Command
  pub phase : Phase
  pub client : World Client
  pub posted : List (ℕ × Outcome Response)
  pub futures : ℕ → Future
  pub next : ℕ
  pub delivered : List ℕ

-- The system when `_connect_async` returns.
abbrev pub init : World Client → System
init client = record {
  closed = false;
  queue = [];
  phase = running;
  client = client;
  posted = [];
  futures = λ _. pending;
  next = 0;
  delivered = [];
}

-- `send` and `aclose` up to their `await`, the cancellation of an awaiting caller, the next callback
-- of the loop, and one turn of the owner; `idle` is a `get` that timed out at the given time.
pub data Action : Type 0 where
  call_send : MethodArg → Text → Bytes → Option Headers → Action
  call_aclose deliver serve drain : Action
  cancel : ℕ → Action
  idle : ℕ → Action

abbrev pub update : (ℕ → Future) → ℕ → Future → ℕ → Future
update futures id f j = if j == id then f else futures j

-- `NetworkClosed("client is closed")`
abbrev pub network_closed : Exc
network_closed = nwep (from_code (neg 203))

-- `_resolve` and `_reject`: a cancelled future is left alone, and setting a done one would raise.
abbrev settle : Outcome Response → Future → Future
settle r pending = settled r
settle r (settled q) = settled q
settle r cancelled = cancelled

abbrev cancel_future : Future → Future
cancel_future pending = cancelled
cancel_future f = f

-- An action gives the next state, or none where it cannot happen. A send on a closed client raises
-- and changes nothing; a second `aclose` returns at once.
abbrev do_send : MethodArg → Text → Bytes → Option Headers → Bool → System → Option System
do_send method path body headers true s = some s
do_send method path body headers false s = some (record s {
  queue = s.queue ++ send_command s.next method path body headers ∷ [];
  next = s.next + 1;
})

abbrev do_aclose : Bool → System → Option System
do_aclose true s = some s
do_aclose false s = some (record s { closed = true; queue = s.queue ++ stop_command ∷ [] })

abbrev do_deliver : List (ℕ × Outcome Response) → System → Option System
do_deliver [] s = none
do_deliver ((id, r) ∷ rest) s = some (record s {
  posted = rest;
  futures = update s.futures id (settle r (s.futures id));
  delivered = s.delivered ++ id ∷ [];
})

-- The body of the owner's `while True`, on a command.
abbrev do_serve : Abi → Phase → List Command → System → Option System
do_serve abi running (stop_command ∷ rest) s = some (record s { queue = rest; phase = draining })
do_serve abi running (send_command id method path body headers ∷ rest) s =
    let (r, client) = send abi method path body headers s.client in
    some (record s { queue = rest; client = client; posted = s.posted ++ (id, r) ∷ [] })
do_serve abi _ _ s = none

-- What a raising `tick` leads to: it leaves the loop, and nothing catches it.
abbrev after_tick : Outcome (Unit {0}) → Phase
after_tick (ok _) = running
after_tick (raise e) = draining

abbrev do_idle : Abi → ℕ → Phase → List Command → System → Option System
do_idle abi now running [] s =
    let (r, client) = tick abi now s.client in
    some (record s { client = client; phase = after_tick r })
do_idle abi now _ _ s = none

-- `_drain_pending`, and the close behind it.
abbrev do_drain : Abi → Phase → List Command → System → Option System
do_drain abi draining [] s =
    let (r, client) = close abi s.client in some (record s { client = client; phase = ended })
do_drain abi draining (stop_command ∷ rest) s = some (record s { queue = rest })
do_drain abi draining (send_command id method path body headers ∷ rest) s =
    some (record s { queue = rest; posted = s.posted ++ (id, raise network_closed) ∷ [] })
do_drain abi _ _ s = none

unfoldable pub step : Abi → Action → System → Option System
step abi (call_send method path body headers) s = do_send method path body headers s.closed s
step abi call_aclose s = do_aclose s.closed s
step abi (cancel id) s =
    some (record s { futures = update s.futures id (cancel_future (s.futures id)) })
step abi deliver s = do_deliver s.posted s
step abi serve s = do_serve abi s.phase s.queue s
step abi (idle now) s = do_idle abi now s.phase s.queue s
step abi drain s = do_drain abi s.phase s.queue s

-- A schedule; an action that cannot happen there is passed over.
abbrev or_stay : System → Option System → System
or_stay s none = s
or_stay s (some t) = t

unfoldable pub after : Abi → Action → System → System
unfolding step
after abi a s = or_stay s (step abi a s)

unfoldable pub run : Abi → List Action → System → System
unfolding after
run abi [] s = s
run abi (a ∷ actions) s = run abi actions (after abi a s)
