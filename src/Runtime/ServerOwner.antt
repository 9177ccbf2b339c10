-- ===== src/Runtime/ServerOwner.antt =====
-- `RunningServer` and `_serve` of nwep/runtime.py: the asyncio side, the owner thread with its server
-- and DHT, and the callbacks that the owner posts to the loop.
-- What the clocks read is given with each action. `_wait_readable` changes nothing and may take any
-- time, so the wait that `_cap` bounds is not part of the state.
pub mod Closing
pub mod Announcing
pub mod Spacing
pub mod Order
pub mod Faults
pub mod Progress
pub mod Answers
use nwep_py.Prelude.{
  ℕ, zero, suc, ◌+◌, ◌==◌, Bool, true, false, Option, none, some, List, [], ◌∷◌, ◌++◌, neg, leb,
  if◌then◌else◌,
}
use nwep_py.Errors.{Exc, Outcome, ok, raise, nwep, from_code}
use nwep_py.Sys.{Abi, DhtCounters}
use nwep_py.Sys.Exec.{Exec, World, pure, ◌>>=◌, ◌>>◌}
use nwep_py.Identity.{NodeId}
use nwep_py.Address.{Address}
use nwep_py.Server.Loop
use nwep_py.Dht
use nwep_py.Runtime.Hosting.{Host, on_server, on_dht, Readings, resolve_blocking}

-- `_Resolve` and `_DhtMetrics`, their futures by number.
pub data Command : Type 0 where
  resolve_command : ℕ → NodeId → ℕ → Command
  metrics_command : ℕ → Command

-- What a future is resolved with.
pub data Answer : Type 0 where
  at_address : Address → Answer
  counted : DhtCounters → Answer

pub data Future : Type 0 where
  pending cancelled : Future
  settled : Outcome Answer → Future

-- The owner thread: before the test of its `while`, in the loop of `_service_server_commands`, or
-- gone. The number is `last_announce`.
pub data Phase : Type 0 where
  testing servicing : ℕ → Phase
  ended : Phase

-- `service` is `builder._announce`; `managed` says whether the server has its queue of commands.
pub record System : Type 0 where
  pub managed : Bool
  pub service : Option Address
  pub stop : Bool
  pub queue : List Command
  pub phase : Phase
  pub host : World Host
  pub posted : List (ℕ × Outcome Answer)
  pub futures : ℕ → Future
  pub next : ℕ
  pub delivered : List ℕ

-- The system when `_serve` returns.
abbrev pub init : Bool → Option Address → World Host → System
init managed service host = record {
  managed = managed;
  service = service;
  stop = false;
  queue = [];
  phase = testing 0;
  host = host;
  posted = [];
  futures = λ _. pending;
  next = 0;
  delivered = [];
}

-- `resolve`, `dht_metrics` and `shutdown` up to their `await`, the cancellation of an awaiting
-- caller, the next callback of the loop, and the owner: the test of its loop, one command, and what
-- follows the commands. The owner's actions have the readings that they take: at the start of a
-- resolve and in its turns; for the two ticks and the timeout of a turn.
pub data Action : Type 0 where
  call_resolve : NodeId → ℕ → Action
  call_metrics call_shutdown deliver look : Action
  cancel : ℕ → Action
  serve : Readings → List Readings → Action
  work : Readings → ℕ → Action

abbrev pub update : (ℕ → Future) → ℕ → Future → ℕ → Future
update futures id f j = if j == id then f else futures j

abbrev settle : Outcome Answer → Future → Future
settle r pending = settled r
settle r (settled q) = settled q
settle r cancelled = cancelled

abbrev cancel_future : Future → Future
cancel_future pending = cancelled
cancel_future f = f

-- A request on a server without a DHT raises ConfigMissing and changes nothing.
abbrev enqueue : Bool → Command → System → Option System
enqueue false c s = some s
enqueue true c s = some (record s { queue = s.queue ++ c ∷ []; next = s.next + 1 })

abbrev do_deliver : List (ℕ × Outcome Answer) → System → Option System
do_deliver [] s = none
do_deliver ((id, r) ∷ rest) s = some (record s {
  posted = rest;
  futures = update s.futures id (settle r (s.futures id));
  delivered = s.delivered ++ id ∷ [];
})

-- None: the readings ended before the resolve did.
abbrev resolved : Outcome (Option Address) → Option (Outcome Answer)
resolved (ok none) = none
resolved (ok (some a)) = some (ok (at_address a))
resolved (raise e) = some (raise e)

abbrev metered : Outcome DhtCounters → Outcome Answer
metered (ok m) = ok (counted m)
metered (raise e) = raise e

abbrev post : ℕ → Option (Outcome Answer) → World Host → List Command → System → Option System
post id none host rest s = none
post id (some r) host rest s =
    some (record s { queue = rest; host = host; posted = s.posted ++ (id, r) ∷ [] })

-- The announcement of a turn; the result is the next `last_announce`.
abbrev announce_due : Abi → Bool → Address → ℕ → ℕ → Exec Host ℕ
announce_due abi true service now last = do on_dht (Dht.announce abi service now); pure now
announce_due abi false service now last = pure last

abbrev announce_if : Abi → Option Address → ℕ → ℕ → Exec Host ℕ
announce_if abi none now last = pure last
announce_if abi (some service) now last = announce_due abi (leb (last + 60) now) service now last

-- `if dht is not None` of a turn.
abbrev tick_dht : Abi → Bool → Option Address → ℕ → ℕ → Exec Host ℕ
tick_dht abi false service now last = pure last
tick_dht abi true service now last = do on_dht (Dht.tick abi now); announce_if abi service now last

-- The rest of a turn, behind the commands.
unfoldable pub turn : Abi → Bool → Option Address → Readings → ℕ → ℕ → Exec Host ℕ
unfolding ◌>>=◌ ◌>>◌ pure on_server on_dht Loop.tick Loop.next_timeout Dht.tick Dht.announce
turn abi managed service t later_ms last = do
  on_server (Loop.tick abi t.now_ms)
  announced ← tick_dht abi managed service t.now_secs last
  on_server (Loop.next_timeout abi later_ms)
  pure announced

abbrev close_dht : Abi → Bool → Exec Host (Unit {0})
close_dht abi true = on_dht (Dht.close abi)
close_dht abi false = pure tt

-- The `finally` of the owner.
unfoldable pub finish : Abi → Bool → Exec Host (Unit {0})
unfolding ◌>>◌ ◌>>=◌ pure on_server on_dht Loop.close Dht.close
finish abi managed = do close_dht abi managed; on_server (Loop.close abi)

abbrev end : Abi → World Host → System → Option System
end abi host s = some (record s { host = (finish abi s.managed host).1; phase = ended })

abbrev do_look : Abi → Bool → Phase → System → Option System
do_look abi true (testing last) s = end abi s.host s
do_look abi false (testing last) s = some (record s { phase = servicing last })
do_look abi stop _ s = none

abbrev do_serve : Abi → Readings → List Readings → Phase → List Command → System → Option System
do_serve abi t turns (servicing last) (resolve_command id target timeout ∷ rest) s =
    let (r, host) = resolve_blocking abi target timeout t turns s.host in
    post id (resolved r) host rest s
do_serve abi t turns (servicing last) (metrics_command id ∷ rest) s =
    let (r, host) = on_dht (Dht.metrics abi) s.host in post id (some (metered r)) host rest s
do_serve abi t turns _ _ s = none

-- A turn that raises leaves the loop, and nothing catches it.
abbrev after_turn : Abi → Outcome ℕ → World Host → System → Option System
after_turn abi (ok last) host s = some (record s { host = host; phase = testing last })
after_turn abi (raise e) host s = end abi host s

abbrev do_work : Abi → Readings → ℕ → Phase → List Command → System → Option System
do_work abi t later_ms (servicing last) [] s =
    let (r, host) = turn abi s.managed s.service t later_ms last s.host in after_turn abi r host s
do_work abi t later_ms _ _ s = none

unfoldable pub step : Abi → Action → System → Option System
unfolding on_dht Dht.metrics
step abi (call_resolve target timeout) s =
    enqueue s.managed (resolve_command s.next target timeout) s
step abi call_metrics s = enqueue s.managed (metrics_command s.next) s
step abi call_shutdown s = some (record s { stop = true })
step abi (cancel id) s =
    some (record s { futures = update s.futures id (cancel_future (s.futures id)) })
step abi deliver s = do_deliver s.posted s
step abi look s = do_look abi s.stop s.phase s
step abi (serve t turns) s = do_serve abi t turns s.phase s.queue s
step abi (work t later_ms) s = do_work abi t later_ms s.phase s.queue s

abbrev or_stay : System → Option System → System
or_stay s none = s
or_stay s (some t) = t

unfoldable pub after : Abi → Action → System → System
unfolding step
after abi a s = or_stay s (step abi a s)

-- A schedule; an action that cannot happen there is passed over.
unfoldable pub run : Abi → List Action → System → System
unfolding after
run abi [] s = s
run abi (a ∷ actions) s = run abi actions (after abi a s)
