-- ===== src/Examples/Driven.antt =====
-- `DrivenServer` of examples/_common.py: a server that is ticked on a thread, and `stop`, which runs on
-- another. `on_tick` is what the program gives for it.
pub mod Stopping
use nwep_py.Prelude.{ℕ, Bool, true, false, Option, none, some, List, [], ◌∷◌}
use nwep_py.Errors.{Outcome, ok, raise}
use nwep_py.Sys.{Bytes, Abi}
use nwep_py.Sys.Exec.{Exec, World, ◌>>=◌}
use nwep_py.Server.Loop
use nwep_py.Server.Loop.{Server}

-- The thread: at the test of its `while`, before the tick, before `on_tick`, or gone.
pub data Thread : Type 0 where
  testing ticking pumping gone : Thread

-- The caller of `stop`: before it, before the join, behind it, or returned.
pub data Caller : Type 0 where
  serving joining joined stopped : Caller

pub record Driven : Type 0 where
  pub node_id : Bytes
  pub port : ℕ
  pub server : World Server
  pub stop : Bool
  pub thread : Thread
  pub caller : Caller

abbrev pub start : Bytes → ℕ → Exec Server Driven
start id port w =
    let d : Driven = record {
      node_id = id;
      port = port;
      server = w;
      stop = false;
      thread = testing;
      caller = serving;
    } in
    (ok d, w)

-- `__init__`
unfoldable pub create : Abi → Exec Server Driven
unfolding ◌>>=◌ Loop.node_id Loop.local_port
create abi = do id ← Loop.node_id abi; port ← Loop.local_port abi; start id port

-- The thread's steps, with what `now_ms()` reads, and those of `stop`. A join ends because the thread is
-- gone, or after three seconds.
pub data Action : Type 0 where
  look pump set_stop join time_out close : Action
  tick : ℕ → Action

abbrev pub do_look : Bool → Thread → Driven → Option Driven
do_look true testing d = some (record d { thread = gone })
do_look false testing d = some (record d { thread = ticking })
do_look stop _ d = none

-- An exception ends the thread.
abbrev pub next : Thread → Outcome (Unit {0}) → Thread
next t (ok _) = t
next t (raise e) = gone

abbrev pub do_tick : Abi → ℕ → Thread → Driven → Option Driven
do_tick abi now ticking d =
    let (r, w) = Loop.tick abi now d.server in
    some (record d { server = w; thread = next pumping r })
do_tick abi now _ d = none

abbrev pub do_pump : Exec Server (Unit {0}) → Thread → Driven → Option Driven
do_pump on_tick pumping d =
    let (r, w) = on_tick d.server in some (record d { server = w; thread = next testing r })
do_pump on_tick _ d = none

abbrev do_stop : Caller → Driven → Option Driven
do_stop serving d = some (record d { stop = true; caller = joining })
do_stop _ d = none

abbrev pub do_join : Thread → Caller → Driven → Option Driven
do_join gone joining d = some (record d { caller = joined })
do_join _ _ d = none

abbrev do_time_out : Caller → Driven → Option Driven
do_time_out joining d = some (record d { caller = joined })
do_time_out _ d = none

abbrev pub do_close : Abi → Caller → Driven → Option Driven
do_close abi joined d = some (record d { server = (Loop.close abi d.server).1; caller = stopped })
do_close abi _ d = none

unfoldable pub step : Abi → Exec Server (Unit {0}) → Action → Driven → Option Driven
unfolding Loop.tick Loop.close
step abi on_tick look d = do_look d.stop d.thread d
step abi on_tick (tick now) d = do_tick abi now d.thread d
step abi on_tick pump d = do_pump on_tick d.thread d
step abi on_tick set_stop d = do_stop d.caller d
step abi on_tick join d = do_join d.thread d.caller d
step abi on_tick time_out d = do_time_out d.caller d
step abi on_tick close d = do_close abi d.caller d

abbrev pub or_stay : Driven → Option Driven → Driven
or_stay d none = d
or_stay d (some e) = e

unfoldable pub after : Abi → Exec Server (Unit {0}) → Action → Driven → Driven
unfolding step
after abi on_tick a d = or_stay d (step abi on_tick a d)

-- A schedule; an action that cannot happen there is passed over.
unfoldable pub run : Abi → Exec Server (Unit {0}) → List Action → Driven → Driven
unfolding after
run abi on_tick [] d = d
run abi on_tick (a ∷ actions) d = run abi on_tick actions (after abi on_tick a d)
