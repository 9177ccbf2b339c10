-- ===== src/Examples/Driven/Stopping.antt =====
-- `DrivenServer.stop` frees the server behind its thread, unless the join gives up.
use nwep_py.Prelude.{ℕ, Bool, true, false, all, List, [], ◌∷◌, ◌≡◌, refl, ==_iff, arith}
use nwep_py.Sys.{Ptr, Bytes, Abi}
use nwep_py.Sys.Exec.{Exec, World}
use nwep_py.Sys.Keeps.{Keeps}
use nwep_py.Sys.Triple.{Ends, Triple, Keeps-Triple, bind-Triple}
use nwep_py.Sys.Handles.{server_handle, freed, use_after_free}
use nwep_py.Server.Loop
use nwep_py.Server.Loop.{Server}
use nwep_py.Examples.Driven.{
  Thread, testing, ticking, pumping, gone, Caller, serving, joining, joined, stopped, Driven, start,
  create, Action, look, pump, set_stop, join, time_out, close, tick, or_stay, after, run, do_look,
  do_tick, do_pump, do_join, do_close, do_stop,
}

-- The server is open and was not misused.
pub record IsOpen (h : Ptr) (w : World Server) : Type 0 where
  pub handle : w.self.handle ≡ h
  pub still : w.self.closed ≡ false
  pub alive : freed (server_handle h) w.calls ≡ false
  pub sound : use_after_free (server_handle h) w.calls ≡ false

-- It was freed, and not touched after that.
pub record IsFreed (h : Ptr) (w : World Server) : Type 0 where
  pub dead : freed (server_handle h) w.calls ≡ true
  pub sound : use_after_free (server_handle h) w.calls ≡ false

-- By where the caller of `stop` is: behind the join the thread is gone.
abbrev pub Stage : Ptr → Caller → Thread → World Server → Type 0
Stage h stopped t w = IsFreed h w × (t ≡ gone)
Stage h joined t w = IsOpen h w × (t ≡ gone)
Stage h _ t w = IsOpen h w

abbrev pub At : Ptr → Driven → Type 0
At h d = Stage h d.caller d.thread d.server

abbrev pub waits : Action → Bool
waits time_out = false
waits _ = true

module _ (abi : Abi) (h : Ptr) where
  tick-IsOpen : (now : ℕ) → Keeps (IsOpen h) (Loop.tick abi now)
  unfolding Loop.tick freed use_after_free
  tick-IsOpen now w o = ground arith

  node_id-IsOpen : Keeps (IsOpen h) (Loop.node_id abi)
  unfolding Loop.node_id freed use_after_free
  node_id-IsOpen w o = ground arith

  local_port-IsOpen : Keeps (IsOpen h) (Loop.local_port abi)
  unfolding Loop.local_port freed use_after_free
  local_port-IsOpen w o = ground arith

  close-IsFreed : (w : World Server) → IsOpen h w → IsFreed h (Loop.close abi w).1
  unfolding Loop.close freed use_after_free
  close-IsFreed w o = ground (arith, ==_iff h h)

  abbrev driven : Driven → Bool → Thread → Caller → World Server → Driven
  driven d stop t c w = record d { server = w; stop = stop; thread = t; caller = c }

  look_At :
      (d : Driven) (stop : Bool) (t : Thread) (c : Caller) (w : World Server)
      → Stage h c t w
      → At h (or_stay (driven d stop t c w) (do_look stop t (driven d stop t c w)))
  look_At d true testing stopped w p = ground arith
  look_At d _ _ _ w p = ground arith

  -- The thread steps only while the server is open.
  tick_At :
      (now : ℕ) (d : Driven) (stop : Bool) (t : Thread) (c : Caller) (w : World Server)
      → Stage h c t w
      → At h (or_stay (driven d stop t c w) (do_tick abi now t (driven d stop t c w)))
  tick_At now d stop ticking stopped w p = cc (p.1)
  tick_At now d stop ticking joined w p = cc (p.1)
  tick_At now d stop ticking serving w p = tick-IsOpen now w p
  tick_At now d stop ticking joining w p = tick-IsOpen now w p
  tick_At now d stop _ c w p = p

  join_At :
      (d : Driven) (stop : Bool) (t : Thread) (c : Caller) (w : World Server)
      → Stage h c t w
      → At h (or_stay (driven d stop t c w) (do_join t c (driven d stop t c w)))
  join_At d stop gone joining w p = (p, refl)
  join_At d stop _ _ w p = p

  close_At :
      (d : Driven) (stop : Bool) (t : Thread) (c : Caller) (w : World Server)
      → Stage h c t w
      → At h (or_stay (driven d stop t c w) (do_close abi c (driven d stop t c w)))
  close_At d stop t joined w p = (close-IsFreed w p.0, p.1)
  close_At d stop t _ w p = p

  stop_At :
      (d : Driven) (stop : Bool) (t : Thread) (c : Caller) (w : World Server)
      → Stage h c t w
      → At h (or_stay (driven d stop t c w) (do_stop c (driven d stop t c w)))
  stop_At d stop t serving w p = p
  stop_At d stop t _ w p = p

  module _ (on_tick : Exec Server (Unit {0})) (keeps : Keeps (IsOpen h) on_tick) where
    pump_At :
        (d : Driven) (stop : Bool) (t : Thread) (c : Caller) (w : World Server)
        → Stage h c t w
        → At h (or_stay (driven d stop t c w) (do_pump on_tick t (driven d stop t c w)))
    pump_At d stop pumping stopped w p = cc (p.1)
    pump_At d stop pumping joined w p = cc (p.1)
    pump_At d stop pumping serving w p = keeps w p
    pump_At d stop pumping joining w p = keeps w p
    pump_At d stop _ c w p = p

    after-At : (a : Action) (d : Driven) → waits a ≡ true → At h d → At h (after abi on_tick a d)
    unfolding after
    after-At look d e p = look_At d d.stop d.thread d.caller d.server p
    after-At (tick now) d e p = tick_At now d d.stop d.thread d.caller d.server p
    after-At pump d e p = pump_At d d.stop d.thread d.caller d.server p
    after-At set_stop d e p = stop_At d d.stop d.thread d.caller d.server p
    after-At join d e p = join_At d d.stop d.thread d.caller d.server p
    after-At close d e p = close_At d d.stop d.thread d.caller d.server p
    after-At time_out d e p = cc

    run-At :
        (actions : List Action) (d : Driven)
        → all waits actions ≡ true
        → At h d
        → At h (run abi on_tick actions d)
    unfolding run
    run-At [] d e p = p
    run-At (a ∷ actions) d e p =
        run-At actions (after abi on_tick a d) (ground arith) (after-At a d (ground arith) p)

    start-At :
        (actions : List Action) (id : Bytes) (port : ℕ)
        → all waits actions ≡ true
        → Triple (IsOpen h) (start id port) (λ d _. At h (run abi on_tick actions d)) (IsOpen h)
    start-At actions id port e w o = run-At actions _ e o

    -- A driven server made of an open one is made, or the making raises and leaves the server open. If it
    -- is made and `on_tick` leaves it open and unharmed, under every schedule in which no join gives up:
    -- until the join is over the server is open; behind it the thread is gone; and once `stop` has
    -- returned the server has been freed. No call touches it after that.
    pub driven-At :
        (actions : List Action) (w : World Server)
        → all waits actions ≡ true
        → IsOpen h w
        → Ends
            (λ d _. At h (run abi on_tick actions d))
            (IsOpen h)
            (create abi w).0
            (create abi w).1
    unfolding create
    driven-At actions w e o =
        bind-Triple (IsOpen h) (IsOpen h) (λ _. IsOpen h) (λ d _. At h (run abi on_tick actions d))
          (Loop.node_id abi) _
          (Keeps-Triple (IsOpen h) (IsOpen h) (Loop.node_id abi) (λ _ p. p) node_id-IsOpen)
          (λ id.
            bind-Triple (IsOpen h) (IsOpen h) (λ _. IsOpen h)
              (λ d _. At h (run abi on_tick actions d)) (Loop.local_port abi) (start id)
              (Keeps-Triple (IsOpen h) (IsOpen h) (Loop.local_port abi) (λ _ p. p)
                local_port-IsOpen)
              (λ port. start-At actions id port e))
          w o

  misused :
      (now : ℕ) (w : World Server)
      → IsOpen h w
      → use_after_free (server_handle h) (Loop.tick abi now (Loop.close abi w).1).1.calls ≡ true
  unfolding Loop.tick Loop.close freed use_after_free
  misused now w o = ground (arith, ==_iff h h)

  -- A join that gives up while the thread is before its tick: `stop` frees the server, and the thread
  -- ticks what was freed.
  pub time_out_misuses :
      (on_tick : Exec Server (Unit {0})) (now : ℕ) (d : Driven) (stop : Bool) (w : World Server)
      → IsOpen h w
      → use_after_free
          (server_handle h)
          (run abi on_tick
            (time_out ∷ close ∷ tick now ∷ [])
            (driven d stop ticking joining w)).server.calls
        ≡ true
  unfolding run
  time_out_misuses on_tick now d stop w o = misused now w o
