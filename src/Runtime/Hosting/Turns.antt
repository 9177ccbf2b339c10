-- ===== src/Runtime/Hosting/Turns.antt =====
-- What every method of a turn keeps, `_resolve_blocking` keeps.
use nwep_py.Prelude.{ℕ, Bool, true, false, Option, none, some, List, [], ◌∷◌, ltb}
use nwep_py.Sys.{Abi}
use nwep_py.Sys.Exec.{Exec, World}
use nwep_py.Sys.Keeps.{Keeps, pure-Keeps, throw-Keeps, bind-Keeps, then-Keeps}
use nwep_py.Identity.{NodeId}
use nwep_py.Address.{Address}
use nwep_py.Server.Loop
use nwep_py.Dht
use nwep_py.Dht.{Record}
use nwep_py.Runtime.Hosting.{
  Host, on_server, on_dht, Readings, identity_not_found, or_wait, while_early, pump, or_lookup,
  resolve_blocking,
}

-- The property is kept by each method of the server and of the DHT that an owner calls, but the
-- announcement.
pub record Kept (abi : Abi) (P : World Host → Type 0) : Type 0 where
  pub server_tick : (now : ℕ) → Keeps P (on_server (Loop.tick abi now))
  pub server_timeout : (now : ℕ) → Keeps P (on_server (Loop.next_timeout abi now))
  pub fileno : Keeps P (on_server (Loop.fileno abi))
  pub dht_tick : (now : ℕ) → Keeps P (on_dht (Dht.tick abi now))
  pub dht_timeout : (now : ℕ) → Keeps P (on_dht (Dht.next_timeout abi now))
  pub metrics : Keeps P (on_dht (Dht.metrics abi))
  pub start_lookup :
      (target : NodeId) (now : ℕ) → Keeps P (on_dht (Dht.start_lookup abi target now))
  pub lookup_result : (target : NodeId) → Keeps P (on_dht (Dht.lookup_result abi target))

module _ (abi : Abi) (P : World Host → Type 0) (k : Kept abi P) where
  or_wait-Keeps :
      (r : Option Record) (now : ℕ) (rest : Exec Host (Option Address))
      → Keeps P rest
      → Keeps P (or_wait abi r now rest)
  or_wait-Keeps (some r) now rest j = pure-Keeps P (some r.address)
  or_wait-Keeps none now rest j = then-Keeps P _ _ k.fileno (then-Keeps P _ _ (k.dht_timeout now) j)

  while_early-Keeps :
      (early : Bool) (target : NodeId) (t : Readings) (rest : Exec Host (Option Address))
      → Keeps P rest
      → Keeps P (while_early abi early target t rest)
  while_early-Keeps false target t rest j = throw-Keeps P (Option Address) identity_not_found
  while_early-Keeps true target t rest j = then-Keeps P _ _ (k.server_tick t.now_ms) (
      then-Keeps P _ _ (k.dht_tick t.now_secs)
        (bind-Keeps P _ _ (k.lookup_result target) (λ r. or_wait-Keeps r t.now_secs rest j)))

  pump-Keeps :
      (deadline : ℕ) (target : NodeId) (turns : List Readings)
      → Keeps P (pump abi deadline target turns)
  unfolding pump
  pump-Keeps deadline target [] = λ w l. pure-Keeps P {A = Option Address} none w l
  pump-Keeps deadline target (t ∷ turns) =
      while_early-Keeps (ltb t.clock deadline) target t (pump abi deadline target turns)
        (pump-Keeps deadline target turns)

  or_lookup-Keeps :
      (r : Option Record) (target : NodeId) (timeout : ℕ) (t : Readings) (turns : List Readings)
      → Keeps P (or_lookup abi r target timeout t turns)
  or_lookup-Keeps (some r) target timeout t turns = pure-Keeps P (some r.address)
  or_lookup-Keeps none target timeout t turns =
      then-Keeps P _ _ (k.start_lookup target t.now_secs) (pump-Keeps _ target turns)

  pub resolve_blocking-Keeps :
      (target : NodeId) (timeout : ℕ) (t : Readings) (turns : List Readings)
      → Keeps P (resolve_blocking abi target timeout t turns)
  unfolding resolve_blocking
  resolve_blocking-Keeps target timeout t turns =
      bind-Keeps P _ _ (k.lookup_result target) (λ r. or_lookup-Keeps r target timeout t turns)
