-- ===== src/Runtime/Hosting/Resolving.antt =====
-- How `_resolve_blocking` ends.
use nwep_py.Prelude.{
  ℕ, ◌+◌, Bool, true, false, Option, none, some, List, [], ◌∷◌, ◌≡◌, ◌⊎◌, inl, inr, ltb, refl,
  arith,
}
use nwep_py.Errors.{Exc, Outcome, ok, raise}
use nwep_py.Sys.{Abi}
use nwep_py.Sys.Exec.{Exec, World, pure, throw, ◌>>=◌, ◌>>◌}
use nwep_py.Identity.{NodeId}
use nwep_py.Address.{Address}
use nwep_py.Server.Loop
use nwep_py.Dht
use nwep_py.Dht.{Record}
use nwep_py.Runtime.Hosting.{
  Host, on_server, on_dht, Readings, identity_not_found, or_wait, while_early, pump, or_lookup,
  resolve_blocking,
}
use nwep_py.Runtime.Hosting.Lookup.{passes}
use nwep_py.Runtime.Hosting.Asking.{
  Until, Leads, then-Leads, bind-Leads, hits, Failed, Searching, Hit, Looked, server_tick-Leads,
  fileno-Leads, dht_tick-Leads, timeout-Leads, start-Leads, lookup_result-Leads,
}

module _ (abi : Abi) (target : NodeId) (n : ℕ) where
  -- An address, and the first that C gave.
  abbrev pub Resolved : Option Address → World Host → Type 0
  Resolved none w = ⊥
  Resolved (some a) w = Hit abi target n a w

  -- A time-out, or the failure of the last call.
  abbrev pub Unresolved : Exc → World Host → Type 0
  Unresolved e w = ((e ≡ identity_not_found) × (hits abi w.calls ≡ n)) ⊎ Failed abi e w

  fails :
      {A : Type 0} (Q : A → World Host → Type 0) (r : Outcome A) (w : World Host)
      → Until Q (Failed abi) r w
      → Until Q Unresolved r w
  fails Q (ok a) w q = q
  fails Q (raise e) w q = inr q

  failed :
      {A : Type 0} (Q : A → World Host → Type 0) (m : Exec Host A)
      → Leads (Searching abi n) m Q (Failed abi)
      → Leads (Searching abi n) m Q Unresolved
  failed Q m j w p = fails Q (m w).0 (m w).1 (j w p)

  -- A step that leaves the search on, before the rest of it.
  step :
      {A : Type 0} (m : Exec Host A) (rest : Exec Host (Option Address))
      → Leads (Searching abi n) m (λ _. Searching abi n) (Failed abi)
      → Leads (Searching abi n) rest Resolved Unresolved
      → Leads (Searching abi n) (m >> rest) Resolved Unresolved
  step m rest j k =
      then-Leads (Searching abi n) (λ _. Searching abi n) Resolved Unresolved m rest
        (failed (λ _. Searching abi n) m j) (λ _. k)

  -- A lookup, before what is done with its result.
  look :
      (f : Option Record → Exec Host (Option Address))
      → ((r : Option Record) → Leads (Looked abi target n r) (f r) Resolved Unresolved)
      → Leads (Searching abi n) (on_dht (Dht.lookup_result abi target) >>= f) Resolved Unresolved
  look f k =
      bind-Leads (Searching abi n) (Looked abi target n) Resolved Unresolved
        (on_dht (Dht.lookup_result abi target)) f
        (failed (Looked abi target n) (on_dht (Dht.lookup_result abi target))
          (lookup_result-Leads abi n target))
        k

  or_wait-Leads :
      (r : Option Record) (now : ℕ) (rest : Exec Host (Option Address))
      → Leads (Searching abi n) rest Resolved Unresolved
      → Leads (Looked abi target n r) (or_wait abi r now rest) Resolved Unresolved
  unfolding pure
  or_wait-Leads (some r) now rest k = λ w q. q
  or_wait-Leads none now rest k =
      step (on_server (Loop.fileno abi)) _ (fileno-Leads abi n)
        (step (on_dht (Dht.next_timeout abi now)) rest (timeout-Leads abi n now) k)

  while_early-Leads :
      (early : Bool) (t : Readings) (rest : Exec Host (Option Address))
      → (early ≡ true → Leads (Searching abi n) rest Resolved Unresolved)
      → Leads (Searching abi n) (while_early abi early target t rest) Resolved Unresolved
  unfolding throw
  while_early-Leads false t rest k = λ w q. inl (refl, q.missed)
  while_early-Leads true t rest k =
      step (on_server (Loop.tick abi t.now_ms)) _ (server_tick-Leads abi n t.now_ms) (
        step (on_dht (Dht.tick abi t.now_secs)) _ (dht_tick-Leads abi n t.now_secs) (
          look (λ r. or_wait abi r t.now_secs rest)
            (λ r. or_wait-Leads r t.now_secs rest (k refl))))

  pump-Leads :
      (deadline : ℕ) (turns : List Readings)
      → passes deadline turns ≡ true
      → Leads (Searching abi n) (pump abi deadline target turns) Resolved Unresolved
  unfolding pump
  pump-Leads deadline [] p = ground arith
  pump-Leads deadline (t ∷ turns) p =
      while_early-Leads (ltb t.clock deadline) t (pump abi deadline target turns)
        (λ e. pump-Leads deadline turns (ground arith))

  or_lookup-Leads :
      (r : Option Record) (timeout : ℕ) (t : Readings) (turns : List Readings)
      → passes (t.clock + timeout) turns ≡ true
      → Leads (Looked abi target n r) (or_lookup abi r target timeout t turns) Resolved Unresolved
  unfolding pure
  or_lookup-Leads (some r) timeout t turns p = λ w q. q
  or_lookup-Leads none timeout t turns p =
      step (on_dht (Dht.start_lookup abi target t.now_secs))
        (pump abi (t.clock + timeout) target turns) (start-Leads abi n target t.now_secs)
        (pump-Leads (t.clock + timeout) turns p)

  -- If there is a DHT and the monotonic clock gets to the deadline, a resolve comes to an end whatever C
  -- answers: with the address of the record that C gave in answer to the last call, a lookup of the
  -- target, every earlier lookup of the resolve being answered with APP_NOT_FOUND; with the exception
  -- of a time-out, every lookup of the resolve being answered so; or with the exception of the code
  -- that the last call returned, which is not 0.
  pub resolve_blocking-Resolved :
      (timeout : ℕ) (t : Readings) (turns : List Readings)
      → passes (t.clock + timeout) turns ≡ true
      → Leads (Searching abi n) (resolve_blocking abi target timeout t turns) Resolved Unresolved
  unfolding resolve_blocking
  resolve_blocking-Resolved timeout t turns p =
      look (λ r. or_lookup abi r target timeout t turns) (λ r. or_lookup-Leads r timeout t turns p)
