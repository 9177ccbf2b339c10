-- ===== src/Runtime/Hosting/Lookup.antt =====
-- `_resolve_blocking` comes to an end, with an address that C gave for the target or an exception.
use nwep_py.Prelude.{
  ℕ, ◌+◌, Bool, true, false, Option, none, some, List, [], ◌∷◌, ◌≡◌, any, leb, ltb, pos, negsuc, ℤ,
  zero, suc, eq_ℤ, if◌then◌else◌, arith, refl,
}
use nwep_py.Sys.{Ptr, Abi, Call, dht, DhtCall, DhtRecord}
use nwep_py.Sys.Exec.{Exec, World, pure, throw}
use nwep_py.Sys.Gives.{Gives, Always, bind-Always, then-Always, throw-Always}
use nwep_py.Identity.{NodeId}
use nwep_py.Address.{Address, new_address}
use nwep_py.Dht
use nwep_py.Dht.{Dht, Record, found}
use nwep_py.Cache.{app_not_found}
use nwep_py.Errors.{nwep, from_code}
use nwep_py.Identity.Names.{new_node_id-read_buffer}
use nwep_py.Runtime.Hosting.{
  Host, on_some, on_dht, Readings, identity_not_found, or_wait, while_early, pump, or_lookup,
  resolve_blocking,
}

-- A reading is at or past the deadline.
abbrev pub passes : ℕ → List Readings → Bool
passes deadline turns = any (λ t. leb deadline t.clock) turns

module _ (abi : Abi) (target : NodeId) where
  -- The address of a record that C gave for the target.
  abbrev pub FromRecord : Address → Type 0
  FromRecord a =
      (calls : List Call) × (d : Ptr) × (out : DhtRecord) × (abi calls
          (dht (DhtCall.lookup_result d target.raw))
        ≡ (pos 0, out))
      × (a ≡ new_address out.addr)

  -- A record that C gave, or none.
  abbrev Looked : Option Record → Type 0
  Looked none = Unit
  Looked (some r) = FromRecord r.address

  -- An address, and one that C gave.
  abbrev pub IsAddress : Option Address → Type 0
  IsAddress none = ⊥
  IsAddress (some a) = FromRecord a

  missed-Looked :
      (b : Bool) (rc : ℤ) {S : Type 0} (w : World S)
      → Gives Looked ((if b then pure none else throw (nwep (from_code rc))) w).0
  unfolding pure throw
  missed-Looked true rc w = tt
  missed-Looked false rc w = tt

  found-Looked :
      {S : Type 0} (calls : List Call) (d : Ptr) (rc : ℤ) (out : DhtRecord) (w : World S)
      → abi calls (dht (DhtCall.lookup_result d target.raw)) ≡ (rc, out)
      → Gives Looked (found rc out w).0
  unfolding found
  found-Looked calls d (pos zero) out w e =
      rw (new_node_id-read_buffer out.node_id w) (calls, d, out, e, refl)
  found-Looked calls d (pos (suc n)) out w e = ground arith
  found-Looked calls d (negsuc n) out w e =
      missed-Looked (eq_ℤ (negsuc n) app_not_found) (negsuc n) w

  on_some-Looked :
      (d : Option Dht) (w : World Host)
      → Gives Looked (on_some d (Dht.lookup_result abi target) w).0
  unfolding Dht.lookup_result
  on_some-Looked none w = tt
  on_some-Looked (some d) w =
      let call = dht (DhtCall.lookup_result d.handle target.raw) in
      found-Looked w.calls d.handle (abi w.calls call).0 (abi w.calls call).1
        (record { self = d; calls = call ∷ w.calls }) refl

  lookup_result-Looked : Always Looked (on_dht (Dht.lookup_result abi target))
  unfolding on_dht
  lookup_result-Looked w = on_some-Looked w.self.dht w

  or_wait-IsAddress :
      (r : Option Record) (now : ℕ) (rest : Exec Host (Option Address))
      → Looked r
      → Always IsAddress rest
      → Always IsAddress (or_wait abi r now rest)
  unfolding pure
  or_wait-IsAddress (some r) now rest l k = λ w. l
  or_wait-IsAddress none now rest l k = then-Always IsAddress _ _ (then-Always IsAddress _ _ k)

  while_early-IsAddress :
      (early : Bool) (t : Readings) (rest : Exec Host (Option Address))
      → (early ≡ true → Always IsAddress rest)
      → Always IsAddress (while_early abi early target t rest)
  while_early-IsAddress false t rest k = throw-Always IsAddress identity_not_found
  while_early-IsAddress true t rest k = then-Always IsAddress _ _ (
      then-Always IsAddress _ _ (
        bind-Always Looked IsAddress _ _ lookup_result-Looked
          (λ r l. or_wait-IsAddress r t.now_secs rest l (k refl))))

  pump-IsAddress :
      (deadline : ℕ) (turns : List Readings)
      → passes deadline turns ≡ true
      → Always IsAddress (pump abi deadline target turns)
  unfolding pump
  pump-IsAddress deadline [] p = ground arith
  pump-IsAddress deadline (t ∷ turns) p =
      while_early-IsAddress (ltb t.clock deadline) t (pump abi deadline target turns)
        (λ e. pump-IsAddress deadline turns (ground arith))

  or_lookup-IsAddress :
      (r : Option Record) (timeout : ℕ) (t : Readings) (turns : List Readings)
      → Looked r
      → passes (t.clock + timeout) turns ≡ true
      → Always IsAddress (or_lookup abi r target timeout t turns)
  unfolding pure
  or_lookup-IsAddress (some r) timeout t turns l p = λ w. l
  or_lookup-IsAddress none timeout t turns l p =
      then-Always IsAddress _ _ (pump-IsAddress (t.clock + timeout) turns p)

  -- If the monotonic clock gets to the deadline, the resolve comes to an end whatever C answers: it
  -- raises, or gives the address of a record that C gave for the target.
  pub resolve_blocking-IsAddress :
      (timeout : ℕ) (t : Readings) (turns : List Readings)
      → passes (t.clock + timeout) turns ≡ true
      → Always IsAddress (resolve_blocking abi target timeout t turns)
  unfolding resolve_blocking
  resolve_blocking-IsAddress timeout t turns p =
      bind-Always Looked IsAddress _ _ lookup_result-Looked
        (λ r l. or_lookup-IsAddress r timeout t turns l p)
