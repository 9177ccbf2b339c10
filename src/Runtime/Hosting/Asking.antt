-- ===== src/Runtime/Hosting/Asking.antt =====
-- What the calls of an owner's loop said about a target, and what each call of a resolve adds.
use nwep_py.Prelude.{
  ℕ, suc, ◌+◌, Bool, true, false, Option, none, some, List, [], ◌∷◌, ◌≡◌, ℤ, pos, negsuc, zero,
  eq_ℤ, arith, if◌then◌else◌, refl, sym, ap,
}
use nwep_py.Errors.{Exc, Outcome, ok, raise, nwep, from_code}
use nwep_py.Sys.{Abi, Call, dht, server, DhtCall, ServerCall, DhtRecord}
use nwep_py.Sys.Exec.{Exec, World, continue, ◌>>=◌, ◌>>◌}
use nwep_py.Identity.{NodeId}
use nwep_py.Address.{Address, new_address}
use nwep_py.Server.Loop
use nwep_py.Dht
use nwep_py.Dht.{Dht, Record, found}
use nwep_py.Cache.{app_not_found}
use nwep_py.Identity.Names.{new_node_id-read_buffer}
use nwep_py.Runtime.Hosting.{Host, on_server, on_some, on_dht}

-- By the result, or by the exception.
abbrev pub Until :
    {S A : Type 0}
    → (A → World S → Type 0)
    → (Exc → World S → Type 0)
    → Outcome A
    → World S
    → Type 0
Until Q R (ok a) w = Q a w
Until Q R (raise e) w = R e w

abbrev pub Leads :
    {S A : Type 0}
    → (World S → Type 0)
    → Exec S A
    → (A → World S → Type 0)
    → (Exc → World S → Type 0)
    → Type 0
Leads P m Q R = (w : World _) → P w → Until Q R (m w).0 (m w).1

module _ {S A B : Type 0} (P : World S → Type 0) (Q : A → World S → Type 0) where
  module _ (T : B → World S → Type 0) (R : Exc → World S → Type 0) where
    continue-Leads :
        (r : Outcome A) (f : A → Exec S B) (w : World S)
        → ((a : A) → Leads (Q a) (f a) T R)
        → Until Q R r w
        → Until T R (continue r f w).0 (continue r f w).1
    continue-Leads (ok a) f w k q = k a w q
    continue-Leads (raise e) f w k q = q

    pub bind-Leads :
        (m : Exec S A) (f : A → Exec S B)
        → Leads P m Q R
        → ((a : A) → Leads (Q a) (f a) T R)
        → Leads P (m >>= f) T R
    unfolding ◌>>=◌
    bind-Leads m f j k w p = continue-Leads (m w).0 f (m w).1 k (j w p)

    pub then-Leads :
        (m : Exec S A) (n : Exec S B)
        → Leads P m Q R
        → ((a : A) → Leads (Q a) n T R)
        → Leads P (m >> n) T R
    unfolding ◌>>◌
    then-Leads m n j k = bind-Leads m (λ _. n) j k

-- Whether there is a DHT.
abbrev pub has : Option Dht → Bool
has none = false
has (some d) = true

module _ (abi : Abi) where
  is_hit : List Call → DhtCall → ℕ
  is_hit older (DhtCall.lookup_result d raw) =
      if eq_ℤ (abi older (dht (DhtCall.lookup_result d raw))).0 app_not_found then 0 else 1
  is_hit older _ = 0

  -- How many lookups C did not answer with APP_NOT_FOUND.
  unfoldable pub hits : List Call → ℕ
  unfolding is_hit
  hits [] = 0
  hits (dht c ∷ older) = is_hit older c + hits older
  hits (_ ∷ older) = hits older

  of_server : List Call → ServerCall → ℤ
  of_server older (ServerCall.tick s now) = abi older (server (ServerCall.tick s now))
  of_server older _ = pos 0

  of_dht : List Call → DhtCall → ℤ
  of_dht older (DhtCall.tick d now) = abi older (dht (DhtCall.tick d now))
  of_dht older (DhtCall.start_lookup d raw now) = abi older (dht (DhtCall.start_lookup d raw now))
  of_dht older (DhtCall.lookup_result d raw) = (abi older (dht (DhtCall.lookup_result d raw))).0
  of_dht older _ = pos 0

  -- The code that the last call returned, where it is one of those that a resolve checks.
  unfoldable pub last_code : List Call → ℤ
  unfolding of_server of_dht
  last_code [] = pos 0
  last_code (server c ∷ older) = of_server older c
  last_code (dht c ∷ older) = of_dht older c
  last_code (_ ∷ older) = pos 0

  -- The exception is that of the code that the last call returned.
  abbrev pub Failed : Exc → World Host → Type 0
  Failed e w =
      (e ≡ nwep (from_code (last_code w.calls))) × (eq_ℤ (last_code w.calls) (pos 0) ≡ false)

  -- So many hits before, and none since.
  pub record Searching (n : ℕ) (w : World Host) : Type 0 where
    pub still : has w.self.dht ≡ true
    pub missed : hits w.calls ≡ n

  abbrev GivenBy : NodeId → Address → List Call → DhtCall → Type 0
  GivenBy target a older (DhtCall.lookup_result d raw) =
      (raw ≡ target.raw)
      × ((abi older (dht (DhtCall.lookup_result d raw))).0 ≡ pos 0)
      × (a ≡ new_address (abi older (dht (DhtCall.lookup_result d raw))).1.addr)
  GivenBy target a older _ = ⊥

  -- The address is that of the record that the last call gave, a lookup of the target.
  abbrev pub Given : NodeId → Address → List Call → Type 0
  Given target a [] = ⊥
  Given target a (dht c ∷ older) = GivenBy target a older c
  Given target a (_ ∷ older) = ⊥

  -- The first hit.
  abbrev pub Hit : NodeId → ℕ → Address → World Host → Type 0
  Hit target n a w = Given target a w.calls × (hits w.calls ≡ suc n)

  abbrev pub Looked : NodeId → ℕ → Option Record → World Host → Type 0
  Looked target n none w = Searching n w
  Looked target n (some r) w = Hit target n r.address w

  module _ (n : ℕ) where
    pub server_tick-Leads :
        (now : ℕ) → Leads (Searching n) (on_server (Loop.tick abi now)) (λ _. Searching n) Failed
    unfolding on_server Loop.tick hits last_code
    server_tick-Leads now w q = ground arith

    pub fileno-Leads : Leads (Searching n) (on_server (Loop.fileno abi)) (λ _. Searching n) Failed
    unfolding on_server Loop.fileno hits last_code
    fileno-Leads w q = ground arith

    pub dht_tick-Leads :
        (now : ℕ) → Leads (Searching n) (on_dht (Dht.tick abi now)) (λ _. Searching n) Failed
    unfolding on_dht Dht.tick hits last_code
    dht_tick-Leads now w q = ground arith

    pub timeout-Leads :
        (now : ℕ)
        → Leads (Searching n) (on_dht (Dht.next_timeout abi now)) (λ _. Searching n) Failed
    unfolding on_dht Dht.next_timeout hits last_code
    timeout-Leads now w q = ground arith

    pub start-Leads :
        (target : NodeId) (now : ℕ)
        → Leads (Searching n) (on_dht (Dht.start_lookup abi target now)) (λ _. Searching n) Failed
    unfolding on_dht Dht.start_lookup hits last_code
    start-Leads target now w q = ground arith

    abbrev asked : NodeId → Dht → List Call → World Dht
    asked target d older = record {
      self = d;
      calls = dht (DhtCall.lookup_result d.handle target.raw) ∷ older;
    }

    abbrev back : Host → World Dht → World Host
    back s w = record { self = record s { dht = some w.self }; calls = w.calls }

    -- By the code of a lookup.
    found-Leads :
        (target : NodeId) (rc : ℤ) (out : DhtRecord) (d : Dht) (s : Host) (older : List Call)
        → hits older ≡ n
        → abi older (dht (DhtCall.lookup_result d.handle target.raw)) ≡ (rc, out)
        → Until
            (Looked target n)
            Failed
            (found rc out (asked target d older)).0
            (back s (found rc out (asked target d older)).1)
    unfolding found hits last_code is_hit
    found-Leads target (pos zero) out d s older m e =
        rw (new_node_id-read_buffer out.node_id (asked target d older))
          ((refl, ap (λ x. x.0) e, ap (λ x. new_address x.1.addr) (sym e)), ground arith)
    found-Leads target (pos (suc k)) out d s older m e = ground arith
    found-Leads target (negsuc k) out d s older m e = ground arith

    lookup-Leads :
        (target : NodeId) (o : Option Dht) (w : World Host)
        → has o ≡ true
        → hits w.calls ≡ n
        → Until
            (Looked target n)
            Failed
            (on_some o (Dht.lookup_result abi target) w).0
            (on_some o (Dht.lookup_result abi target) w).1
    unfolding Dht.lookup_result
    lookup-Leads target none w h m = ground arith
    lookup-Leads target (some d) w h m =
        let call = dht (DhtCall.lookup_result d.handle target.raw) in
        found-Leads target (abi w.calls call).0 (abi w.calls call).1 d w.self w.calls m refl

    pub lookup_result-Leads :
        (target : NodeId)
        → Leads (Searching n) (on_dht (Dht.lookup_result abi target)) (Looked target n) Failed
    unfolding on_dht
    lookup_result-Leads target w q = lookup-Leads target w.self.dht w q.still q.missed
