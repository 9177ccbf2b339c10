-- ===== src/Examples/Nwproxy/Ledger.antt =====
-- What the calls of the proxy of examples/nwproxy.py did with messages, in order, and what each of its
-- steps adds.
use mathlib.Core.List.{append-nil}
use nwep_py.Prelude.{
  ℕ, false, Option, none, some, List, [], ◌∷◌, ◌++◌, ◌≡◌, ◌⊎◌, ℤ, pos, negsuc, eq_ℤ, arith,
  if◌then◌else◌,
}
use nwep_py.Sys.{
  Bytes, Ptr, Abi, Call, message, server, client, cache, MessageCall, ServerCall, ClientCall,
  CacheCall,
}
use nwep_py.Sys.Exec.{World}
use nwep_py.Sys.Triple.{Triple}
use nwep_py.Server.Loop
use nwep_py.Client.Driven
use nwep_py.Client.Response
use nwep_py.Client.Response.{Response, new_response}
use nwep_py.Cache
use nwep_py.Wire
use nwep_py.Examples.Nwproxy.{
  Parked, Proxy, page, on_server, on_client, on_cache, on_response, relay,
}

-- A message that the cache had or that the origin gave, its relay to a parked request, its way into the
-- cache, and its free.
pub data Event : Type 0 where
  found fetched stored freed : Ptr → Event
  relayed : Parked → Ptr → Event

of_message : MessageCall → List Event
of_message (MessageCall.free m) = freed m ∷ []
of_message _ = []

of_server : ServerCall → List Event
of_server (ServerCall.relay s c t m) = relayed (record { conn = c; stream = t }) m ∷ []
of_server _ = []

abbrev given : ℤ → Ptr → List Event
given (pos n) m = fetched m ∷ []
given (negsuc n) m = []

of_client : Abi → List Call → ClientCall → List Event
of_client abi older (ClientCall.send c m p h b) =
    let (rc, msg) = abi older (client (ClientCall.send c m p h b)) in given rc msg
of_client abi older _ = []

of_cache : Abi → List Call → CacheCall → List Event
of_cache abi older (CacheCall.get_signed c m p k n) =
    let (rc, msg) = abi older (cache (CacheCall.get_signed c m p k n)) in
    if eq_ℤ rc (pos 0) then found msg ∷ [] else []
of_cache abi older (CacheCall.put_signed c m p r k n) = stored r ∷ []
of_cache abi older _ = []

-- The events of the calls, in their order. A relay and a store are there also when C refused them.
unfoldable pub events : Abi → List Call → List Event
unfolding of_message of_server of_client of_cache
events abi [] = []
events abi (message c ∷ older) = events abi older ++ of_message c
events abi (server c ∷ older) = events abi older ++ of_server c
events abi (client c ∷ older) = events abi older ++ of_client abi older c
events abi (cache c ∷ older) = events abi older ++ of_cache abi older c
events abi (_ ∷ older) = events abi older

module _ (abi : Abi) where
  -- So much was done, and no other request waits.
  pub record Did (es : List Event) (w : World Proxy) : Type 0 where
    pub done : events abi w.calls ≡ es
    pub none_wait : w.self.parked ≡ []

  abbrev pub Looked : List Event → Option Response → World Proxy → Type 0
  Looked es none w = Did es w
  Looked es (some hit) w = Did (es ++ found hit.msg ∷ []) w × (hit.closed ≡ false)

module _ (abi : Abi) (clock : List Call → ℕ) (origin_pubkey : Bytes) where
  pub get-Triple :
      (es : List Event) (now : ℕ)
      → Triple
          (Did abi es)
          (on_cache (Cache.get_signed abi (Cache.VerbArg.member Wire.read) page origin_pubkey now))
          (Looked abi es)
          (Did abi es)
  unfolding on_cache Cache.get_signed events
  get-Triple es now w q = ground (arith, append-nil (events abi w.calls))

  pub relay-Triple :
      (es : List Event) (j : Parked) (m : Response)
      → m.closed ≡ false
      → Triple
          (Did abi es)
          (relay abi clock origin_pubkey j m)
          (λ _. Did abi (es ++ relayed j m.msg ∷ []))
          (Did abi (es ++ relayed j m.msg ∷ []))
  unfolding on_server Loop.relay events
  relay-Triple es j m o w q = ground arith

  pub send-Triple :
      (es : List Event)
      → Triple
          (Did abi es)
          (on_client (Driven.send abi (Driven.MethodArg.member Wire.read) page [] none))
          (λ m w. Did abi (es ++ fetched m.msg ∷ []) w × (m.closed ≡ false))
          (Did abi es)
  unfolding on_client Driven.send events
  send-Triple es w q = ground (arith, append-nil (events abi w.calls))

  pub put-Triple :
      (es : List Event) (now : ℕ) (m : Response)
      → m.closed ≡ false
      → Triple
          (Did abi es)
          (on_cache
            (Cache.put_signed abi (Cache.VerbArg.member Wire.read) page m origin_pubkey now))
          (λ _. Did abi (es ++ stored m.msg ∷ []))
          (λ w. Did abi es w ⊎ Did abi (es ++ stored m.msg ∷ []) w)
  unfolding on_cache Cache.put_signed events
  put-Triple es now m o w q = ground (arith, append-nil (events abi w.calls))

  pub close-Triple :
      (R : World Proxy → Type 0) (es : List Event) (m : Response)
      → m.closed ≡ false
      → Triple
          (Did abi es)
          (on_response m (Response.close abi))
          (λ _. Did abi (es ++ freed m.msg ∷ []))
          R
  unfolding on_response Response.close events
  close-Triple R es m o w q = ground arith
