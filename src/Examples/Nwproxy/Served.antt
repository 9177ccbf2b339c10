-- ===== src/Examples/Nwproxy/Served.antt =====
-- What a turn of the proxy of examples/nwproxy.py does for each request that is parked.
use mathlib.Core.List.{append_assoc, append-nil}
use nwep_py.Prelude.{
  ℕ, false, Option, none, some, List, [], ◌∷◌, ◌++◌, map, ◌≡◌, refl, sym, ap, ◌∙◌, ◌⊎◌, inl, inr,
  take, arith,
}
use nwep_py.Errors.{Outcome, ok, raise}
use nwep_py.Sys.{Ptr, Bytes, Abi, Call}
use nwep_py.Sys.Exec.{World, ◌>>=◌, ◌>>◌}
use nwep_py.Sys.Triple.{
  Triple, Ends, weaken-Triple, raise-Triple, Ends-later, bind-Triple, then-Triple,
}
use nwep_py.Client.Driven
use nwep_py.Client.Response
use nwep_py.Client.Response.{Response, new_response}
use nwep_py.Cache
use nwep_py.Wire
use nwep_py.Examples.Nwproxy.{
  Parked, Proxy, page, on_client, on_cache, on_response, relay, from_cache, store, relay_and_store,
  from_origin, hit_or_miss, serve_one, serve_jobs, serve_parked, now_secs,
}
use nwep_py.Examples.Nwproxy.Ledger.{
  Event, found, fetched, stored, freed, relayed, events, Did, Looked, get-Triple, relay-Triple,
  send-Triple, put-Triple, close-Triple,
}

-- The message that a request is answered with: one that the cache had, or one of the origin.
pub data Answer : Type 0 where
  hit miss : Ptr → Answer

-- All that is done with it.
abbrev pub events_of : Parked → Answer → List Event
events_of j (hit m) = found m ∷ relayed j m ∷ freed m ∷ []
events_of j (miss m) = fetched m ∷ relayed j m ∷ stored m ∷ freed m ∷ []

pub all_events : List (Parked × Answer) → List Event
all_events [] = []
all_events ((j, a) ∷ ts) = events_of j a ++ all_events ts

module _ (abi : Abi) (clock : List Call → ℕ) (origin_pubkey : Bytes) where
  abbrev Answered : List Event → Parked → World Proxy → Type 0
  Answered es j w = (a : Answer) × Did abi (es ++ events_of j a) w

  -- A first part of it.
  abbrev Halted : List Event → Parked → World Proxy → Type 0
  Halted es j w = (a : Answer) × (n : ℕ) × Did abi (es ++ take n (events_of j a)) w

  as-Did : {es fs : List Event} {w : World Proxy} → es ≡ fs → Did abi es w → Did abi fs w
  as-Did e q = record { done = q.done ∙ e; none_wait = q.none_wait }

  Halted-none : (es : List Event) (j : Parked) (w : World Proxy) → Did abi es w → Halted es j w
  Halted-none es j w q = (hit 0, 0, as-Did (sym (append-nil es)) q)

  two : {A : Type 0} (xs : List A) (a b : A) → (xs ++ a ∷ []) ++ b ∷ [] ≡ xs ++ a ∷ b ∷ []
  two xs a b = append_assoc xs (a ∷ []) (b ∷ [])

  three :
      {A : Type 0} (xs : List A) (a b c : A)
      → ((xs ++ a ∷ []) ++ b ∷ []) ++ c ∷ [] ≡ xs ++ a ∷ b ∷ c ∷ []
  three xs a b c = ap (λ ys. ys ++ c ∷ []) (two xs a b) ∙ append_assoc xs (a ∷ b ∷ []) (c ∷ [])

  four :
      {A : Type 0} (xs : List A) (a b c d : A)
      → (((xs ++ a ∷ []) ++ b ∷ []) ++ c ∷ []) ++ d ∷ [] ≡ xs ++ a ∷ b ∷ c ∷ d ∷ []
  four xs a b c d =
      ap (λ ys. ys ++ d ∷ []) (three xs a b c) ∙ append_assoc xs (a ∷ b ∷ c ∷ []) (d ∷ [])

  closes :
      (es : List Event) (j : Parked) (m : Response) (w : World Proxy)
      → m.closed ≡ false
      → Did abi ((es ++ found m.msg ∷ []) ++ relayed j m.msg ∷ []) w
      → Did abi
          (((es ++ found m.msg ∷ []) ++ relayed j m.msg ∷ []) ++ freed m.msg ∷ [])
          (on_response m (Response.close abi) w).1
  unfolding on_response Response.close events
  closes es j m w o q = ground arith

  -- The `with` around a hit: its close runs however the relay ended.
  close-Ends :
      (es : List Event) (j : Parked) (m : Response) (r : Outcome (Unit {0})) (w : World Proxy)
      → m.closed ≡ false
      → Ends
          (λ _. Did abi ((es ++ found m.msg ∷ []) ++ relayed j m.msg ∷ []))
          (Did abi ((es ++ found m.msg ∷ []) ++ relayed j m.msg ∷ []))
          r
          w
      → Ends (λ _. Answered es j) (Halted es j) r (on_response m (Response.close abi) w).1
  close-Ends es j m (ok _) w o q = (
    hit m.msg,
    as-Did (three es (found m.msg) (relayed j m.msg) (freed m.msg)) (closes es j m w o q),
  )
  close-Ends es j m (raise e) w o q = (
    hit m.msg,
    3,
    as-Did (three es (found m.msg) (relayed j m.msg) (freed m.msg)) (closes es j m w o q),
  )

  from_cache-Triple :
      (es : List Event) (j : Parked) (m : Response)
      → m.closed ≡ false
      → Triple
          (Did abi (es ++ found m.msg ∷ []))
          (from_cache abi clock origin_pubkey j m)
          (λ _. Answered es j)
          (Halted es j)
  from_cache-Triple es j m o w q =
      close-Ends es j m _ _ o
        (relay-Triple abi clock origin_pubkey (es ++ found m.msg ∷ []) j m o w q)

  -- What follows the relay of a fetched message.
  store-Triple :
      (es : List Event) (j : Parked) (now : ℕ) (m : Response)
      → m.closed ≡ false
      → Triple
          (Did abi ((es ++ fetched m.msg ∷ []) ++ relayed j m.msg ∷ []))
          (store abi clock origin_pubkey m now)
          (λ _. Answered es j)
          (Halted es j)
  store-Triple es j now m o =
      let fs = (es ++ fetched m.msg ∷ []) ++ relayed j m.msg ∷ [] in
      let put =
        on_cache (Cache.put_signed abi (Cache.VerbArg.member Wire.read) page m origin_pubkey now) in
      then-Triple (Did abi fs) (Halted es j) (λ _. Did abi (fs ++ stored m.msg ∷ []))
        (λ _. Answered es j) put (on_response m (Response.close abi))
        (raise-Triple (λ _. Did abi (fs ++ stored m.msg ∷ []))
          (λ w. Did abi fs w ⊎ Did abi (fs ++ stored m.msg ∷ []) w) (Halted es j) (Did abi fs) put
          (put-Triple abi clock origin_pubkey fs now m o)
          (λ w x. elim x [
            | inl q ↦ (miss m.msg, 2, as-Did (two es (fetched m.msg) (relayed j m.msg)) q)
            | inr q ↦ (
              miss m.msg,
              3,
              as-Did (three es (fetched m.msg) (relayed j m.msg) (stored m.msg)) q,
            )
          ]))
        (λ _.
          weaken-Triple (Did abi (fs ++ stored m.msg ∷ [])) (Halted es j)
            (λ _. Did abi ((fs ++ stored m.msg ∷ []) ++ freed m.msg ∷ [])) (λ _. Answered es j)
            (on_response m (Response.close abi))
            (close-Triple abi clock origin_pubkey (Halted es j) (fs ++ stored m.msg ∷ []) m o)
            (λ _ w q. (
              miss m.msg,
              as-Did (four es (fetched m.msg) (relayed j m.msg) (stored m.msg) (freed m.msg)) q,
            )))

  relay_and_store-Triple :
      (es : List Event) (j : Parked) (m : Response)
      → m.closed ≡ false
      → Triple
          (Did abi (es ++ fetched m.msg ∷ []))
          (relay_and_store abi clock origin_pubkey j m)
          (λ _. Answered es j)
          (Halted es j)
  unfolding ◌>>=◌ ◌>>◌
  relay_and_store-Triple es j m o =
      let fs = (es ++ fetched m.msg ∷ []) ++ relayed j m.msg ∷ [] in
      then-Triple (Did abi (es ++ fetched m.msg ∷ [])) (Halted es j) (λ _. Did abi fs)
        (λ _. Answered es j) (relay abi clock origin_pubkey j m)
        (now_secs abi clock origin_pubkey >>= store abi clock origin_pubkey m)
        (raise-Triple (λ _. Did abi fs) (Did abi fs) (Halted es j)
          (Did abi (es ++ fetched m.msg ∷ [])) (relay abi clock origin_pubkey j m)
          (relay-Triple abi clock origin_pubkey (es ++ fetched m.msg ∷ []) j m o)
          (λ w q. (miss m.msg, 2, as-Did (two es (fetched m.msg) (relayed j m.msg)) q)))
        (λ _ w. store-Triple es j (clock w.calls) m o w)

  from_origin-Triple :
      (es : List Event) (j : Parked)
      → Triple
          (Did abi es)
          (from_origin abi clock origin_pubkey j)
          (λ _. Answered es j)
          (Halted es j)
  from_origin-Triple es j =
      let Sent = λ (m : Response) (w : World Proxy).
        Did abi (es ++ fetched m.msg ∷ []) w × (m.closed ≡ false) in
      let send = on_client (Driven.send abi (Driven.MethodArg.member Wire.read) page [] none) in
      bind-Triple (Did abi es) (Halted es j) Sent (λ _. Answered es j) send
        (relay_and_store abi clock origin_pubkey j)
        (raise-Triple Sent (Did abi es) (Halted es j) (Did abi es) send
          (send-Triple abi clock origin_pubkey es) (Halted-none es j))
        (λ m w (q, o). relay_and_store-Triple es j m o w q)

  hit_or_miss-Triple :
      (es : List Event) (j : Parked) (o : Option Response)
      → Triple
          (Looked abi es o)
          (hit_or_miss abi clock origin_pubkey j o)
          (λ _. Answered es j)
          (Halted es j)
  hit_or_miss-Triple es j none = from_origin-Triple es j
  hit_or_miss-Triple es j (some m) = λ w (q, o). from_cache-Triple es j m o w q

  serve_one-Triple :
      (es : List Event) (j : Parked)
      → Triple (Did abi es) (serve_one abi clock origin_pubkey j) (λ _. Answered es j) (Halted es j)
  unfolding serve_one
  serve_one-Triple es j w q =
      let look = on_cache (
        Cache.get_signed abi (Cache.VerbArg.member Wire.read) page origin_pubkey (clock w.calls)) in
      bind-Triple (Did abi es) (Halted es j) (Looked abi es) (λ _. Answered es j) look
        (hit_or_miss abi clock origin_pubkey j)
        (raise-Triple (Looked abi es) (Did abi es) (Halted es j) (Did abi es) look
          (get-Triple abi clock origin_pubkey es (clock w.calls)) (Halted-none es j))
        (hit_or_miss-Triple es j) w q

  -- Each was answered, with its message.
  abbrev pub Turned : List Event → List Parked → World Proxy → Type 0
  Turned es js w =
      (ts : List (Parked × Answer)) × (map (λ t. t.0) ts ≡ js) × Did abi (es ++ all_events ts) w

  -- The first so many were answered, and a first part of what is to be done for the next was done.
  abbrev pub Cut : List Event → List Parked → World Proxy → Type 0
  Cut es js w =
      (ts : List (Parked × Answer)) × (j : Parked) × (rest : List Parked) × (a : Answer) × (n : ℕ)
      × (js ≡ map (λ t. t.0) ts ++ j ∷ rest)
      × Did abi (es ++ (all_events ts ++ take n (events_of j a))) w

  Turned-later :
      (es : List Event) (j : Parked) (js : List Parked) (a : Answer) (w : World Proxy)
      → Turned (es ++ events_of j a) js w
      → Turned es (j ∷ js) w
  unfolding all_events
  Turned-later es j js a w (ts, e, q) =
      ((j, a) ∷ ts, ap (λ ks. j ∷ ks) e, as-Did (append_assoc es (events_of j a) (all_events ts)) q)

  Cut-later :
      (es : List Event) (j : Parked) (js : List Parked) (a : Answer) (w : World Proxy)
      → Cut (es ++ events_of j a) js w
      → Cut es (j ∷ js) w
  unfolding all_events
  Cut-later es j js a w (ts, k, rest, b, n, e, q) = (
    (j, a) ∷ ts,
    k,
    rest,
    b,
    n,
    ap (λ ks. j ∷ ks) e,
    as-Did
        (append_assoc es (events_of j a) (all_events ts ++ take n (events_of k b))
          ∙ ap (λ fs. es ++ fs)
              (sym (append_assoc (events_of j a) (all_events ts) (take n (events_of k b)))))
        q,
  )

  serve_jobs-Triple :
      (js : List Parked) (es : List Event)
      → Triple (Did abi es) (serve_jobs abi clock origin_pubkey js) (λ _. Turned es js) (Cut es js)
  unfolding serve_jobs all_events
  serve_jobs-Triple [] es = λ w q. ([], refl, as-Did (sym (append-nil es)) q)
  serve_jobs-Triple (j ∷ js) es =
      let rest = serve_jobs abi clock origin_pubkey js in
      let one = serve_one abi clock origin_pubkey j in
      then-Triple (Did abi es) (Cut es (j ∷ js)) (λ _. Answered es j) (λ _. Turned es (j ∷ js)) one
        rest
        (raise-Triple (λ _. Answered es j) (Halted es j) (Cut es (j ∷ js)) (Did abi es) one
          (serve_one-Triple es j) (λ w (a, n, q). ([], j, js, a, n, refl, q)))
        (λ _ w (a, q).
          Ends-later (λ _. Turned (es ++ events_of j a) js) (λ _. Turned es (j ∷ js))
            (Cut (es ++ events_of j a) js) (Cut es (j ∷ js)) (rest w).0 (rest w).1
            (λ _. Turned-later es j js a) (Cut-later es j js a)
            (serve_jobs-Triple js (es ++ events_of j a) w q))

  -- A turn of the proxy's loop on parked requests, whatever C answers. If no call raises: for each
  -- request in its order, and nothing else, the message that the cache had was relayed to it and freed,
  -- or the one that the origin gave was relayed to it, stored and freed. If a call raises: so it was for
  -- the first so many, for the next request a first part of this was done, and no request waits any
  -- more.
  pub serve_parked-Ends :
      (es : List Event) (js : List Parked) (w : World Proxy)
      → w.self.parked ≡ js
      → events abi w.calls ≡ es
      → Ends
          (λ _. Turned es js)
          (Cut es js)
          (serve_parked abi clock origin_pubkey w).0
          (serve_parked abi clock origin_pubkey w).1
  unfolding serve_parked
  serve_parked-Ends es js w e d =
      rw e (serve_jobs-Triple js es _ (record { done = d; none_wait = refl }))
