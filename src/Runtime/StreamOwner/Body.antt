-- ===== src/Runtime/StreamOwner/Body.antt =====
-- What the consumer of a managed stream gets is the body, whole once the end is reported.
use mathlib.Core.List.{append_assoc, append-nil}
use nwep_py.Prelude.{
  ℕ, Bool, true, false, not, ◌||◌, ◌&&◌, List, [], ◌∷◌, ◌++◌, ◌≡◌, refl, sym, ◌∙◌, arith,
}
use nwep_py.Errors.{Outcome, ok, raise}
use nwep_py.Sys.{Bytes, Abi}
use nwep_py.Sys.Exec.{World}
use nwep_py.Client.Driven
use nwep_py.Client.Stream.{Stream, stream_chunk}
use nwep_py.Client.Stream as Streams
use nwep_py.Runtime.StreamOwner.{
  init, trailer, shut, finish, on_end, on_recv, on_peer, put_chunk, do_turn, Item, fault, Phase,
  starting, reading, gone, System, init, Action, turn, recv, recv_cancelled, aclose, step, run,
}
use nwep_py.Runtime.StreamOwner.Served.{IsServed, nothing, run-IsServed}
use nwep_py.Runtime.StreamOwner.History.{
  received, verified, joined, has_end, joined-append, has_end-append,
}

abbrev is_gone : Phase → Bool
is_gone gone = true
is_gone _ = false

-- All items so far, taken or waiting.
abbrev pub line : System → List Item
line s = s.taken ++ s.items

-- The items hold what C handed out, and the end stands among them only behind a verified trailer and
-- when the owner is gone.
pub record IsFaithful (abi : Abi) (s : System) : Type 0 where
  pub body : joined s.taken ++ joined s.items ≡ received abi s.world.calls
  pub whole :
      not (has_end s.taken || has_end s.items) || verified abi s.world.calls && is_gone s.phase
      ≡ true

-- While the owner has not ended.
record IsOpen (abi : Abi) (s : System) : Type 0 where
  so_far : joined s.taken ++ joined s.items ≡ received abi s.world.calls
  no_end : has_end s.taken || has_end s.items ≡ false

take-IsFaithful :
    (abi : Abi) (s : System) (items : List Item)
    → s.items ≡ items
    → IsFaithful abi s
    → IsFaithful abi (step abi recv s)
unfolding step
take-IsFaithful abi s [] e h = ground arith
take-IsFaithful abi s (i ∷ rest) e h =
    let j = joined-append s.taken (i ∷ []) in
    let k = joined-append (i ∷ []) rest in
    let a = append_assoc (joined s.taken) (joined (i ∷ [])) (joined rest) in
    let m = has_end-append s.taken (i ∷ []) in
    let n = has_end-append (i ∷ []) rest in ground (arith, e, j, k, a, m, n)

lose-IsFaithful :
    (abi : Abi) (s : System) (items : List Item)
    → s.items ≡ items
    → IsFaithful abi s
    → IsFaithful abi (step abi recv_cancelled s)
unfolding step
lose-IsFaithful abi s [] e h = ground arith
lose-IsFaithful abi s (i ∷ rest) e h =
    let j = joined-append s.taken (i ∷ []) in
    let k = joined-append (i ∷ []) rest in
    let a = append_assoc (joined s.taken) (joined (i ∷ [])) (joined rest) in
    let m = has_end-append s.taken (i ∷ []) in
    let n = has_end-append (i ∷ []) rest in ground (arith, e, j, k, a, m, n)

shut_keeps :
    (abi : Abi) (w : World Stream)
    → (received abi (shut abi w).calls ≡ received abi w.calls)
      × (verified abi (shut abi w).calls ≡ verified abi w.calls)
unfolding Streams.close Driven.close received verified
shut_keeps abi w = ground arith

finish-IsFaithful :
    (abi : Abi) (s : System) (last : List Item)
    → IsOpen abi s
    → joined last ≡ []
    → not (has_end last) || verified abi s.world.calls ≡ true
    → IsFaithful abi (finish abi last s)
finish-IsFaithful abi s last h j v = ground (
  arith,
  shut_keeps abi s.world,
  joined-append s.items last,
  has_end-append s.items last,
  append-nil (joined s.items),
)

verify_keeps :
    (abi : Abi) (peer : Bytes) (w : World Stream)
    → received abi (Streams.verify abi peer w).1.calls ≡ received abi w.calls
unfolding Streams.verify received
verify_keeps abi peer w = ground arith

verify_ends :
    (abi : Abi) (peer : Bytes) (w : World Stream)
    → not (has_end (trailer abi (Streams.verify abi peer w).0 ∷ []))
        || verified abi (Streams.verify abi peer w).1.calls
      ≡ true
unfolding Streams.verify verified has_end
verify_ends abi peer w = ground arith

joined-trailer : (abi : Abi) (r : Outcome (Unit {0})) → joined (trailer abi r ∷ []) ≡ []
unfolding joined
joined-trailer abi (ok u) = refl
joined-trailer abi (raise e) = refl

on_end-IsFaithful :
    (abi : Abi) (peer : Bytes) (ended : Bool) (s : System)
    → IsOpen abi s
    → IsFaithful abi (on_end abi peer ended s)
on_end-IsFaithful abi peer false s h = ground arith
on_end-IsFaithful abi peer true s h =
    let (r, w) = Streams.verify abi peer s.world in
    finish-IsFaithful abi (record s { world = (Streams.verify abi peer s.world).1 })
      (trailer abi (Streams.verify abi peer s.world).0 ∷ [])
      (record { so_far = h.so_far ∙ sym (verify_keeps abi peer s.world); no_end = h.no_end })
      (joined-trailer abi (Streams.verify abi peer s.world).0) (verify_ends abi peer s.world)

-- What a receive adds to the bytes.
abbrev chunk_of : Outcome (Bytes × Bool) → Bytes
chunk_of (raise e) = []
chunk_of (ok (c, ended)) = c

recv_adds :
    (abi : Abi) (size : ℕ) (w : World Stream)
    → received abi (Streams.recv abi size w).1.calls
      ≡ received abi w.calls ++ chunk_of (Streams.recv abi size w).0
unfolding Streams.recv received
recv_adds abi size w = ground (arith, append-nil (received abi w.calls))

joined-put_chunk :
    (abi : Abi) (c : Bytes) → (joined (put_chunk abi c) ≡ c) × (has_end (put_chunk abi c) ≡ false)
unfolding joined has_end
joined-put_chunk abi [] = (refl, refl)
joined-put_chunk abi (b ∷ c) = (append-nil (b ∷ c), refl)

on_recv-IsFaithful :
    (abi : Abi) (peer : Bytes) (r : Outcome (Bytes × Bool)) (s : System) (before : Bytes)
    → joined s.taken ++ joined s.items ≡ before
    → has_end s.taken || has_end s.items ≡ false
    → received abi s.world.calls ≡ before ++ chunk_of r
    → IsFaithful abi (on_recv abi peer r s)
on_recv-IsFaithful abi peer (raise e) s before b n c =
    finish-IsFaithful abi s (fault e ∷ [])
      (record { so_far = b ∙ sym (append-nil before) ∙ sym c; no_end = n }) (unfold joined in refl)
      (unfold has_end in refl)
on_recv-IsFaithful abi peer (ok (c, ended)) s before b n e =
    on_end-IsFaithful abi peer ended (record s { items = s.items ++ put_chunk abi c })
      (ground (
        arith,
        b,
        n,
        e,
        joined-append s.items (put_chunk abi c),
        has_end-append s.items (put_chunk abi c),
        joined-put_chunk abi c,
        append_assoc (joined s.taken) (joined s.items) c,
      ))

peer_keeps :
    (abi : Abi) (w : World Driven.Client)
    → (received abi (Driven.peer_pubkey abi w).1.calls ≡ received abi w.calls)
      × (verified abi (Driven.peer_pubkey abi w).1.calls ≡ verified abi w.calls)
unfolding Driven.peer_pubkey received verified
peer_keeps abi w = ground arith

on_peer-IsFaithful :
    (abi : Abi) (r : Outcome Bytes) (s : System) → IsOpen abi s → IsFaithful abi (on_peer abi r s)
on_peer-IsFaithful abi (raise e) s h =
    finish-IsFaithful abi s (fault e ∷ []) h (unfold joined in refl) (unfold has_end in refl)
on_peer-IsFaithful abi (ok peer) s h = ground arith

turn-IsFaithful :
    (abi : Abi) (s : System) (f : Phase) (stop : Bool)
    → s.phase ≡ f
    → IsFaithful abi s
    → IsFaithful abi (do_turn abi f stop s)
turn-IsFaithful abi s gone stop e h = h
turn-IsFaithful abi s starting stop e h =
    let v : World Driven.Client = record { self = s.world.self.owner; calls = s.world.calls } in
    on_peer-IsFaithful abi (Driven.peer_pubkey abi v).0
      (record s {
        world = record {
          self = record s.world.self { owner = (Driven.peer_pubkey abi v).1.self };
          calls = (Driven.peer_pubkey abi v).1.calls;
        };
      })
      (record { so_far = h.body ∙ sym (peer_keeps abi v).0; no_end = ground (arith, e, h.whole) })
turn-IsFaithful abi s (reading peer) true e h =
    finish-IsFaithful abi s [] (ground (arith, e, h.whole)) (unfold joined in refl)
      (unfold has_end in refl)
turn-IsFaithful abi s (reading peer) false e h =
    on_recv-IsFaithful abi peer (Streams.recv abi stream_chunk s.world).0
      (record s { world = (Streams.recv abi stream_chunk s.world).1 }) (received abi s.world.calls)
      h.body (ground (arith, e, h.whole)) (recv_adds abi stream_chunk s.world)

step-IsFaithful :
    (abi : Abi) (a : Action) (s : System) → IsFaithful abi s → IsFaithful abi (step abi a s)
unfolding step
step-IsFaithful abi turn s h = turn-IsFaithful abi s s.phase s.stop refl h
step-IsFaithful abi recv s h = take-IsFaithful abi s s.items refl h
step-IsFaithful abi recv_cancelled s h = lose-IsFaithful abi s s.items refl h
step-IsFaithful abi aclose s h = ground arith

run-IsFaithful :
    (abi : Abi) (actions : List Action) (s : System)
    → IsFaithful abi s
    → IsFaithful abi (run abi actions s)
unfolding run
run-IsFaithful abi [] s h = h
run-IsFaithful abi (a ∷ actions) s h =
    run-IsFaithful abi actions (step abi a s) (step-IsFaithful abi a s h)

-- A stream from which nothing was received yet, under every schedule of the owner, the consumer and
-- `aclose`: what was taken out of the queue and what waits in it are together the bytes that C handed
-- out, in order; if the end is among them, C has verified a trailer and the owner is gone; and the
-- consumer has got what was taken out, in its order: all of it, if no await of `recv` was cancelled.
pub stream-IsFaithful :
    (abi : Abi) (actions : List Action) (w : World Stream)
    → received abi w.calls ≡ []
    → IsFaithful abi (run abi actions (init w)) × IsServed (run abi actions (init w))
unfolding joined has_end
stream-IsFaithful abi actions w e = (
  run-IsFaithful abi actions (init w) (record { body = sym e; whole = refl }),
  run-IsServed abi actions (init w) (record { some_got = nothing; all_got = λ l. refl }),
)
