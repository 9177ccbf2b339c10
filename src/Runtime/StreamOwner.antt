-- ===== src/Runtime/StreamOwner.antt =====
-- `AsyncStream` and the owner thread of `_stream` in nwep/runtime.py, once the stream is open: the
-- owner reads chunks into a queue, and the consumer takes them out.
pub mod History
pub mod Served
pub mod Body
pub mod Ending
use nwep_py.Prelude.{Bool, true, false, Option, none, some, List, [], ◌∷◌, ◌++◌}
use nwep_py.Errors.{Exc, Outcome, ok, raise}
use nwep_py.Sys.{Bytes, Abi}
use nwep_py.Sys.Exec.{World}
use nwep_py.Client.Driven
use nwep_py.Client.Stream
use nwep_py.Client.Stream.{stream_chunk}

-- An entry of the queue: a chunk, `_STREAM_END`, or an exception.
pub data Item : Type 0 where
  chunk : Bytes → Item
  end : Item
  fault : Exc → Item

-- The owner: before its loop, in it with the peer's key, or gone.
pub data Phase : Type 0 where
  starting gone : Phase
  reading : Bytes → Phase

-- `taken` is what the executor's threads took out of the queue so far, in order, and `got` what of it
-- reached a `recv` that waited; `lost` says whether some did not.
pub record System : Type 0 where
  pub world : World Stream.Stream
  pub phase : Phase
  pub stop : Bool
  pub items : List Item
  pub taken : List Item
  pub got : List Item
  pub lost : Bool

abbrev pub init : World Stream.Stream → System
init w = record {
  world = w;
  phase = starting;
  stop = false;
  items = [];
  taken = [];
  got = [];
  lost = false;
}

-- What `recv` makes of an item.
unfoldable pub recv_result : Item → Outcome (Option Bytes)
recv_result (chunk c) = ok (some c)
recv_result end = ok none
recv_result (fault e) = raise e

module _ (abi : Abi) where
  -- `stream.close()` and `client.close()` of the `finally`
  abbrev shut : World Stream.Stream → World Stream.Stream
  shut w =
      let (r, v) = Stream.close abi w in
      let (q, u) = Driven.close abi (record { self = v.self.owner; calls = v.calls }) in
      record { self = record v.self { owner = u.self }; calls = u.calls }

  abbrev finish : List Item → System → System
  finish last s = record s { world = shut s.world; phase = gone; items = s.items ++ last }

  -- `if chunk: items.put(chunk)`
  abbrev put_chunk : Bytes → List Item
  put_chunk [] = []
  put_chunk (b ∷ bytes) = chunk (b ∷ bytes) ∷ []

  abbrev trailer : Outcome (Unit {0}) → Item
  trailer (ok _) = end
  trailer (raise e) = fault e

  abbrev on_end : Bytes → Bool → System → System
  on_end peer false s = s
  on_end peer true s =
      let (r, w) = Stream.verify abi peer s.world in
      finish (trailer r ∷ []) (record s { world = w })

  abbrev on_recv : Bytes → Outcome (Bytes × Bool) → System → System
  on_recv peer (raise e) s = finish (fault e ∷ []) s
  on_recv peer (ok (c, ended)) s = on_end peer ended (record s { items = s.items ++ put_chunk c })

  abbrev on_peer : Outcome Bytes → System → System
  on_peer (raise e) s = finish (fault e ∷ []) s
  on_peer (ok peer) s = record s { phase = reading peer }

  -- `client.peer_pubkey`, and then the body of the loop once for each turn
  abbrev do_turn : Phase → Bool → System → System
  do_turn gone stop s = s
  do_turn starting stop s =
      let (r, v) =
        Driven.peer_pubkey abi (record { self = s.world.self.owner; calls = s.world.calls }) in
      on_peer r (record s {
        world = record { self = record s.world.self { owner = v.self }; calls = v.calls };
      })
  do_turn (reading peer) true s = finish [] s
  do_turn (reading peer) false s =
      let (r, w) = Stream.recv abi stream_chunk s.world in on_recv peer r (record s { world = w })

-- One action of the owner, of the consumer's `recv`, which waits on an empty queue, of a `recv` whose
-- await was cancelled, and of `aclose`. The cancelled one's thread waits on, and takes an item that
-- nobody gets.
pub data Action : Type 0 where
  turn recv recv_cancelled aclose : Action

abbrev pub take_item : List Item → System → System
take_item [] s = s
take_item (i ∷ rest) s = record s { items = rest; taken = s.taken ++ i ∷ []; got = s.got ++ i ∷ [] }

abbrev pub lose_item : List Item → System → System
lose_item [] s = s
lose_item (i ∷ rest) s = record s { items = rest; taken = s.taken ++ i ∷ []; lost = true }

unfoldable pub step : Abi → Action → System → System
unfolding Stream.close Stream.recv Stream.verify Driven.close Driven.peer_pubkey
step abi turn s = do_turn abi s.phase s.stop s
step abi recv s = take_item s.items s
step abi recv_cancelled s = lose_item s.items s
step abi aclose s = record s { stop = true }

unfoldable pub run : Abi → List Action → System → System
unfolding step
run abi [] s = s
run abi (a ∷ actions) s = run abi actions (step abi a s)
