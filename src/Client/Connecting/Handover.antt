-- ===== src/Client/Connecting/Handover.antt =====
-- A handshake and the client that it hands its connection to free that connection once between them.
use nwep_py.Prelude.{
  ℤ, pos, negsuc, any, ◌&&◌, ◌||◌, ◌==◌, ℕ, Bool, true, false, Option, none, some, List, [], ◌∷◌,
  ◌≡◌, refl, arith, ==_iff,
}
use nwep_py.Errors.{Outcome, ok, raise}
use nwep_py.Sys.{Ptr, Abi, Call, client, ClientCall}
use nwep_py.Sys.Exec.{World}
use nwep_py.Sys.Handles.{client_handle, same_handle, handles, freed, use_after_free}
use nwep_py.Client.Driven
use nwep_py.Client.Driven.{Client}
use nwep_py.Client.Connecting
use nwep_py.Client.Connecting.{Connecting}

-- The handshake, and the client once there is one.
pub record Pair : Type 0 where
  pub connecting : Connecting
  pub made : Option Client

-- What the user of both does; closing a client that is not there yet is nothing.
pub data PairOp : Type 0 where
  poll close_connecting close_client : PairOp

keep : Option Client → Outcome (Option Client) → Option Client
keep before (ok none) = before
keep before (ok (some c)) = some c
keep before (raise e) = before

close_made : Abi → Option Client → World Pair → World Pair
close_made abi none w = w
close_made abi (some c) w =
    let (r, v) = Driven.close abi (record { self = c; calls = w.calls }) in
    record { self = record w.self { made = some v.self }; calls = v.calls }

pub step : Abi → PairOp → World Pair → World Pair
unfolding keep close_made
step abi poll w =
    let (r, v) = Connecting.poll abi (record { self = w.self.connecting; calls = w.calls }) in
    record { self = record { connecting = v.self; made = keep w.self.made r }; calls = v.calls }
step abi close_connecting w =
    let (r, v) = Connecting.close abi (record { self = w.self.connecting; calls = w.calls }) in
    record { self = record w.self { connecting = v.self }; calls = v.calls }
step abi close_client w = close_made abi w.self.made w

pub run : Abi → List PairOp → World Pair → World Pair
run abi [] w = w
run abi (op ∷ ops) w = run abi ops (step abi op w)

abbrev negative : ℤ → Bool
negative (pos n) = false
negative (negsuc n) = true

-- C closes the connection of a handshake that fails: a poll frees it when its code is negative.
ends_by : Abi → Ptr → List Call → ClientCall → Bool
ends_by abi h older (ClientCall.connect_poll c) =
    c == h && negative (abi older (client (ClientCall.connect_poll c)))
ends_by abi h older (ClientCall.close c) = c == h
ends_by abi h older _ = false

-- Whether the connection was freed, by a close or by a poll that failed.
unfoldable pub ended : Abi → Ptr → List Call → Bool
unfolding ends_by
ended abi h [] = false
ended abi h (client c ∷ older) = ends_by abi h older c || ended abi h older
ended abi h (_ ∷ older) = ended abi h older

-- Whether a call touches the connection after it was freed; a second free does.
unfoldable pub misused : Abi → Ptr → List Call → Bool
unfolding handles ended
misused abi h [] = false
misused abi h (c ∷ older) =
    any (same_handle (client_handle h)) (handles c) && ended abi h older || misused abi h older

-- Only the owner named by the flags can free the connection.
abbrev Owned : Abi → Ptr → Option Client → Bool → List Call → Type 0
Owned abi h none false calls = ended abi h calls ≡ false
Owned abi h none true calls = Unit
Owned abi h (some c) false calls = ⊥
Owned abi h (some c) true calls = (c.handle ≡ h) × (ended abi h calls ≡ c.closed)

pub record IsSound (abi : Abi) (h : Ptr) (w : World Pair) : Type 0 where
  pub handle : w.self.connecting.handle ≡ h
  pub owned : Owned abi h w.self.made w.self.connecting.done w.calls
  pub sound : misused abi h w.calls ≡ false

module _ (abi : Abi) (h : Ptr) where
  step-IsSound : (op : PairOp) (w : World Pair) → IsSound abi h w → IsSound abi h (step abi op w)
  unfolding step Connecting.poll Connecting.close Driven.close ended misused
  step-IsSound poll w s = ground (arith, ==_iff w.self.connecting.handle h)
  step-IsSound close_connecting w s = ground (arith, ==_iff w.self.connecting.handle h)
  step-IsSound close_client w s = ground (arith, ==_iff w.self.connecting.handle h)

  -- Any polls and closes of a handshake and of its client, in any order, keep the pair sound: the flags
  -- say who can still free the connection, and no call touched it after it was freed, by a close or by
  -- C when a poll failed.
  pub handover-IsSound :
      (ops : List PairOp) (w : World Pair) → IsSound abi h w → IsSound abi h (run abi ops w)
  unfolding run
  handover-IsSound [] w s = s
  handover-IsSound (op ∷ ops) w s = handover-IsSound ops (step abi op w) (step-IsSound op w s)

  step_settled :
      (op : PairOp) (w : World Pair)
      → w.self.connecting.done ≡ true
      → w.self.made ≡ none
      → ((step abi op w).calls ≡ w.calls) × ((step abi op w).self ≡ w.self)
  unfolding step Connecting.poll Connecting.close
  step_settled op w d m = ground arith

  -- After a poll that ended the handshake without a client, which C has closed then, nothing is
  -- called any more.
  pub run_settled :
      (ops : List PairOp) (w : World Pair)
      → w.self.connecting.done ≡ true
      → w.self.made ≡ none
      → (run abi ops w).calls ≡ w.calls
  unfolding run
  run_settled [] w d m = refl
  run_settled (op ∷ ops) w d m =
      ground (arith, step_settled op w d m, run_settled ops (step abi op w))

-- `tick` does not look whether the handshake has ended: behind a close it touches the freed client.
pub handshake_tick_after_close :
    (abi : Abi) (now : ℕ) (w : World Connecting)
    → freed (client_handle w.self.handle) w.calls ≡ true
    → use_after_free (client_handle w.self.handle) (Connecting.tick abi now w).1.calls ≡ true
unfolding Connecting.tick use_after_free
handshake_tick_after_close abi now w f = ground (arith, ==_iff w.self.handle w.self.handle)
