-- ===== src/Client/Stream/Lifetime.antt =====
-- A stream and the client under it, closed in any order.
use nwep_py.Prelude.{
  ℕ, ◌+◌, ◌≤◌, Bool, true, false, not, List, [], ◌∷◌, ◌≡◌, arith, ==_iff, if◌then◌else◌,
}
use nwep_py.Sys.{Bytes, Ptr, Abi, Call, client, ClientCall}
use nwep_py.Sys.Exec.{World}
use nwep_py.Sys.Handles.{client_handle, freed, use_after_free}
use nwep_py.Client.Driven
use nwep_py.Client.Driven.{Client}
use nwep_py.Client.Stream.{Stream, response, recv, verify, close}

pub data StreamOp : Type 0 where
  response_op close_op close_client_op : StreamOp
  recv_op : ℕ → StreamOp
  verify_op : Bytes → StreamOp

close_owner : Abi → World Stream → World Stream
close_owner abi w =
    let (r, v) = Driven.close abi (record { self = w.self.owner; calls = w.calls }) in
    record { self = record w.self { owner = v.self }; calls = v.calls }

pub step : Abi → StreamOp → World Stream → World Stream
unfolding close_owner
step abi response_op w = (response abi w).1
step abi close_op w = (close abi w).1
step abi close_client_op w = close_owner abi w
step abi (recv_op size) w = (recv abi size w).1
step abi (verify_op key) w = (verify abi key w).1

pub run : Abi → List StreamOp → World Stream → World Stream
run abi [] w = w
run abi (op ∷ ops) w = run abi ops (step abi op w)

-- The calls that release a stream's bookkeeping.
is_release : ClientCall → Bool
is_release (ClientCall.stream_close c s) = true
is_release _ = false

is_release_call : Call → Bool
unfolding is_release
is_release_call (client c) = is_release c
is_release_call _ = false

pub releases : List Call → ℕ
unfolding is_release_call
releases [] = 0
releases (c ∷ older) = (if is_release_call c then 1 else 0) + releases older

-- The flag of the client says whether it was freed, and nothing touched it after that.
pub record IsSound (h : Ptr) (w : World Stream) : Type 0 where
  pub handle : w.self.owner.handle ≡ h
  pub flagged : freed (client_handle h) w.calls ≡ w.self.owner.closed
  pub sound : use_after_free (client_handle h) w.calls ≡ false

-- Closing the stream and closing the client, and any method while the client is open.
abbrev pub is_safe : StreamOp → Bool → Bool
is_safe close_op closed = true
is_safe close_client_op closed = true
is_safe _ closed = not closed

spent : World Stream → ℕ
spent w = releases w.calls + (if w.self.closed then 0 else 1)

module _ (abi : Abi) (h : Ptr) where
  -- A close of the stream or of the client at any time, and any method of the stream while the client
  -- is open, keeps it sound: the freed client is not touched.
  pub stream_step-IsSound :
      (op : StreamOp) (w : World Stream)
      → IsSound h w
      → is_safe op w.self.owner.closed ≡ true
      → IsSound h (step abi op w)
  unfolding step response recv verify close Driven.close freed use_after_free
  stream_step-IsSound close_op w s g = ground (arith, ==_iff w.self.owner.handle h)
  stream_step-IsSound _ w s g = ground (arith, ==_iff w.self.owner.handle h)

  step_releases : (op : StreamOp) (w : World Stream) → spent (step abi op w) ≤ spent w
  unfolding spent step response recv verify close Driven.close releases
  step_releases close_op w = ground arith
  step_releases _ w = ground arith

  spent-run : (ops : List StreamOp) (w : World Stream) → spent (run abi ops w) ≤ spent w
  unfolding run
  spent-run [] w = omega arith
  spent-run (op ∷ ops) w = omega (arith, spent-run ops (step abi op w), step_releases op w)

  -- Whatever is called on a stream, its bookkeeping is released at most once.
  pub run-releases_once :
      (ops : List StreamOp) (w : World Stream)
      → releases (run abi ops w).calls ≤ releases w.calls + 1
  unfolding spent
  run-releases_once ops w = ground (arith, spent-run ops w)

  -- `recv` looks whether the stream is open and not whether its client is: behind a close of the
  -- client it touches the client that was freed.
  pub recv_after_client_close :
      (size : ℕ) (w : World Stream)
      → IsSound h w
      → w.self.owner.closed ≡ true
      → w.self.closed ≡ false
      → use_after_free (client_handle h) (recv abi size w).1.calls ≡ true
  unfolding recv use_after_free
  recv_after_client_close size w s c o = ground (arith, ==_iff h h)
