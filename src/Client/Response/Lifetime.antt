-- ===== src/Client/Response/Lifetime.antt =====
-- A response frees its message once and reads it only before: all but `status` and the generators of
-- `headers`, which read it after too.
use nwep_py.Prelude.{
  Bool, not, ◌&&◌, Bool-cases, inl, inr, refl, ℕ, true, false, List, [], ◌∷◌, ◌≡◌, arith, ==_iff,
}
use nwep_py.Sys.{Ptr, Abi}
use nwep_py.Sys.Exec.{World}
use nwep_py.Sys.Handles.{message_handle, freed, use_after_free}
use nwep_py.Text.{Text}
use nwep_py.Wire.{Status}
use nwep_py.Client.Response.{
  finalize, next_header, Response, status, header, headers, header_count, body, lend, close,
}

-- The methods, and the reading of the next header by a generator that `headers` gave, which stands at
-- some index.
pub data ResponseOp : Type 0 where
  status_op : (Status → Text) → ResponseOp
  header_op : Text → ResponseOp
  next_op : ℕ → ResponseOp
  headers_op header_count_op body_op lend_op close_op : ResponseOp

-- The object after a method, whether it returned or raised.
unfoldable pub step : Abi → ResponseOp → World Response → World Response
unfolding status next_header header headers header_count body lend close
step abi (status_op tokens) w = (status abi tokens w).1
step abi (header_op name) w = (header abi name w).1
step abi headers_op w = (headers abi w).1
step abi (next_op i) w = (next_header abi (record { msg = w.self.msg; index = i }) w).1
step abi header_count_op w = (header_count abi w).1
step abi body_op w = (body abi w).1
step abi lend_op w = (lend abi w).1
step abi close_op w = (close abi w).1

pub run : Abi → List ResponseOp → World Response → World Response
unfolding step
run abi [] w = w
run abi (op ∷ ops) w = run abi ops (step abi op w)

-- Whether the code may do it: `status` and a generator do not look whether the response is closed.
abbrev pub may : ResponseOp → World Response → Bool
may (status_op tokens) w = not w.self.closed
may (next_op i) w = not w.self.closed
may _ w = true

-- A body that reads these two while the response is open, and calls all else at any time.
unfoldable pub careful : Abi → List ResponseOp → World Response → Bool
unfolding step
careful abi [] w = true
careful abi (op ∷ ops) w = may op w && careful abi ops (step abi op w)

-- The flag `closed` says whether the message was freed, and nothing touched it after that.
pub record IsSound (m : Ptr) (w : World Response) : Type 0 where
  pub owns : w.self.msg ≡ m
  pub flagged : freed (message_handle m) w.calls ≡ w.self.closed
  pub sound : use_after_free (message_handle m) w.calls ≡ false

module _ (abi : Abi) (m : Ptr) where
  step-IsSound :
      (op : ResponseOp) (w : World Response)
      → may op w ≡ true
      → IsSound m w
      → IsSound m (step abi op w)
  unfolding step status next_header header headers header_count body lend close freed use_after_free
  step-IsSound _ w u h = ground (arith, ==_iff w.self.msg m)

  run-IsSound :
      (ops : List ResponseOp) (w : World Response)
      → careful abi ops w ≡ true
      → IsSound m w
      → IsSound m (run abi ops w)
  unfolding run careful
  run-IsSound [] w u h = h
  run-IsSound (op ∷ ops) w u h =
      run-IsSound ops (step abi op w) (ground arith) (step-IsSound op w (ground arith) h)

  close_again : (w : World Response) → step abi close_op (step abi close_op w) ≡ step abi close_op w
  unfolding step close
  close_again w = elim (Bool-cases w.self.closed) [ inl c ↦ ground arith | inr c ↦ ground arith ]

  -- A with-block over a sound response. Its body may close it and go on with it, but reads `status` and
  -- the headers of a generator only while it is open: the message has been freed at the exit, and no call
  -- touches it after it was freed, a second free included. The finalizer of an object that was not
  -- closed does what the exit does, and after the exit it changes nothing.
  pub with_block_frees :
      (ops : List ResponseOp) (w : World Response)
      → careful abi ops w ≡ true
      → IsSound m w
      → (freed (message_handle m) (step abi close_op (run abi ops w)).calls ≡ true)
        × (use_after_free (message_handle m) (step abi close_op (run abi ops w)).calls ≡ false)
        × ((finalize abi (run abi ops w)).1 ≡ step abi close_op (run abi ops w))
        × ((finalize abi (step abi close_op (run abi ops w))).1 ≡ step abi close_op (run abi ops w))
  unfolding step close freed use_after_free finalize
  with_block_frees ops w u h =
      let t = run-IsSound ops w u h in
      (ground (arith, t), ground (arith, t), refl, close_again (run abi ops w))

  -- Reading `status` of a closed response reads the message that was freed.
  pub status_after_close :
      (tokens : Status → Text) (w : World Response)
      → IsSound m w
      → w.self.closed ≡ true
      → use_after_free (message_handle m) (status abi tokens w).1.calls ≡ true
  unfolding status freed use_after_free
  status_after_close tokens w h c = ground arith

  -- So does a generator of headers that is read on behind the close.
  pub next_header_after_close :
      (i : ℕ) (w : World Response)
      → IsSound m w
      → w.self.closed ≡ true
      → use_after_free
          (message_handle m)
          (next_header abi (record { msg = w.self.msg; index = i }) w).1.calls
        ≡ true
  unfolding next_header freed use_after_free
  next_header_after_close i w h c = ground arith
