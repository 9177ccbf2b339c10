-- ===== src/Server/Loop/Lifetime.antt =====
-- A driven server is freed once, and its callback lives as long as C may call it.
use nwep_py.Prelude.{
  Bool-cases, refl, inl, inr, ℕ, ==_iff, ◌==◌, any, all, ◌||◌, Bool, true, false, not, Option, List,
  [], ◌∷◌, ◌≡◌, arith,
}
use nwep_py.Sys.{Bytes, Ptr, Abi, Call, server, ServerCall}
use nwep_py.Sys.Exec.{World}
use nwep_py.Sys.Handles.{server_handle, freed, use_after_free}
use nwep_py.Text.{Text}
use nwep_py.Message.{Headers}
use nwep_py.Server.Responder.{StatusArg}
use nwep_py.Client.Response.{Response}
use nwep_py.Server.Loop.{
  Server, tick, respond, respond_header, relay, respond_blit, stream_send, stream_end, notify,
  next_timeout, conn_compression, set_overloaded, node_id, local_port, fileno, metrics, load,
  last_handshake_error, is_drained, drain, close, finalize, install_handler,
}

-- Whether the handler's callback was given to C.
is_install : Ptr → ServerCall → Bool
is_install h (ServerCall.set_handler s) = s == h
is_install h _ = false

is_install_call : Ptr → Call → Bool
unfolding is_install
is_install_call h (server c) = is_install h c
is_install_call h _ = false

unfoldable pub installed : Ptr → List Call → Bool
unfolding is_install_call
installed h calls = any (is_install_call h) calls

pub data ServerOp : Type 0 where
  tick_op : ℕ → ServerOp
  respond_op : ℕ → ℕ → StatusArg → Bytes → ServerOp
  respond_header_op : ℕ → ℕ → Text → Text → ServerOp
  relay_op : ℕ → ℕ → Response → ServerOp
  respond_blit_op stream_send_op : ℕ → ℕ → Bytes → ServerOp
  stream_end_op : ℕ → ℕ → ServerOp
  notify_op : ℕ → Text → Bytes → Option Headers → ServerOp
  next_timeout_op conn_compression_op : ℕ → ServerOp
  set_overloaded_op : Bool → ServerOp
  node_id_op local_port_op fileno_op metrics_op load_op last_handshake_error_op : ServerOp
  is_drained_op drain_op close_op install_op : ServerOp

pub step : Abi → ServerOp → World Server → World Server
step abi (tick_op now) w = (tick abi now w).1
step abi (respond_op c s status body) w = (respond abi c s status body w).1
step abi (respond_header_op c s n v) w = (respond_header abi c s n v w).1
step abi (relay_op c s origin) w = (relay abi c s origin w).1
step abi (respond_blit_op c s frame) w = (respond_blit abi c s frame w).1
step abi (stream_send_op c s body) w = (stream_send abi c s body w).1
step abi (stream_end_op c s) w = (stream_end abi c s w).1
step abi (notify_op c event body headers) w = (notify abi c event body headers w).1
step abi (next_timeout_op now) w = (next_timeout abi now w).1
step abi (conn_compression_op c) w = (conn_compression abi c w).1
step abi (set_overloaded_op on) w = (set_overloaded abi on w).1
step abi node_id_op w = (node_id abi w).1
step abi local_port_op w = (local_port abi w).1
step abi fileno_op w = (fileno abi w).1
step abi metrics_op w = (metrics abi w).1
step abi load_op w = (load abi w).1
step abi last_handshake_error_op w = (last_handshake_error abi w).1
step abi is_drained_op w = (is_drained abi w).1
step abi drain_op w = (drain abi w).1
step abi close_op w = (close abi w).1
step abi install_op w = (install_handler abi w).1

pub run : Abi → List ServerOp → World Server → World Server
run abi [] w = w
run abi (op ∷ ops) w = run abi ops (step abi op w)

-- The flag says whether the server was freed, nothing touched it after that, and while C holds a
-- callback of an open server the callback is kept.
pub record IsSound (h : Ptr) (w : World Server) : Type 0 where
  pub handle : w.self.handle ≡ h
  pub flagged : freed (server_handle h) w.calls ≡ w.self.closed
  pub sound : use_after_free (server_handle h) w.calls ≡ false
  pub kept : not (installed h w.calls) || w.self.closed || w.self.handler_cb ≡ true

abbrev pub uses_open : ServerOp → Bool
uses_open close_op = false
uses_open _ = true

-- A body of a with-block that does not close the server itself.
abbrev pub in_block : List ServerOp → Bool
in_block ops = all uses_open ops

module _ (abi : Abi) (h : Ptr) where
  step-IsSound :
      (op : ServerOp) (w : World Server)
      → IsSound h w
      → not w.self.closed || not (uses_open op) ≡ true
      → IsSound h (step abi op w)
  unfolding step tick respond respond_header relay respond_blit stream_send stream_end notify drain
      next_timeout conn_compression set_overloaded node_id local_port fileno metrics load
      last_handshake_error is_drained close install_handler freed use_after_free installed
  step-IsSound close_op w s g = ground (arith, ==_iff w.self.handle h)
  step-IsSound _ w s g = ground (arith, ==_iff w.self.handle h)

  step_open :
      (op : ServerOp) (w : World Server)
      → uses_open op ≡ true
      → (step abi op w).self.closed ≡ w.self.closed
  unfolding step tick respond respond_header relay respond_blit stream_send stream_end notify drain
      next_timeout conn_compression set_overloaded node_id local_port fileno metrics load
      last_handshake_error is_drained close install_handler
  step_open close_op w g = ground arith
  step_open _ w g = ground arith

  run_open :
      (ops : List ServerOp) (w : World Server)
      → in_block ops ≡ true
      → w.self.closed ≡ false
      → IsSound h w
      → IsSound h (run abi ops w) × ((run abi ops w).self.closed ≡ false)
  unfolding run
  run_open [] w g o s = (s, o)
  run_open (op ∷ ops) w g o s =
      run_open ops (step abi op w) (ground arith) (ground (arith, step_open op w))
        (step-IsSound op w s (ground arith))

  close_frees :
      (w : World Server)
      → IsSound h w
      → w.self.closed ≡ false
      → freed (server_handle h) (step abi close_op w).calls ≡ true
  unfolding step close freed
  close_frees w s o = ground (arith, ==_iff h h)

  close_again : (w : World Server) → step abi close_op (step abi close_op w) ≡ step abi close_op w
  unfolding step close
  close_again w = elim (Bool-cases w.self.closed) [ inl c ↦ ground arith | inr c ↦ ground arith ]

  -- A with-block over an open server whose body calls any of its methods but `close`: its callback is kept all along
  -- once it was given to C, the server has been freed at the exit, a second close changes
  -- nothing, and no call touches the server after it was freed. The finalizer of one that was not
  -- closed does what the exit does.
  pub server_block_frees :
      (ops : List ServerOp) (w : World Server)
      → in_block ops ≡ true
      → w.self.closed ≡ false
      → IsSound h w
      → IsSound h (run abi ops w)
        × IsSound h (step abi close_op (run abi ops w))
        × (freed (server_handle h) (step abi close_op (run abi ops w)).calls ≡ true)
        × (step abi close_op (step abi close_op (run abi ops w))
            ≡ step abi close_op (run abi ops w))
        × ((finalize abi (run abi ops w)).1 ≡ step abi close_op (run abi ops w))
  unfolding step close finalize
  server_block_frees ops w g o s =
      let (sound, still) = run_open ops w g o s in
      let v = run abi ops w in
      (
        sound,
        step-IsSound close_op v sound (ground arith),
        close_frees v sound still,
        close_again v,
        refl,
      )
