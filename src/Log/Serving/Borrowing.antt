-- ===== src/Log/Serving/Borrowing.antt =====
-- A log server borrows its log: when the two are closed, and what a dispatch does to a responder.
use nwep_py.Prelude.{
  refl, ◌∙◌, ℕ, ◌==◌, ==_iff, Bool, true, false, not, ◌&&◌, ◌||◌, List, [], ◌∷◌, ◌≡◌, arith,
  if◌then◌else◌,
}
use nwep_py.Sys.{Bytes, Ptr, Abi, Call, log, LogCall}
use nwep_py.Sys.Exec.{World}
use nwep_py.Sys.Handles.{log_handle, log_server_handle, freed, use_after_free}
use nwep_py.Log.Tree
use nwep_py.Log.Tree.{Log, append, size, root}
use nwep_py.Log.Serving.{LogServer, on_append, dispatch, close}
use nwep_py.Server.Request.{Request}
use nwep_py.Server.Responder.{Responder}

-- A log and the server over it.
pub record Endpoints : Type 0 where
  pub tree : Log
  pub served : LogServer

pub data EndpointsOp : Type 0 where
  append_op : Bytes → EndpointsOp
  size_op root_op close_server_op close_log_op : EndpointsOp
  on_append_op : Bool → EndpointsOp
  dispatch_op : Request → Responder → ℕ → EndpointsOp

abbrev tree_of : World Endpoints → World Log
tree_of w = record { self = w.self.tree; calls = w.calls }

abbrev with_tree : World Endpoints → World Log → World Endpoints
with_tree w v = record { self = record w.self { tree = v.self }; calls = v.calls }

abbrev served_of : World Endpoints → World LogServer
served_of w = record { self = w.self.served; calls = w.calls }

abbrev with_served : World Endpoints → World LogServer → World Endpoints
with_served w v = record { self = record w.self { served = v.self }; calls = v.calls }

unfoldable pub step : Abi → EndpointsOp → World Endpoints → World Endpoints
unfolding append size root Tree.close on_append dispatch close
step abi (append_op entry) w = with_tree w (append abi entry (tree_of w)).1
step abi size_op w = with_tree w (size abi (tree_of w)).1
step abi root_op w = with_tree w (root abi (tree_of w)).1
step abi close_log_op w = with_tree w (Tree.close abi (tree_of w)).1
step abi (on_append_op b) w = with_served w (on_append abi b (served_of w)).1
step abi (dispatch_op req res now) w =
    let (r, v) = dispatch abi w.self.served req now (record { self = res; calls = w.calls }) in
    record w { calls = v.calls }
step abi close_server_op w = with_served w (close abi (served_of w)).1

unfoldable pub run : Abi → List EndpointsOp → World Endpoints → World Endpoints
unfolding step
run abi [] w = w
run abi (op ∷ ops) w = run abi ops (step abi op w)

-- Whether a call has the server use its log.
is_routing : Ptr → Call → Bool
is_routing hs (log (LogCall.server_dispatch s c q r n)) = s == hs
is_routing hs _ = false

-- Whether the server was dispatched to after its log was freed.
unfoldable pub stale : Ptr → Ptr → List Call → Bool
unfolding is_routing
stale hl hs [] = false
stale hl hs (c ∷ older) = is_routing hs c && freed (log_handle hl) older || stale hl hs older

-- The hook that C holds: the latest that it was given.
unfoldable pub holds_hook : Ptr → List Call → Bool
holds_hook hs [] = false
holds_hook hs (log (LogCall.server_set_on_append s on) ∷ older) =
    if s == hs then on else holds_hook hs older
holds_hook hs (c ∷ older) = holds_hook hs older

-- The flags say what was freed, nothing freed was used, and while C holds a hook of an open server
-- its callback is kept.
pub record IsSound (hl hs : Ptr) (w : World Endpoints) : Type 0 where
  pub log_ptr : w.self.tree.handle ≡ hl
  pub server_ptr : w.self.served.handle ≡ hs
  pub log_flag : freed (log_handle hl) w.calls ≡ w.self.tree.closed
  pub server_flag : freed (log_server_handle hs) w.calls ≡ w.self.served.closed
  pub log_sound : use_after_free (log_handle hl) w.calls ≡ false
  pub server_sound : use_after_free (log_server_handle hs) w.calls ≡ false
  pub fresh : stale hl hs w.calls ≡ false
  pub kept : not (holds_hook hs w.calls) || w.self.served.closed || w.self.served.append_cb ≡ true

-- Whether the code may do it: `on_append` and `dispatch` do not look whether their server is closed, and
-- a dispatch uses the log too.
abbrev pub may : EndpointsOp → World Endpoints → Bool
may (on_append_op b) w = not w.self.served.closed
may (dispatch_op req res now) w = not (w.self.served.closed || w.self.tree.closed)
may _ w = true

-- A body that calls these two while they are open, and all else at any time.
unfoldable pub careful : Abi → List EndpointsOp → World Endpoints → Bool
unfolding step
careful abi [] w = true
careful abi (op ∷ ops) w = may op w && careful abi ops (step abi op w)

module _ (abi : Abi) (hl hs : Ptr) where
  step-IsSound :
      (op : EndpointsOp) (w : World Endpoints)
      → may op w ≡ true
      → IsSound hl hs w
      → IsSound hl hs (step abi op w)
  unfolding step freed use_after_free stale holds_hook
  step-IsSound (on_append_op true) w u s = ground (arith, ==_iff hs hs)
  step-IsSound (on_append_op false) w u s = ground (arith, ==_iff hs hs)
  step-IsSound (dispatch_op req res now) w u s = ground (arith, ==_iff hs hs)
  step-IsSound close_server_op w u s = ground (arith, ==_iff hs hs)
  step-IsSound _ w u s = ground (arith, ==_iff hl hl)

  run-IsSound :
      (ops : List EndpointsOp) (w : World Endpoints)
      → careful abi ops w ≡ true
      → IsSound hl hs w
      → IsSound hl hs (run abi ops w)
  unfolding run careful
  run-IsSound [] w u s = s
  run-IsSound (op ∷ ops) w u s =
      run-IsSound ops (step abi op w) (ground arith) (step-IsSound op w (ground arith) s)

  close_log-closed : (w : World Endpoints) → (step abi close_log_op w).self.tree.closed ≡ true
  unfolding step
  close_log-closed w = ground arith

  close_server-closed :
      (w : World Endpoints)
      → (step abi close_log_op (step abi close_server_op w)).self.served.closed ≡ true
  unfolding step
  close_server-closed w = ground arith

  -- A with-block of a log server inside the with-block of its log. Its body may close either at any
  -- time and go on with it, but sets a hook only while the server is open and dispatches only while both
  -- are: all along C has the callback of the hook that it holds, and at the end both are freed, neither
  -- was used after it was freed, and the server was not dispatched to without its log.
  pub nested_blocks_free :
      (ops : List EndpointsOp) (w : World Endpoints)
      → careful abi ops w ≡ true
      → IsSound hl hs w
      → IsSound hl hs (run abi ops w)
        × IsSound hl hs (step abi close_log_op (step abi close_server_op (run abi ops w)))
        × (freed
              (log_handle hl)
              (step abi close_log_op (step abi close_server_op (run abi ops w))).calls
            ≡ true)
        × (freed
              (log_server_handle hs)
              (step abi close_log_op (step abi close_server_op (run abi ops w))).calls
            ≡ true)
  nested_blocks_free ops w u s =
      let t = run-IsSound ops w u s in
      let v = step abi close_server_op (run abi ops w) in
      let closed =
        step-IsSound close_log_op v refl (step-IsSound close_server_op (run abi ops w) refl t) in
      (
        t,
        closed,
        closed.log_flag ∙ close_log-closed v,
        closed.server_flag ∙ close_server-closed (run abi ops w),
      )

  -- A log that is closed before its server: the next dispatch has C use the freed log.
  pub dispatch_after_log_close :
      (req : Request) (res : Responder) (now : ℕ) (w : World Endpoints)
      → w.self.tree.handle ≡ hl
      → w.self.tree.closed ≡ false
      → w.self.served.handle ≡ hs
      → stale hl hs (step abi (dispatch_op req res now) (step abi close_log_op w)).calls ≡ true
  unfolding step stale freed
  dispatch_after_log_close req res now w h c e = ground (arith, ==_iff hl hl, ==_iff hs hs)
