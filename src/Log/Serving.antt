-- ===== src/Log/Serving.antt =====
-- `LogServer` of nwep/log.py: the endpoints under /log/, as a sub-router of a server's handler.
pub mod Borrowing
pub mod Routing
use nwep_py.Prelude.{ℕ, zero, suc, Bool, true, false, Option, none, some, ℤ, pos, negsuc}
use nwep_py.Sys.{Bytes, Ptr, Abi, log, LogCall}
use nwep_py.Sys.Exec.{Exec, pure, throw, get, put, ◌>>=◌, ◌>>◌, checked, ccall, swallowed}
use nwep_py.Identity.{Identity, keypair}
use nwep_py.Log.Tree.{Log, internal_error}
use nwep_py.Server.Request.{Request}
use nwep_py.Server.Responder.{Responder, Reply, answered, claim}

-- `tree` is the pointer of the borrowed log; `append_cb` says whether a callback is kept.
pub record LogServer : Type 0 where
  pub handle : Ptr
  pub tree : Ptr
  pub append_cb : Bool
  pub closed : Bool

-- What `dispatch` makes of a code: handled, not a route of the log, or an error.
unfoldable pub routed : ℤ → Exec Responder (Option Reply)
unfolding ◌>>◌ pure claim checked
routed (pos zero) = do claim; pure (some answered)
routed (pos (suc zero)) = pure none
routed rc = do checked rc; pure none

module _ (abi : Abi) where
  abbrev made : {S : Type 0} → Ptr → Ptr → Exec S LogServer
  made tree zero = throw internal_error
  made tree (suc p) =
      pure (record { handle = suc p; tree = tree; append_cb = false; closed = false })

  -- `LogServer(identity, log)`; the log's pointer is given out also by a closed log.
  unfoldable pub create : {S : Type 0} → Identity → Log → Exec S LogServer
  unfolding ◌>>=◌ keypair ccall throw pure
  create owner tree = do
    kp ← keypair owner
    handle ← ccall abi (log (LogCall.server_create kp tree.handle))
    made tree.handle handle

  -- `on_append`: whether a hook is given, or None. The hook itself runs inside C's dispatch, and what
  -- it raises is printed and dropped.
  unfoldable pub on_append : Bool → Exec LogServer (Unit {0})
  unfolding ◌>>=◌ ◌>>◌ ccall put pure
  on_append false = do
    s ← get
    ccall abi (log (LogCall.server_set_on_append s.handle false))
    put (record s { append_cb = false })
  on_append true = do
    s ← get
    put (record s { append_cb = true })
    ccall abi (log (LogCall.server_set_on_append s.handle true))

  -- The method changes the responder and not the log server.
  unfoldable pub dispatch : LogServer → Request → ℕ → Exec Responder (Option Reply)
  unfolding ◌>>=◌ ccall routed
  dispatch s request now_secs = do
    r ← get
    rc ← ccall abi (log (LogCall.server_dispatch s.handle request.conn request.msg r.buf now_secs))
    routed rc

  abbrev free_if_open : Bool → Exec LogServer (Unit {0})
  free_if_open true = pure tt
  free_if_open false = do
    s ← get
    ccall abi (log (LogCall.server_free s.handle))
    put (record s { closed = true; append_cb = false })

  unfoldable pub close : Exec LogServer (Unit {0})
  unfolding ◌>>=◌ ◌>>◌ ccall put pure
  close = do s ← get; free_if_open s.closed

  -- `__del__`
  unfoldable pub finalize : Exec LogServer (Unit {0})
  unfolding close swallowed
  finalize = swallowed close
