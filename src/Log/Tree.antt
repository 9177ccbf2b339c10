-- ===== src/Log/Tree.antt =====
-- `Log` of nwep/log.py: a merkle tree of raw entries, in C memory.
use nwep_py.Prelude.{ℕ, zero, suc, Bool, true, false}
use nwep_py.Errors.{Exc, value_error, instance_of, nwep, family_error, internal}
use nwep_py.Sys.{Bytes, Ptr, nodeid_size, Abi, log, LogCall, read_buffer}
use nwep_py.Sys.Exec.{Exec, pure, throw, get, put, ◌>>=◌, ◌>>◌, raise_if, checked, ccall, swallowed}

pub record Log : Type 0 where
  pub handle : Ptr
  pub closed : Bool

-- `InternalError(…)`
abbrev pub internal_error : Exc
internal_error = nwep (instance_of (family_error internal))

-- `_check_open`
unfoldable pub check_open : Exec Log (Unit {0})
unfolding ◌>>=◌ raise_if
check_open = do l ← get; raise_if l.closed value_error

module _ (abi : Abi) where
  abbrev made : {S : Type 0} → Ptr → Exec S Log
  made zero = throw internal_error
  made (suc p) = pure (record { handle = suc p; closed = false })

  -- `Log()`
  unfoldable pub create : {S : Type 0} → Exec S Log
  unfolding ◌>>=◌ ccall throw pure
  create = do handle ← ccall abi (log LogCall.create); made handle

  unfoldable pub append : Bytes → Exec Log ℕ
  unfolding ◌>>=◌ ◌>>◌ check_open ccall checked
  append entry = do
    check_open
    l ← get
    rc ← ccall abi (log (LogCall.append l.handle entry))
    checked rc

  unfoldable pub size : Exec Log ℕ
  unfolding ◌>>=◌ ◌>>◌ check_open ccall
  size = do check_open; l ← get; ccall abi (log (LogCall.size l.handle))

  unfoldable pub root : Exec Log Bytes
  unfolding ◌>>=◌ ◌>>◌ check_open ccall checked pure
  root = do
    check_open
    l ← get
    (rc, out) ← ccall abi (log (LogCall.root l.handle))
    checked rc
    pure (read_buffer nodeid_size out)

  abbrev free_if_open : Bool → Exec Log (Unit {0})
  free_if_open true = pure tt
  free_if_open false = do
    l ← get
    ccall abi (log (LogCall.free l.handle))
    put (record l { closed = true })

  unfoldable pub close : Exec Log (Unit {0})
  unfolding ◌>>=◌ ◌>>◌ ccall
  close = do l ← get; free_if_open l.closed

  -- `__del__`
  unfoldable pub finalize : Exec Log (Unit {0})
  unfolding close swallowed
  finalize = swallowed close
