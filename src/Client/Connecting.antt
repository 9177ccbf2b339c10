-- ===== src/Client/Connecting.antt =====
-- `Connecting` of nwep/client.py: a handshake in progress, which hands its connection on.
pub mod Handover
use nwep_py.Prelude.{ℕ, Bool, true, false, Option, none, some, ℤ, pos, eq_ℤ, if◌then◌else◌}
use nwep_py.Errors.{value_error}
use nwep_py.Sys.{Ptr, Abi, client, ClientCall}
use nwep_py.Sys.Exec.{Exec, pure, get, put, ◌>>=◌, ◌>>◌, raise_if, checked, ccall, swallowed}
use nwep_py.Client.Driven.{Client, new_client}

pub record Connecting : Type 0 where
  pub handle : Ptr
  pub done : Bool

abbrev pub new_connecting : Ptr → Connecting
new_connecting handle = record { handle = handle; done = false }

module _ (abi : Abi) where
  unfoldable pub fileno : Exec Connecting ℕ
  unfolding ◌>>=◌ ccall
  fileno = do c ← get; ccall abi (client (ClientCall.fd c.handle))

  unfoldable pub tick : ℕ → Exec Connecting (Unit {0})
  unfolding ◌>>=◌ ◌>>◌ ccall checked
  tick now_ms = do
    c ← get
    rc ← ccall abi (client (ClientCall.tick c.handle now_ms))
    checked rc
    pure tt

  -- The three codes of a poll: 1 hands the connection on, 0 waits, any other code ends.
  abbrev poll_code : ℤ → Exec Connecting (Option Client)
  poll_code rc =
      if eq_ℤ rc (pos 1)
      then (do c ← get; put (record c { done = true }); pure (some (new_client c.handle)))
      else if eq_ℤ rc (pos 0)
      then pure none
      else (do c ← get; put (record c { done = true }); checked rc; pure none)

  unfoldable pub poll : Exec Connecting (Option Client)
  unfolding ◌>>=◌ ◌>>◌ raise_if ccall checked
  poll = do
    c ← get
    raise_if c.done value_error
    rc ← ccall abi (client (ClientCall.connect_poll c.handle))
    poll_code rc

  abbrev close_if_pending : Bool → Exec Connecting (Unit {0})
  close_if_pending true = pure tt
  close_if_pending false = do
    c ← get
    ccall abi (client (ClientCall.close c.handle))
    put (record c { done = true })

  unfoldable pub close : Exec Connecting (Unit {0})
  unfolding ◌>>=◌ ◌>>◌ ccall
  close = do c ← get; close_if_pending c.done

  -- `__del__`
  unfoldable pub finalize : Exec Connecting (Unit {0})
  unfolding close swallowed
  finalize = swallowed close
