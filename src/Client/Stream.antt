-- ===== src/Client/Stream.antt =====
-- `Stream` of nwep/client.py: a streamed response over a client that it shares with its user.
-- A method's object is the pair of the stream and that client.
pub mod Lifetime
use nwep_py.Prelude.{ℕ, Bool, true, false, not, ◌&&◌, ◌==◌, ◌||◌, ℤ, pos, eq_ℤ, length, take}
use nwep_py.Errors.{value_error}
use nwep_py.Sys.{Bytes, pubkey_size, Abi, client, ClientCall}
use nwep_py.Sys.Exec.{Exec, pure, get, put, ◌>>=◌, ◌>>◌, raise_if, checked, ccall}
use nwep_py.Client.Response.{Response, new_response}
use nwep_py.Client.Driven.{Client}

pub record Stream : Type 0 where
  pub owner : Client
  pub id : ℕ
  pub closed : Bool

abbrev pub new_stream : Client → ℕ → Stream
new_stream owner id = record { owner = owner; id = id; closed = false }

-- `_STREAM_CHUNK`
abbrev pub stream_chunk : ℕ
stream_chunk = 65536

unfoldable pub check_open : Exec Stream (Unit {0})
unfolding ◌>>=◌ raise_if
check_open = do s ← get; raise_if s.closed value_error

module _ (abi : Abi) where
  unfoldable pub response : Exec Stream Response
  unfolding ◌>>=◌ ◌>>◌ check_open ccall checked
  response = do
    check_open
    s ← get
    (rc, out) ← ccall abi (client (ClientCall.stream_response s.owner.handle s.id))
    checked rc
    pure (new_response out)

  unfoldable pub recv : ℕ → Exec Stream (Bytes × Bool)
  unfolding ◌>>=◌ ◌>>◌ check_open ccall checked
  recv size = do
    check_open
    s ← get
    (rc, chunk, ended) ← ccall abi (client (ClientCall.stream_recv s.owner.handle s.id size))
    checked rc
    pure (chunk, eq_ℤ ended (pos 1))

  unfoldable pub verify : Bytes → Exec Stream (Unit {0})
  unfolding ◌>>=◌ ◌>>◌ check_open raise_if ccall checked
  verify pubkey = do
    check_open
    s ← get
    raise_if (not (length pubkey == pubkey_size)) value_error
    rc ← ccall abi (client (ClientCall.stream_verify s.owner.handle s.id pubkey))
    checked rc
    pure tt

  -- `close` calls C only while both the stream and its client are open.
  abbrev release_if : Bool → Exec Stream (Unit {0})
  release_if false = pure tt
  release_if true = do s ← get; ccall abi (client (ClientCall.stream_close s.owner.handle s.id))

  unfoldable pub close : Exec Stream (Unit {0})
  unfolding ◌>>=◌ ◌>>◌ ccall
  close = do
    s ← get
    release_if (not s.closed && not s.owner.closed)
    put (record s { closed = true })
