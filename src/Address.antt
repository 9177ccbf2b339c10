-- ===== src/Address.antt =====
-- nwep/address.py: a socket address, 32 bytes that the C library lays out.
use nwep_py.Prelude.{ℕ, Bool, not, ◌==◌, length}
use nwep_py.Errors.{value_error}
use nwep_py.Sys.{Bytes, Abi, identity, IdentityCall, read_buffer}
use nwep_py.Sys.Exec.{Exec, pure, ◌>>=◌, ◌>>◌, raise_if, ccall}
use nwep_py.Identity.{same_bytes}

abbrev pub addr_size : ℕ
addr_size = 32

abbrev ipv6_size : ℕ
ipv6_size = 16

-- `_addr`, and `bytes(address)`
pub record Address : Type 0 where
  pub raw : Bytes

abbrev pub new_address : Bytes → Address
new_address out = record { raw = read_buffer addr_size out }

-- `__eq__`
unfoldable pub same_address : Address → Address → Bool
unfolding same_bytes
same_address a b = same_bytes a.raw b.raw

module _ (abi : Abi) {S : Type 0} where
  unfoldable pub loopback : ℕ → Exec S Address
  unfolding ◌>>=◌ ccall pure
  loopback port = do out ← ccall abi (identity (IdentityCall.loopback port)); pure (new_address out)

  unfoldable pub wildcard : ℕ → Exec S Address
  unfolding ◌>>=◌ ccall pure
  wildcard port = do out ← ccall abi (identity (IdentityCall.wildcard port)); pure (new_address out)

  unfoldable pub ipv4_mapped : ℕ → ℕ → ℕ → ℕ → ℕ → Exec S Address
  unfolding ◌>>=◌ ccall pure
  ipv4_mapped a b c d port = do
    out ← ccall abi (identity (IdentityCall.ipv4_mapped a b c d port))
    pure (new_address out)

  unfoldable pub from_bytes : Bytes → ℕ → Exec S Address
  unfolding ◌>>=◌ ◌>>◌ raise_if ccall pure
  from_bytes addr port = do
    raise_if (not (length addr == ipv6_size)) value_error
    out ← ccall abi (identity (IdentityCall.from_bytes addr port))
    pure (new_address out)

  unfoldable pub port : Address → Exec S ℕ
  unfolding ccall
  port address = ccall abi (identity (IdentityCall.get_port address.raw))
