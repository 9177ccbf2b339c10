-- ===== src/Sys/Base.antt =====
-- What every C declaration of nwep/_sys.py shares: bytes, pointers, and the sizes that the protocol fixes.
use Prim.Native.Nat.{ℕ, zero, suc}
use mathlib.Core.Path.{◌≡◌, refl}
use mathlib.Core.List.{List, [], ◌∷◌}
use native.Mathlib.Omega.{arith}
use nwep_py.Prelude.{length}

abbrev pub Bytes : Type 0
Bytes = List ℕ

abbrev pub Ptr : Type 0
Ptr = ℕ

abbrev pub null : Ptr
null = 0

abbrev pub nodeid_size : ℕ
nodeid_size = 32

abbrev pub pubkey_size : ℕ
pubkey_size = 32

abbrev pub privkey_size : ℕ
privkey_size = 32

abbrev pub sig_size : ℕ
sig_size = 64

abbrev pub bls_pubkey_size : ℕ
bls_pubkey_size = 48

abbrev pub bls_seckey_size : ℕ
bls_seckey_size = 32

abbrev pub bls_signature_size : ℕ
bls_signature_size = 96

abbrev pub default_port : ℕ
default_port = 6937

-- `bytes(ffi.buffer(out, n))` of a buffer that `ffi.new` zeroed and C wrote from its start on: n bytes,
-- whatever C wrote.
unfoldable pub read_buffer : ℕ → Bytes → Bytes
read_buffer zero raw = []
read_buffer (suc n) [] = 0 ∷ read_buffer n []
read_buffer (suc n) (b ∷ raw) = b ∷ read_buffer n raw

pub length-read_buffer : (n : ℕ) (raw : Bytes) → length (read_buffer n raw) ≡ n
unfolding read_buffer
length-read_buffer zero raw = refl
length-read_buffer (suc n) [] = omega (arith, length-read_buffer n [])
length-read_buffer (suc n) (b ∷ raw) = omega (arith, length-read_buffer n raw)
