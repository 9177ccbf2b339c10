-- ===== src/Sys/Names.antt =====
-- nwep/_sys.py: the functions of identities, of addresses and of URIs.
use nwep_py.Prelude.{ℕ, Option, ℤ}
use nwep_py.Sys.Base.{Bytes, Ptr}

-- A key pair is the address of its `nwep_keypair`. `zeroize` is given secret memory and its length.
pub data IdentityCall : Type 0 where
  generate : IdentityCall
  load_pem nodeid_from_pubkey nodeid_from_base58 nodeid_to_base58 uri_parse : Bytes → IdentityCall
  save_pem : Ptr → IdentityCall
  nodeid_verify : Bytes → Bytes → IdentityCall
  sign : Ptr → Bytes → IdentityCall
  verify : Bytes → Bytes → Bytes → IdentityCall
  zeroize : Ptr → ℕ → IdentityCall
  loopback wildcard : ℕ → IdentityCall
  ipv4_mapped : ℕ → ℕ → ℕ → ℕ → ℕ → IdentityCall
  from_bytes : Bytes → ℕ → IdentityCall
  get_port : Bytes → IdentityCall

-- `generate` and `load_pem` fill a key pair: its address, and its public half. `save_pem` and
-- `nodeid_to_base58` answer the bytes up to the length that they store.
abbrev pub IdentityRet : IdentityCall → Type 0
IdentityRet generate = ℤ × Bytes × Ptr × Bytes
IdentityRet (load_pem pem) = ℤ × Ptr × Bytes
IdentityRet (nodeid_from_pubkey key) = ℤ × Bytes
IdentityRet (nodeid_from_base58 text) = ℤ × Bytes
IdentityRet (nodeid_to_base58 id) = ℤ × Bytes
IdentityRet (uri_parse text) = ℤ × Bytes × ℕ × Option Bytes
IdentityRet (save_pem kp) = ℤ × Bytes
IdentityRet (nodeid_verify id key) = ℤ
IdentityRet (sign kp msg) = ℤ × Bytes
IdentityRet (verify sig msg key) = ℤ
IdentityRet (zeroize secret size) = Unit {0}
IdentityRet (get_port addr) = ℕ
IdentityRet _ = Bytes
