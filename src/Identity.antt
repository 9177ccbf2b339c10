-- ===== src/Identity.antt =====
-- nwep/identity.py: node ids, key pairs and signatures.
pub mod Lifetime
pub mod Names
use nwep_py.Prelude.{
  ℕ, Bool, true, false, not, ◌&&◌, ◌==◌, none, some, Option, List, [], ◌∷◌, ℤ, pos, negsuc, eq_ℤ,
  length, ltb, all, if◌then◌else◌,
}
use nwep_py.Errors.{Exc, Outcome, ok, raise, check, value_error, unicode_error}
use nwep_py.Sys.{
  Bytes, Ptr, nodeid_size, pubkey_size, privkey_size, sig_size, Abi, identity, IdentityCall,
  read_buffer,
}
use nwep_py.Sys.Exec.{
  Exec, pure, throw, lift, get, put, ◌>>=◌, ◌>>◌, raise_if, checked, ccall, World, swallowed,
}
use nwep_py.Text.{Text}
use nwep_py.Message.{encoded, decoded}
use nwep_py.Cache.{expect}

pub record NodeId : Type 0 where
  pub raw : Bytes

-- `bytes == bytes`
unfoldable pub same_bytes : Bytes → Bytes → Bool
same_bytes [] [] = true
same_bytes (a ∷ s) (b ∷ t) = a == b && same_bytes s t
same_bytes _ _ = false

-- `__eq__`
unfoldable pub same_node_id : NodeId → NodeId → Bool
unfolding same_bytes
same_node_id a b = same_bytes a.raw b.raw

-- `_kp` with the public half that C wrote to it.
pub record Identity : Type 0 where
  pub kp : Ptr
  pub pub_key : Bytes
  pub node_id : NodeId
  pub closed : Bool

-- `text.encode("ascii")` and `raw.decode("ascii")`
unfoldable pub ascii : {S : Type 0} → List ℕ → Exec S (List ℕ)
unfolding pure throw
ascii text = if all (λ c. ltb c 128) text then pure text else throw unicode_error

-- `ffi.string`: the bytes before the first NUL.
unfoldable pub c_string : Bytes → Bytes
c_string [] = []
c_string (b ∷ raw) = if b == 0 then [] else b ∷ c_string raw

-- `NodeId(raw)`
unfoldable pub new_node_id : {S : Type 0} → Bytes → Exec S NodeId
unfolding ◌>>=◌ ◌>>◌ raise_if
new_node_id raw = do
  raise_if (not (length raw == nodeid_size)) value_error
  pure (record { raw = raw })

abbrev pub new_identity : Ptr → Bytes → NodeId → Identity
new_identity kp pub_key node_id = record {
  kp = kp;
  pub_key = pub_key;
  node_id = node_id;
  closed = false;
}

-- `_check_open`
unfoldable pub check_open : Exec Identity (Unit {0})
unfolding ◌>>=◌ raise_if
check_open = do i ← get; raise_if i.closed value_error

module _ (abi : Abi) {S : Type 0} where
  unfoldable pub from_pubkey : Bytes → Exec S NodeId
  unfolding ◌>>=◌ ◌>>◌ expect ccall checked new_node_id
  from_pubkey pubkey = do
    expect pubkey pubkey_size
    (rc, out) ← ccall abi (identity (IdentityCall.nodeid_from_pubkey pubkey))
    checked rc
    new_node_id (read_buffer nodeid_size out)

  unfoldable pub from_base58 : Text → Exec S NodeId
  unfolding ◌>>=◌ ◌>>◌ ascii ccall checked new_node_id
  from_base58 text = do
    raw ← ascii text
    (rc, out) ← ccall abi (identity (IdentityCall.nodeid_from_base58 raw))
    checked rc
    new_node_id (read_buffer nodeid_size out)

  unfoldable pub base58 : NodeId → Exec S Text
  unfolding ◌>>=◌ ◌>>◌ ascii ccall checked
  base58 id = do
    (rc, out) ← ccall abi (identity (IdentityCall.nodeid_to_base58 id.raw))
    checked rc
    ascii (c_string out)

  unfoldable pub verify : NodeId → Bytes → Exec S Bool
  unfolding ◌>>=◌ ◌>>◌ expect ccall pure
  verify id pubkey = do
    expect pubkey pubkey_size
    rc ← ccall abi (identity (IdentityCall.nodeid_verify id.raw pubkey))
    pure (eq_ℤ rc (pos 0))

  unfoldable pub verify_signature : Bytes → Bytes → Bytes → Exec S Bool
  unfolding ◌>>=◌ ◌>>◌ expect ccall pure
  verify_signature signature msg pubkey = do
    expect signature sig_size
    expect pubkey pubkey_size
    rc ← ccall abi (identity (IdentityCall.verify signature msg pubkey))
    pure (eq_ℤ rc (pos 0))

  unfoldable pub generate : Exec S Identity
  unfolding ◌>>=◌ ◌>>◌ ccall checked new_node_id pure
  generate = do
    (rc, out, kp, key) ← ccall abi (identity IdentityCall.generate)
    checked rc
    id ← new_node_id (read_buffer nodeid_size out)
    pure (new_identity kp (read_buffer pubkey_size key) id)

  -- The `except` of `from_pem`: the private half is wiped, and the exception goes on.
  unfoldable pub or_wipe : Ptr → ℤ → Exec S (Unit {0})
  unfolding pure ◌>>◌ ccall throw checked
  or_wipe kp (pos n) = pure tt
  or_wipe kp (negsuc n) = do
    ccall abi (identity (IdentityCall.zeroize kp privkey_size))
    checked (negsuc n)
    pure tt

  unfoldable pub from_pem : Text → Exec S Identity
  unfolding ◌>>=◌ ◌>>◌ encoded ccall checked or_wipe new_node_id pure
  from_pem pem = do
    raw ← encoded pem
    (rc, kp, key) ← ccall abi (identity (IdentityCall.load_pem raw))
    checked rc
    (derived, out) ←
        ccall abi (identity (IdentityCall.nodeid_from_pubkey (read_buffer pubkey_size key)))
    or_wipe kp derived
    id ← new_node_id (read_buffer nodeid_size out)
    pure (new_identity kp (read_buffer pubkey_size key) id)

module _ (abi : Abi) where
  unfoldable pub to_pem : Exec Identity Text
  unfolding ◌>>=◌ ◌>>◌ check_open ccall checked decoded
  to_pem = do
    check_open
    i ← get
    (rc, out) ← ccall abi (identity (IdentityCall.save_pem i.kp))
    checked rc
    decoded out

  unfoldable pub sign : Bytes → Exec Identity Bytes
  unfolding ◌>>=◌ ◌>>◌ check_open ccall checked pure
  sign msg = do
    check_open
    i ← get
    (rc, out) ← ccall abi (identity (IdentityCall.sign i.kp msg))
    checked rc
    pure (read_buffer sig_size out)

  abbrev wipe_if_open : Bool → Exec Identity (Unit {0})
  wipe_if_open true = pure tt
  wipe_if_open false = do
    i ← get
    ccall abi (identity (IdentityCall.zeroize i.kp privkey_size))
    put (record i { closed = true })

  unfoldable pub close : Exec Identity (Unit {0})
  unfolding ◌>>=◌ ◌>>◌ ccall
  close = do i ← get; wipe_if_open i.closed

  -- `__del__`
  unfoldable pub finalize : Exec Identity (Unit {0})
  unfolding close swallowed
  finalize = swallowed close

unfoldable pub public_key : Exec Identity Bytes
unfolding ◌>>=◌ ◌>>◌ check_open pure
public_key = do check_open; i ← get; pure i.pub_key

-- `_keypair` for a method of another object: the pointer, or ValueError on a closed identity.
unfoldable pub keypair : {S : Type 0} → Identity → Exec S Ptr
unfolding ◌>>◌ raise_if
keypair i = do raise_if i.closed value_error; pure i.kp
