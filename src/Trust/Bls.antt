-- ===== src/Trust/Bls.antt =====
-- nwep/trust/bls.py: BLS key pairs and signatures, and `_expect` over a sequence.
use nwep_py.Prelude.{ℕ, Bool, true, false, not, List, [], ◌∷◌, ◌++◌, pos, eq_ℤ, length}
use nwep_py.Errors.{value_error, runtime_error}
use nwep_py.Sys.{
  Bytes, Ptr, bls_pubkey_size, bls_seckey_size, bls_signature_size, Abi, trust, TrustCall, identity,
  IdentityCall, read_buffer,
}
use nwep_py.Sys.Exec.{Exec, pure, throw, get, put, ◌>>=◌, ◌>>◌, raise_if, checked, ccall, swallowed}
use nwep_py.Cache.{expect}

-- `_sk` with the secret that C wrote to it.
pub record BlsKeypair : Type 0 where
  pub sk : Ptr
  pub secret : Bytes
  pub public_key : Bytes
  pub closed : Bool

module _ {S : Type 0} where
  -- `_require_trust`
  unfoldable pub require_trust : Bool → Exec S (Unit {0})
  unfolding raise_if
  require_trust available = raise_if (not available) runtime_error

  -- The loop that checks each piece and adds it to a blob.
  unfoldable pub gather : ℕ → List Bytes → Exec S Bytes
  unfolding ◌>>=◌ ◌>>◌ pure expect
  gather size [] = pure []
  gather size (piece ∷ pieces) = do
    expect piece size
    blob ← gather size pieces
    pure (piece ++ blob)

  -- `_secret_bytes`, for a method of another object.
  unfoldable pub secret_of : BlsKeypair → Exec S Bytes
  unfolding ◌>>◌ raise_if pure
  secret_of kp = do raise_if kp.closed value_error; pure kp.secret

-- `_check_open`
unfoldable pub check_open : Exec BlsKeypair (Unit {0})
unfolding ◌>>=◌ raise_if
check_open = do k ← get; raise_if k.closed value_error

module _ (abi : Abi) (available : Bool) {S : Type 0} where
  unfoldable pub generate : Exec S BlsKeypair
  unfolding ◌>>=◌ ◌>>◌ require_trust ccall checked pure
  generate = do
    require_trust available
    (rc, sk, secret, pk) ← ccall abi (trust TrustCall.bls_keygen)
    checked rc
    pure (record {
      sk = sk;
      secret = read_buffer bls_seckey_size secret;
      public_key = read_buffer bls_pubkey_size pk;
      closed = false;
    })

  unfoldable pub bls_verify : Bytes → Bytes → Bytes → Exec S Bool
  unfolding ◌>>=◌ ◌>>◌ require_trust expect ccall pure
  bls_verify signature public_key msg = do
    require_trust available
    expect signature bls_signature_size
    expect public_key bls_pubkey_size
    rc ← ccall abi (trust (TrustCall.bls_verify signature public_key msg))
    pure (eq_ℤ rc (pos 0))

  abbrev pub aggregate_some : List Bytes → Exec S Bytes
  aggregate_some [] = throw value_error
  aggregate_some (s ∷ signatures) = do
    blob ← gather bls_signature_size (s ∷ signatures)
    (rc, out) ← ccall abi (trust (TrustCall.bls_aggregate blob (length (s ∷ signatures))))
    checked rc
    pure (read_buffer bls_signature_size out)

  unfoldable pub bls_aggregate : List Bytes → Exec S Bytes
  unfolding ◌>>=◌ ◌>>◌ require_trust gather ccall checked pure throw
  bls_aggregate signatures = do require_trust available; aggregate_some signatures

  abbrev pub verify_some : Bytes → List Bytes → Bytes → Exec S Bool
  verify_some signature [] msg = throw value_error
  verify_some signature (k ∷ keys) msg = do
    blob ← gather bls_pubkey_size (k ∷ keys)
    rc ← ccall abi (trust (TrustCall.bls_verify_aggregate signature blob (length (k ∷ keys)) msg))
    pure (eq_ℤ rc (pos 0))

  unfoldable pub bls_verify_aggregate : Bytes → List Bytes → Bytes → Exec S Bool
  unfolding ◌>>=◌ ◌>>◌ require_trust expect gather ccall pure throw
  bls_verify_aggregate aggregate_signature public_keys msg = do
    require_trust available
    expect aggregate_signature bls_signature_size
    verify_some aggregate_signature public_keys msg

module _ (abi : Abi) where
  unfoldable pub sign : Bytes → Exec BlsKeypair Bytes
  unfolding ◌>>=◌ ◌>>◌ check_open ccall checked pure
  sign msg = do
    check_open
    k ← get
    (rc, out) ← ccall abi (trust (TrustCall.bls_sign k.sk msg))
    checked rc
    pure (read_buffer bls_signature_size out)

  abbrev wipe_if_open : Bool → Exec BlsKeypair (Unit {0})
  wipe_if_open true = pure tt
  wipe_if_open false = do
    k ← get
    ccall abi (identity (IdentityCall.zeroize k.sk bls_seckey_size))
    put (record k { closed = true })

  unfoldable pub close : Exec BlsKeypair (Unit {0})
  unfolding ◌>>=◌ ◌>>◌ ccall pure put
  close = do k ← get; wipe_if_open k.closed

  -- `__del__`
  unfoldable pub finalize : Exec BlsKeypair (Unit {0})
  unfolding close swallowed
  finalize = swallowed close
