-- ===== src/Trust/Store.antt =====
-- nwep/trust/store.py: the anchor set and the installed checkpoint, in C memory.
pub mod Lifetime
pub mod Verdicts
use nwep_py.Prelude.{
  ℕ, zero, suc, Bool, true, false, Option, none, some, List, [], ◌∷◌, ℤ, pos, neg, eq_ℤ, length,
  if◌then◌else◌,
}
use nwep_py.Errors.{value_error, nwep, from_code}
use nwep_py.Sys.{Bytes, Ptr, pubkey_size, bls_pubkey_size, Abi, trust, TrustCall, read_buffer}
use nwep_py.Sys.Exec.{Exec, pure, throw, get, put, ◌>>=◌, ◌>>◌, raise_if, checked, ccall, swallowed}
use nwep_py.Cache.{expect}
use nwep_py.Identity.{NodeId}
use nwep_py.Log.Tree.{internal_error}
use nwep_py.Log.Entries.{commit_size}
use nwep_py.Trust.Bls.{require_trust, gather}
use nwep_py.Trust.Checkpoint.{CheckpointStatus, to_status}

pub data KeyStatus : Type 0 where
  not_revoked revoked : KeyStatus

-- `KeyStatus(code)`
unfoldable pub to_key_status : {S : Type 0} → ℕ → Exec S KeyStatus
unfolding pure throw
to_key_status zero = pure not_revoked
to_key_status (suc zero) = pure revoked
to_key_status (suc (suc n)) = throw value_error

pub data KeyRotationVerdict : Type 0 where
  acceptable revoked_past_overlap not_recognized : KeyRotationVerdict

-- `_IDENTITY_MISMATCH` and `_IDENTITY_REVOKED`
abbrev pub identity_mismatch : ℤ
identity_mismatch = neg 502

abbrev pub identity_revoked : ℤ
identity_revoked = neg 504

pub record TrustStore : Type 0 where
  pub handle : Ptr
  pub closed : Bool

-- `_check_open`
unfoldable pub check_open : Exec TrustStore (Unit {0})
unfolding ◌>>=◌ raise_if
check_open = do s ← get; raise_if s.closed value_error

-- The codes that `evaluate_key_rotation` tells apart.
unfoldable pub verdict : {S : Type 0} → ℤ → Exec S KeyRotationVerdict
unfolding pure throw
verdict rc =
    if eq_ℤ rc (pos 0)
    then pure acceptable
    else if eq_ℤ rc identity_revoked
    then pure revoked_past_overlap
    else if eq_ℤ rc identity_mismatch
    then pure not_recognized
    else throw (nwep (from_code rc))

-- `_expect` on an argument that may be None.
abbrev pub expect_given : {S : Type 0} → Option Bytes → Exec S (Unit {0})
expect_given none = pure tt
expect_given (some raw) = expect raw commit_size

module _ (abi : Abi) (available : Bool) {S : Type 0} where
  abbrev made : Ptr → Exec S TrustStore
  made zero = throw internal_error
  made (suc p) = pure (record { handle = suc p; closed = false })

  -- `TrustStore()`
  unfoldable pub create : Exec S TrustStore
  unfolding ◌>>=◌ ◌>>◌ require_trust ccall pure throw
  create = do
    require_trust available
    handle ← ccall abi (trust TrustCall.store_create)
    made handle

  unfoldable pub evaluate_key_rotation : Bytes → Bytes → ℕ → Exec S KeyRotationVerdict
  unfolding ◌>>=◌ ◌>>◌ require_trust expect ccall verdict
  evaluate_key_rotation rotation presented_pubkey now_secs = do
    require_trust available
    expect presented_pubkey pubkey_size
    rc ← ccall abi (trust (TrustCall.evaluate_key_rotation rotation presented_pubkey now_secs))
    verdict rc

module _ (abi : Abi) where
  unfoldable pub load_genesis_anchors : List Bytes → Exec TrustStore (Unit {0})
  unfolding ◌>>=◌ ◌>>◌ check_open gather ccall checked pure
  load_genesis_anchors pubkeys = do
    check_open
    s ← get
    blob ← gather bls_pubkey_size pubkeys
    rc ← ccall abi (trust (TrustCall.store_load_genesis_anchors s.handle blob (length pubkeys)))
    checked rc
    pure tt

  unfoldable pub update_checkpoint : Bytes → ℕ → Exec TrustStore CheckpointStatus
  unfolding ◌>>=◌ ◌>>◌ check_open ccall checked to_status
  update_checkpoint raw now_secs = do
    check_open
    s ← get
    rc ← ccall abi (trust (TrustCall.store_update_checkpoint s.handle raw now_secs))
    code ← checked rc
    to_status code

  unfoldable pub verify_checkpoint : Bytes → ℕ → Exec TrustStore (Unit {0})
  unfolding ◌>>=◌ ◌>>◌ check_open ccall checked pure
  verify_checkpoint raw now_secs = do
    check_open
    s ← get
    rc ← ccall abi (trust (TrustCall.store_verify_checkpoint s.handle raw now_secs))
    checked rc
    pure tt

  unfoldable pub apply_anchor_change : Bytes → ℕ → Exec TrustStore (Unit {0})
  unfolding ◌>>=◌ ◌>>◌ check_open ccall checked pure
  apply_anchor_change entry current_epoch = do
    check_open
    s ← get
    rc ← ccall abi (trust (TrustCall.store_apply_anchor_change s.handle entry current_epoch))
    checked rc
    pure tt

  unfoldable pub observe_log_size : ℕ → Exec TrustStore (Unit {0})
  unfolding ◌>>=◌ ◌>>◌ check_open ccall checked pure
  observe_log_size observed = do
    check_open
    s ← get
    rc ← ccall abi (trust (TrustCall.store_observe_log_size s.handle observed))
    checked rc
    pure tt

  unfoldable pub max_log_size : Exec TrustStore ℕ
  unfolding ◌>>=◌ ◌>>◌ check_open ccall
  max_log_size = do check_open; s ← get; ccall abi (trust (TrustCall.store_max_log_size s.handle))

  -- `save`, and with it `_two_call`: the first call asks for the size.
  unfoldable pub save : Exec TrustStore Bytes
  unfolding ◌>>=◌ ◌>>◌ check_open ccall checked pure
  save = do
    check_open
    s ← get
    (rc, unused, size) ← ccall abi (trust (TrustCall.store_save s.handle none))
    checked rc
    (code, out, outlen) ← ccall abi (trust (TrustCall.store_save s.handle (some size)))
    checked code
    pure (read_buffer outlen out)

  unfoldable pub load : Bytes → Exec TrustStore (Unit {0})
  unfolding ◌>>=◌ ◌>>◌ check_open ccall checked pure
  load blob = do
    check_open
    s ← get
    rc ← ccall abi (trust (TrustCall.store_load s.handle blob))
    checked rc
    pure tt

  -- `peer` is `client.raw`, which is given out also by a closed client.
  unfoldable pub verify_key : Ptr → NodeId → ℕ → Option Bytes → Exec TrustStore KeyStatus
  unfolding ◌>>=◌ ◌>>◌ check_open expect pure ccall checked to_key_status
  verify_key peer node_id now_secs commitment = do
    check_open
    s ← get
    expect_given commitment
    rc ←
        ccall abi (trust (TrustCall.store_verify_key s.handle peer node_id.raw commitment now_secs))
    code ← checked rc
    to_key_status code

  unfoldable pub verify_key_binding : NodeId → Bytes → Bytes → ℕ → Exec TrustStore (Unit {0})
  unfolding ◌>>=◌ ◌>>◌ check_open expect ccall checked pure
  verify_key_binding node_id expected_pubkey bundle now_secs = do
    check_open
    expect expected_pubkey pubkey_size
    s ← get
    rc ← ccall abi (
        trust
          (TrustCall.store_verify_key_binding s.handle node_id.raw expected_pubkey bundle now_secs))
    checked rc
    pure tt

  abbrev free_if_open : Bool → Exec TrustStore (Unit {0})
  free_if_open true = pure tt
  free_if_open false = do
    s ← get
    ccall abi (trust (TrustCall.store_free s.handle))
    put (record s { closed = true })

  unfoldable pub close : Exec TrustStore (Unit {0})
  unfolding ◌>>=◌ ◌>>◌ ccall pure put
  close = do s ← get; free_if_open s.closed

  -- `__del__`
  unfoldable pub finalize : Exec TrustStore (Unit {0})
  unfolding close swallowed
  finalize = swallowed close
