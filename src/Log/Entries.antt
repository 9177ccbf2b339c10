-- ===== src/Log/Entries.antt =====
-- The entry types of nwep/log.py: signed records that are encoded by C, and decoded into views.
pub mod Refusals
use nwep_py.Prelude.{ℕ, zero, suc, ℤ}
use nwep_py.Errors.{value_error}
use nwep_py.Sys.{
  Bytes, Abi, log, LogCall, RawBinding, RawRotation, RawRevocation, nodeid_size, pubkey_size,
  sig_size, read_buffer,
}
use nwep_py.Sys.Exec.{Exec, pure, throw, ◌>>=◌, ◌>>◌, checked, ccall}
use nwep_py.Cache.{expect}
use nwep_py.Identity.{NodeId, Identity, new_node_id, keypair}

-- `_COMMIT`
abbrev pub commit_size : ℕ
commit_size = 32

pub data EntryType : Type 0 where
  key_binding key_rotation revocation anchor_change : EntryType

pub data RevocationReason : Type 0 where
  compromised rotation decommission : RevocationReason

-- `EntryType(code)`
unfoldable pub to_entry_type : {S : Type 0} → ℕ → Exec S EntryType
unfolding pure throw
to_entry_type (suc zero) = pure key_binding
to_entry_type (suc (suc zero)) = pure key_rotation
to_entry_type (suc (suc (suc zero))) = pure revocation
to_entry_type (suc (suc (suc (suc zero)))) = pure anchor_change
to_entry_type _ = throw value_error

-- `RevocationReason(code)`
unfoldable pub to_reason : {S : Type 0} → ℕ → Exec S RevocationReason
unfolding pure throw
to_reason (suc zero) = pure compromised
to_reason (suc (suc zero)) = pure rotation
to_reason (suc (suc (suc zero))) = pure decommission
to_reason _ = throw value_error

-- `Union[RevocationReason, int]`, and `int(reason)`
pub data ReasonArg : Type 0 where
  member : RevocationReason → ReasonArg
  raw_code : ℕ → ReasonArg

unfoldable pub reason_code : ReasonArg → ℕ
reason_code (member compromised) = 1
reason_code (member rotation) = 2
reason_code (member decommission) = 3
reason_code (raw_code n) = n

pub record KeyBinding : Type 0 where
  pub node_id : NodeId
  pub pubkey : Bytes
  pub recovery_commitment : Bytes
  pub timestamp : ℕ
  pub signature : Bytes

pub record KeyRotation : Type 0 where
  pub node_id : NodeId
  pub old_pubkey : Bytes
  pub new_pubkey : Bytes
  pub timestamp : ℕ
  pub overlap_expiry : ℕ
  pub sig_old : Bytes
  pub sig_new : Bytes

pub record Revocation : Type 0 where
  pub node_id : NodeId
  pub revoked_pubkey : Bytes
  pub recovery_pubkey : Bytes
  pub reason : RevocationReason
  pub timestamp : ℕ
  pub signature : Bytes

module _ (abi : Abi) {S : Type 0} where
  unfoldable pub entry_type : Bytes → Exec S EntryType
  unfolding ◌>>=◌ ccall checked to_entry_type
  entry_type entry = do
    rc ← ccall abi (log (LogCall.entry_type entry))
    code ← checked rc
    to_entry_type code

  -- `KeyBinding.create`, and with it `_encode`
  unfoldable pub create_binding : Identity → Bytes → ℕ → Exec S Bytes
  unfolding ◌>>=◌ ◌>>◌ expect keypair ccall checked pure
  create_binding owner recovery_commitment timestamp = do
    expect recovery_commitment commit_size
    kp ← keypair owner
    (rc, out) ← ccall abi (log (LogCall.keybinding_create kp recovery_commitment timestamp))
    checked rc
    pure out

  unfoldable pub decode_binding : Bytes → Exec S KeyBinding
  unfolding ◌>>=◌ ◌>>◌ ccall checked new_node_id pure
  decode_binding entry = do
    (rc, out) ← ccall abi (log (LogCall.keybinding_decode entry))
    checked rc
    id ← new_node_id (read_buffer nodeid_size out.node_id)
    pure (record {
      node_id = id;
      pubkey = read_buffer pubkey_size out.pubkey;
      recovery_commitment = read_buffer commit_size out.recovery_commitment;
      timestamp = out.timestamp;
      signature = read_buffer sig_size out.signature;
    })

  unfoldable pub create_rotation : NodeId → Identity → Identity → ℕ → ℕ → Exec S Bytes
  unfolding ◌>>=◌ ◌>>◌ keypair ccall checked pure
  create_rotation id old_identity new_identity timestamp overlap_expiry = do
    old_kp ← keypair old_identity
    new_kp ← keypair new_identity
    (rc, out) ←
        ccall abi (log (LogCall.keyrotation_create id.raw old_kp new_kp timestamp overlap_expiry))
    checked rc
    pure out

  unfoldable pub decode_rotation : Bytes → Exec S KeyRotation
  unfolding ◌>>=◌ ◌>>◌ ccall checked new_node_id pure
  decode_rotation entry = do
    (rc, out) ← ccall abi (log (LogCall.keyrotation_decode entry))
    checked rc
    id ← new_node_id (read_buffer nodeid_size out.node_id)
    pure (record {
      node_id = id;
      old_pubkey = read_buffer pubkey_size out.old_pubkey;
      new_pubkey = read_buffer pubkey_size out.new_pubkey;
      timestamp = out.timestamp;
      overlap_expiry = out.overlap_expiry;
      sig_old = read_buffer sig_size out.sig_old;
      sig_new = read_buffer sig_size out.sig_new;
    })

  unfoldable pub create_revocation : NodeId → Bytes → Identity → ReasonArg → ℕ → Exec S Bytes
  unfolding ◌>>=◌ ◌>>◌ expect keypair reason_code ccall checked pure
  create_revocation id revoked_pubkey recovery_identity reason timestamp = do
    expect revoked_pubkey pubkey_size
    kp ← keypair recovery_identity
    (rc, out) ←
        ccall abi
          (log (LogCall.revocation_create id.raw revoked_pubkey kp (reason_code reason) timestamp))
    checked rc
    pure out

  unfoldable pub decode_revocation : Bytes → Exec S Revocation
  unfolding ◌>>=◌ ◌>>◌ ccall checked new_node_id to_reason pure
  decode_revocation entry = do
    (rc, out) ← ccall abi (log (LogCall.revocation_decode entry))
    checked rc
    id ← new_node_id (read_buffer nodeid_size out.node_id)
    reason ← to_reason out.reason
    pure (record {
      node_id = id;
      revoked_pubkey = read_buffer pubkey_size out.revoked_pubkey;
      recovery_pubkey = read_buffer pubkey_size out.recovery_pubkey;
      reason = reason;
      timestamp = out.timestamp;
      signature = read_buffer sig_size out.signature;
    })
