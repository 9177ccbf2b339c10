-- ===== src/Sys/Quorum.antt =====
-- nwep/_sys.py: the functions of the trust layer.
use nwep_py.Prelude.{ℕ, Option, ℤ}
use nwep_py.Sys.Base.{Bytes, Ptr}

-- A blob of several keys or signatures comes with their number.
pub data TrustCall : Type 0 where
  bls_keygen store_create : TrustCall
  bls_sign : Ptr → Bytes → TrustCall
  bls_verify : Bytes → Bytes → Bytes → TrustCall
  bls_aggregate : Bytes → ℕ → TrustCall
  bls_verify_aggregate : Bytes → Bytes → ℕ → Bytes → TrustCall
  checkpoint_decode : Bytes → TrustCall
  checkpoint_free store_free store_max_log_size anchor_free : Ptr → TrustCall
  checkpoint_staleness store_observe_log_size : Ptr → ℕ → TrustCall
  genesis_create : Bytes → Bytes → Bytes → ℕ → ℕ → TrustCall
  store_load_genesis_anchors : Ptr → Bytes → ℕ → TrustCall
  store_update_checkpoint store_verify_checkpoint store_apply_anchor_change :
      Ptr → Bytes → ℕ → TrustCall
  store_save : Ptr → Option ℕ → TrustCall
  store_load : Ptr → Bytes → TrustCall
  store_verify_key : Ptr → Ptr → Bytes → Option Bytes → ℕ → TrustCall
  store_verify_key_binding : Ptr → Bytes → Bytes → Bytes → ℕ → TrustCall
  evaluate_key_rotation : Bytes → Bytes → ℕ → TrustCall
  anchor_create : Ptr → Bytes → Bytes → ℕ → ℕ → TrustCall
  anchor_collect_log_root : Ptr → ℕ → Bytes → ℕ → Bytes → TrustCall
  anchor_dispatch : Ptr → Bytes → Bytes → ℕ → Ptr → Ptr → ℕ → TrustCall
  anchor_produce_partial_sig : Ptr → ℕ → Bytes → ℕ → TrustCall
  anchor_request_partial_sig : Ptr → ℕ → Bytes → ℕ → Bytes → TrustCall
  anchor_finish_checkpoint : ℕ → Bytes → ℕ → Bytes → Bytes → ℕ → Bytes → ℕ → TrustCall

-- A key generation fills a secret and a public key; the secret's memory by its address and contents.
-- `store_save` is given room or NULL, and stores a length beside the bytes.
abbrev pub TrustRet : TrustCall → Type 0
TrustRet bls_keygen = ℤ × Ptr × Bytes × Bytes
TrustRet store_create = Ptr
TrustRet (bls_sign secret msg) = ℤ × Bytes
TrustRet (bls_aggregate sigs n) = ℤ × Bytes
TrustRet (checkpoint_decode raw) = ℤ × Ptr
TrustRet (checkpoint_free checkpoint) = Unit {0}
TrustRet (store_free store) = Unit {0}
TrustRet (store_max_log_size store) = ℕ
TrustRet (anchor_free anchor) = Unit {0}
TrustRet (genesis_create secrets keys indices n threshold) = ℤ × Bytes
TrustRet (store_save store room) = ℤ × Bytes × ℕ
TrustRet (anchor_create kp secret key index window) = Ptr
TrustRet (anchor_produce_partial_sig anchor epoch root size) = ℤ × ℕ × Bytes
TrustRet (anchor_request_partial_sig peer epoch root size key) = ℤ × ℕ × Bytes
TrustRet (anchor_finish_checkpoint epoch root size indices sigs n keys m) = ℤ × Bytes
TrustRet _ = ℤ
