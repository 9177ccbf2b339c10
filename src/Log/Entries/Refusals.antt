-- ===== src/Log/Entries/Refusals.antt =====
-- What the entries of nwep/log.py refuse.
use nwep_py.Prelude.{
  ℕ, zero, suc, ◌<◌, ◌⊎◌, inl, inr, true, ◌∷◌, ◌≡◌, ◌≢◌, pos, length, arith, ==_iff,
}
use nwep_py.Errors.{raise, value_error}
use nwep_py.Sys.{Bytes, Abi, log, LogCall, RawRevocation}
use nwep_py.Sys.Exec.{World}
use nwep_py.Identity.{NodeId, Identity}
use nwep_py.Identity.Names.{new_node_id-read_buffer}
use nwep_py.Log.Entries.{
  ReasonArg, to_reason, create_binding, create_rotation, create_revocation, decode_revocation,
}

module _ (abi : Abi) {S : Type 0} where
  -- A key binding or a revocation is not made by an identity that was closed, or with a commitment or a
  -- revoked key that has not 32 bytes: ValueError, before any call.
  pub create_refused :
      (owner : Identity) (id : NodeId) (raw : Bytes) (reason : ReasonArg) (t : ℕ) (w : World S)
      → (owner.closed ≡ true) ⊎ (length raw ≢ 32)
      → (create_binding abi owner raw t w ≡ (raise value_error, w))
        × (create_revocation abi id raw owner reason t w ≡ (raise value_error, w))
  unfolding create_binding create_revocation
  create_refused owner id raw reason t w (inl c) = (ground arith, ground arith)
  create_refused owner id raw reason t w (inr l) =
      (ground (arith, ==_iff (length raw) 32), ground (arith, ==_iff (length raw) 32))

  -- A rotation is refused when either identity was closed.
  pub rotation_refused :
      (owner fresh : Identity) (id : NodeId) (t expiry : ℕ) (w : World S)
      → (owner.closed ≡ true) ⊎ (fresh.closed ≡ true)
      → create_rotation abi id owner fresh t expiry w ≡ (raise value_error, w)
  unfolding create_rotation
  rotation_refused owner fresh id t expiry w (inl c) = ground arith
  rotation_refused owner fresh id t expiry w (inr c) = ground arith

  to_reason_unknown : (n : ℕ) (w : World S) → 3 < n → to_reason n w ≡ (raise value_error, w)
  unfolding to_reason
  to_reason_unknown zero w l = ground (arith, l)
  to_reason_unknown (suc zero) w l = ground (arith, l)
  to_reason_unknown (suc (suc zero)) w l = ground (arith, l)
  to_reason_unknown (suc (suc (suc zero))) w l = ground (arith, l)
  to_reason_unknown (suc (suc (suc (suc n)))) w l = ground arith

  -- A revocation that C decodes, with a reason that the enum does not list, raises ValueError.
  pub decode_unknown_reason :
      (entry : Bytes) (w : World S) {n : ℕ} {out : RawRevocation}
      → abi w.calls (log (LogCall.revocation_decode entry)) ≡ (pos n, out)
      → 3 < out.reason
      → (decode_revocation abi entry w).0 ≡ raise value_error
  unfolding decode_revocation
  decode_unknown_reason entry w {n} {out} a l = ground (
    arith,
    new_node_id-read_buffer out.node_id
        (record w { calls = log (LogCall.revocation_decode entry) ∷ w.calls }),
    to_reason_unknown out.reason
        (record w { calls = log (LogCall.revocation_decode entry) ∷ w.calls }) l,
  )
