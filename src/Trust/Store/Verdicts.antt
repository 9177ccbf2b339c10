-- ===== src/Trust/Store/Verdicts.antt =====
-- The rulings of nwep/trust/store.py.
use nwep_py.Prelude.{
  ℕ, zero, suc, true, ◌∷◌, ◌≡◌, ℤ, pos, negsuc, eq_ℤ, length, arith, if◌then◌else◌,
}
use nwep_py.Errors.{Outcome, ok, raise, nwep, from_code}
use nwep_py.Sys.{Bytes, Abi, trust, TrustCall}
use nwep_py.Sys.Exec.{World}
use nwep_py.Trust.Store.{
  KeyRotationVerdict, acceptable, revoked_past_overlap, not_recognized, identity_mismatch,
  identity_revoked, evaluate_key_rotation,
}

-- What a code of C rules.
abbrev pub ruled : ℤ → Outcome KeyRotationVerdict
ruled (pos zero) = ok acceptable
ruled (pos (suc n)) = raise (nwep (from_code (pos (suc n))))
ruled (negsuc n) =
    if eq_ℤ (negsuc n) identity_revoked
    then ok revoked_past_overlap
    else if eq_ℤ (negsuc n) identity_mismatch
    then ok not_recognized
    else raise (nwep (from_code (negsuc n)))

-- With the trust layer and a key of 32 bytes, a rotation is evaluated by one call, and its code rules:
-- two error codes of C are verdicts, all others but 0 raise.
pub evaluate-ruled :
    (abi : Abi) {S : Type 0} (rotation key : Bytes) (now : ℕ) (w : World S) (rc : ℤ)
    → length key ≡ 32
    → abi w.calls (trust (TrustCall.evaluate_key_rotation rotation key now)) ≡ rc
    → evaluate_key_rotation abi true rotation key now w ≡ (
      ruled rc,
      record w { calls = trust (TrustCall.evaluate_key_rotation rotation key now) ∷ w.calls },
    )
unfolding evaluate_key_rotation
evaluate-ruled abi rotation key now w (pos zero) l a = ground arith
evaluate-ruled abi rotation key now w (pos (suc n)) l a = ground arith
evaluate-ruled abi rotation key now w (negsuc n) l a = ground arith
