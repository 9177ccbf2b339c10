-- ===== src/Identity/Lifetime.antt =====
-- A private key is wiped once, and used only before.
use nwep_py.Prelude.{Bool-cases, inl, inr, refl, true, false, List, [], ◌∷◌, ◌≡◌, arith, ==_iff}
use nwep_py.Sys.{Bytes, Ptr, Abi}
use nwep_py.Sys.Exec.{World}
use nwep_py.Sys.Handles.{secret_handle, freed, use_after_free}
use nwep_py.Identity.{finalize, Identity, to_pem, sign, public_key, close}

-- The methods that read the key pair.
pub data IdentityOp : Type 0 where
  to_pem_op public_key_op close_op : IdentityOp
  sign_op : Bytes → IdentityOp

unfoldable pub step : Abi → IdentityOp → World Identity → World Identity
unfolding to_pem sign public_key close
step abi to_pem_op w = (to_pem abi w).1
step abi public_key_op w = (public_key w).1
step abi (sign_op msg) w = (sign abi msg w).1
step abi close_op w = (close abi w).1

unfoldable pub run : Abi → List IdentityOp → World Identity → World Identity
run abi [] w = w
run abi (op ∷ ops) w = run abi ops (step abi op w)

pub record IsSound (kp : Ptr) (w : World Identity) : Type 0 where
  pub handle : w.self.kp ≡ kp
  pub flagged : freed (secret_handle kp) w.calls ≡ w.self.closed
  pub sound : use_after_free (secret_handle kp) w.calls ≡ false

module _ (abi : Abi) (kp : Ptr) where
  step-IsSound : (op : IdentityOp) (w : World Identity) → IsSound kp w → IsSound kp (step abi op w)
  unfolding step freed use_after_free
  step-IsSound close_op w s = ground (arith, ==_iff w.self.kp kp)
  step-IsSound _ w s = ground (arith, ==_iff w.self.kp kp)

  run-IsSound :
      (ops : List IdentityOp) (w : World Identity) → IsSound kp w → IsSound kp (run abi ops w)
  unfolding run
  run-IsSound [] w s = s
  run-IsSound (op ∷ ops) w s = run-IsSound ops (step abi op w) (step-IsSound op w s)

  close_again : (w : World Identity) → step abi close_op (step abi close_op w) ≡ step abi close_op w
  unfolding step close
  close_again w = elim (Bool-cases w.self.closed) [ inl c ↦ ground arith | inr c ↦ ground arith ]

  -- A with-block over an identity whose key has not been misused: whatever its body calls, the
  -- private key has been wiped at the exit, and neither signed with, exported nor wiped again
  -- after that. The finalizer of an object that was not closed does what the exit does, and after
  -- the exit it changes nothing.
  pub identity_block_wipes :
      (ops : List IdentityOp) (w : World Identity)
      → IsSound kp w
      → (freed (secret_handle kp) (step abi close_op (run abi ops w)).calls ≡ true)
        × (use_after_free (secret_handle kp) (step abi close_op (run abi ops w)).calls ≡ false)
        × ((finalize abi (run abi ops w)).1 ≡ step abi close_op (run abi ops w))
        × ((finalize abi (step abi close_op (run abi ops w))).1 ≡ step abi close_op (run abi ops w))
  unfolding step freed use_after_free finalize close
  identity_block_wipes ops w s =
      let t = run-IsSound ops w s in
      (ground (arith, t), ground (arith, t), refl, close_again (run abi ops w))
