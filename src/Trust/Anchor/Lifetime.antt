-- ===== src/Trust/Anchor/Lifetime.antt =====
-- An anchor node is freed once, used only before by its own methods, and given roots of 32 bytes.
use nwep_py.Prelude.{ℕ, ==_iff, true, false, List, [], ◌∷◌, ◌≡◌, length, arith}
use nwep_py.Sys.{Bytes, Ptr, Abi}
use nwep_py.Sys.Exec.{World}
use nwep_py.Sys.Handles.{anchor_handle, freed, use_after_free}
use nwep_py.Sys.Sizes.{all_sized}
use nwep_py.Trust.Anchor.{AnchorNode, collect_log_root, produce_partial_sig, close}

-- The methods but `dispatch`, which does not look whether the anchor is closed.
pub data AnchorOp : Type 0 where
  collect_op : ℕ → Bytes → ℕ → Bytes → AnchorOp
  produce_op : ℕ → Bytes → ℕ → AnchorOp
  close_op : AnchorOp

unfoldable pub step : Abi → AnchorOp → World AnchorNode → World AnchorNode
unfolding collect_log_root produce_partial_sig close
step abi (collect_op epoch root size local) w = (collect_log_root abi epoch root size local w).1
step abi (produce_op epoch root size) w = (produce_partial_sig abi epoch root size w).1
step abi close_op w = (close abi w).1

unfoldable pub run : Abi → List AnchorOp → World AnchorNode → World AnchorNode
unfolding step
run abi [] w = w
run abi (op ∷ ops) w = run abi ops (step abi op w)

pub record IsSound (h : Ptr) (w : World AnchorNode) : Type 0 where
  pub handle : w.self.handle ≡ h
  pub flagged : freed (anchor_handle h) w.calls ≡ w.self.closed
  pub sound : use_after_free (anchor_handle h) w.calls ≡ false
  pub sized : all_sized w.calls ≡ true

module _ (abi : Abi) (h : Ptr) where
  step-IsSound : (op : AnchorOp) (w : World AnchorNode) → IsSound h w → IsSound h (step abi op w)
  unfolding step freed use_after_free all_sized
  step-IsSound (collect_op epoch root size local) w s =
      ground (arith, ==_iff (length root) 32, ==_iff (length local) 32)
  step-IsSound (produce_op epoch root size) w s = ground (arith, ==_iff (length root) 32)
  step-IsSound close_op w s = ground (arith, ==_iff w.self.handle h)

  pub run-IsSound :
      (ops : List AnchorOp) (w : World AnchorNode) → IsSound h w → IsSound h (run abi ops w)
  unfolding run
  run-IsSound [] w s = s
  run-IsSound (op ∷ ops) w s = run-IsSound ops (step abi op w) (step-IsSound op w s)
