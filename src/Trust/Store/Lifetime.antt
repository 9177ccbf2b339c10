-- ===== src/Trust/Store/Lifetime.antt =====
-- A trust store is freed once, used only before, and given keys of the right lengths.
use nwep_py.Prelude.{
  Bool-cases, inl, inr, refl, ℕ, ◌*◌, ==_iff, true, false, Option, none, some, List, [], ◌∷◌, ◌≡◌,
  inl, inr, length, arith,
}
use nwep_py.Sys.{Bytes, Ptr, Abi}
use nwep_py.Sys.Exec.{World}
use nwep_py.Sys.Handles.{store_handle, freed, use_after_free}
use nwep_py.Sys.Sizes.{all_sized}
use nwep_py.Identity.{NodeId}
use nwep_py.Identity.Names.{IsNodeId}
use nwep_py.Trust.Store.{
  finalize, TrustStore, load_genesis_anchors, update_checkpoint, verify_checkpoint,
  apply_anchor_change, observe_log_size, max_log_size, save, load, verify_key, verify_key_binding,
  close,
}
use nwep_py.Trust.Sizes.{gather-cases}

pub data StoreOp : Type 0 where
  load_anchors_op : List Bytes → StoreOp
  update_op verify_op change_op : Bytes → ℕ → StoreOp
  observe_op : ℕ → StoreOp
  size_op save_op close_op : StoreOp
  load_op : Bytes → StoreOp
  verify_key_op : Ptr → (id : NodeId) → IsNodeId id → ℕ → Option Bytes → StoreOp
  binding_op : (id : NodeId) → IsNodeId id → Bytes → Bytes → ℕ → StoreOp

unfoldable pub step : Abi → StoreOp → World TrustStore → World TrustStore
unfolding load_genesis_anchors update_checkpoint verify_checkpoint apply_anchor_change
    observe_log_size max_log_size save load verify_key verify_key_binding close
step abi (load_anchors_op keys) w = (load_genesis_anchors abi keys w).1
step abi (update_op raw now) w = (update_checkpoint abi raw now w).1
step abi (verify_op raw now) w = (verify_checkpoint abi raw now w).1
step abi (change_op entry epoch) w = (apply_anchor_change abi entry epoch w).1
step abi (observe_op n) w = (observe_log_size abi n w).1
step abi size_op w = (max_log_size abi w).1
step abi save_op w = (save abi w).1
step abi (load_op blob) w = (load abi blob w).1
step abi (verify_key_op peer id k now commitment) w = (verify_key abi peer id now commitment w).1
step abi (binding_op id k key bundle now) w = (verify_key_binding abi id key bundle now w).1
step abi close_op w = (close abi w).1

unfoldable pub run : Abi → List StoreOp → World TrustStore → World TrustStore
unfolding step
run abi [] w = w
run abi (op ∷ ops) w = run abi ops (step abi op w)

pub record IsSound (h : Ptr) (w : World TrustStore) : Type 0 where
  pub handle : w.self.handle ≡ h
  pub flagged : freed (store_handle h) w.calls ≡ w.self.closed
  pub sound : use_after_free (store_handle h) w.calls ≡ false
  pub sized : all_sized w.calls ≡ true

module _ (abi : Abi) (h : Ptr) where
  load_anchors-IsSound :
      (keys : List Bytes) (w : World TrustStore)
      → IsSound h w
      → IsSound h (load_genesis_anchors abi keys w).1
  unfolding load_genesis_anchors freed use_after_free all_sized
  load_anchors-IsSound keys w s = elim (gather-cases 48 keys w) [
    | inl r ↦ ground (arith, r)
    | inr (blob, r, l) ↦ ground (arith, r, l, ==_iff (length blob) (length keys * 48))
  ]

  step-IsSound : (op : StoreOp) (w : World TrustStore) → IsSound h w → IsSound h (step abi op w)
  unfolding step freed use_after_free all_sized
  step-IsSound (load_anchors_op keys) w s = load_anchors-IsSound keys w s
  step-IsSound close_op w s = ground (arith, ==_iff w.self.handle h)
  step-IsSound (verify_key_op peer id k now none) w s = ground (arith, k, ==_iff (length id.raw) 32)
  step-IsSound (verify_key_op peer id k now (some raw)) w s =
      ground (arith, k, ==_iff (length id.raw) 32, ==_iff (length raw) 32)
  step-IsSound (binding_op id k key bundle now) w s =
      ground (arith, k, ==_iff (length id.raw) 32, ==_iff (length key) 32)
  step-IsSound _ w s = ground arith

  run-IsSound :
      (ops : List StoreOp) (w : World TrustStore) → IsSound h w → IsSound h (run abi ops w)
  unfolding run
  run-IsSound [] w s = s
  run-IsSound (op ∷ ops) w s = run-IsSound ops (step abi op w) (step-IsSound op w s)

  close_again :
      (w : World TrustStore) → step abi close_op (step abi close_op w) ≡ step abi close_op w
  unfolding step close
  close_again w = elim (Bool-cases w.self.closed) [ inl c ↦ ground arith | inr c ↦ ground arith ]

  -- A with-block over a sound store, whose body calls what it likes with node ids of 32 bytes: at
  -- the exit the store has been freed, it was not used after that, and every key, commitment and
  -- blob of keys that C was given had its length. The finalizer of an object that was not closed
  -- does what the exit does, and after the exit it changes nothing.
  pub store_block_frees :
      (ops : List StoreOp) (w : World TrustStore)
      → IsSound h w
      → (freed (store_handle h) (step abi close_op (run abi ops w)).calls ≡ true)
        × (use_after_free (store_handle h) (step abi close_op (run abi ops w)).calls ≡ false)
        × (all_sized (step abi close_op (run abi ops w)).calls ≡ true)
        × ((finalize abi (run abi ops w)).1 ≡ step abi close_op (run abi ops w))
        × ((finalize abi (step abi close_op (run abi ops w))).1 ≡ step abi close_op (run abi ops w))
  unfolding step freed use_after_free all_sized finalize close
  store_block_frees ops w s =
      let t = run-IsSound ops w s in
      (ground (arith, t), ground (arith, t), ground (arith, t), refl, close_again (run abi ops w))
