-- ===== src/Cache/Lifetime.antt =====
-- A cache is freed once, and used only before.
use nwep_py.Prelude.{Bool-cases, inl, inr, refl, ℕ, true, false, List, [], ◌∷◌, ◌≡◌, arith, ==_iff}
use nwep_py.Sys.{Bytes, Ptr, Abi}
use nwep_py.Sys.Exec.{World}
use nwep_py.Sys.Handles.{cache_handle, freed, use_after_free}
use nwep_py.Text.{Text}
use nwep_py.Client.Response.{Response}
use nwep_py.Cache.{finalize, Cache, VerbArg, put_signed, get_signed, stats, clear, close}

pub data CacheOp : Type 0 where
  put_op : VerbArg → Text → Response → Bytes → ℕ → CacheOp
  get_op : VerbArg → Text → Bytes → ℕ → CacheOp
  stats_op clear_op close_op : CacheOp

pub step : Abi → CacheOp → World Cache → World Cache
step abi (put_op method path response key now) w = (put_signed abi method path response key now w).1
step abi (get_op method path key now) w = (get_signed abi method path key now w).1
step abi stats_op w = (stats abi w).1
step abi clear_op w = (clear abi w).1
step abi close_op w = (close abi w).1

pub run : Abi → List CacheOp → World Cache → World Cache
run abi [] w = w
run abi (op ∷ ops) w = run abi ops (step abi op w)

pub record IsSound (h : Ptr) (w : World Cache) : Type 0 where
  pub handle : w.self.handle ≡ h
  pub flagged : freed (cache_handle h) w.calls ≡ w.self.closed
  pub sound : use_after_free (cache_handle h) w.calls ≡ false

module _ (abi : Abi) (h : Ptr) where
  step-IsSound : (op : CacheOp) (w : World Cache) → IsSound h w → IsSound h (step abi op w)
  unfolding step put_signed get_signed stats clear close freed use_after_free
  step-IsSound close_op w s = ground (arith, ==_iff w.self.handle h)
  step-IsSound _ w s = ground (arith, ==_iff w.self.handle h)

  run-IsSound : (ops : List CacheOp) (w : World Cache) → IsSound h w → IsSound h (run abi ops w)
  unfolding run
  run-IsSound [] w s = s
  run-IsSound (op ∷ ops) w s = run-IsSound ops (step abi op w) (step-IsSound op w s)

  close_again : (w : World Cache) → step abi close_op (step abi close_op w) ≡ step abi close_op w
  unfolding step close
  close_again w = elim (Bool-cases w.self.closed) [ inl c ↦ ground arith | inr c ↦ ground arith ]

  -- A with-block over a sound cache: whatever its body calls, returning or raising, the cache has
  -- been freed at the exit, and no call touches it after that, a second free included. The
  -- finalizer of an object that was not closed does what the exit does, and after the exit it
  -- changes nothing.
  pub cache_block_frees :
      (ops : List CacheOp) (w : World Cache)
      → IsSound h w
      → (freed (cache_handle h) (step abi close_op (run abi ops w)).calls ≡ true)
        × (use_after_free (cache_handle h) (step abi close_op (run abi ops w)).calls ≡ false)
        × ((finalize abi (run abi ops w)).1 ≡ step abi close_op (run abi ops w))
        × ((finalize abi (step abi close_op (run abi ops w))).1 ≡ step abi close_op (run abi ops w))
  unfolding step close freed use_after_free finalize
  cache_block_frees ops w s =
      let t = run-IsSound ops w s in
      (ground (arith, t), ground (arith, t), refl, close_again (run abi ops w))
