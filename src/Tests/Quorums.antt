-- ===== src/Tests/Quorums.antt =====
-- The trust layer.
use nwep_py.Trust.Store.{finalize}
use nwep_py.Prelude.{◌≡◌, refl, true, false, List, [], ◌∷◌, ◌++◌}
use nwep_py.Sys.{Bytes}
use nwep_py.Sys.Exec.{World}
use nwep_py.Sys.Handles.{store_handle, freed, use_after_free}
use nwep_py.Sys.Sizes.{all_sized}
use nwep_py.Trust.Sizes.{TrustOp, aggregate_op, step, step_sized}
use nwep_py.Trust.Store.{TrustStore}
use nwep_py.Trust.Store.Lifetime as Stores
use nwep_py.Tests.Quiet.{quiet}

abbrev nothing : World (List TrustOp)
nothing = record { self = []; calls = [] }

abbrev sixteen : Bytes
sixteen = 1 ∷ 1 ∷ 1 ∷ 1 ∷ 1 ∷ 1 ∷ 1 ∷ 1 ∷ 1 ∷ 1 ∷ 1 ∷ 1 ∷ 1 ∷ 1 ∷ 1 ∷ 1 ∷ []

abbrev key : Bytes
key = sixteen ++ sixteen ++ sixteen

step_sized_example :
    all_sized (step quiet true (aggregate_op ((key ++ key) ∷ [])) nothing).calls ≡ true
unfolding all_sized
step_sized_example = step_sized quiet true (aggregate_op ((key ++ key) ∷ [])) nothing refl refl

abbrev empty_store : World TrustStore
empty_store = record { self = record { handle = 31; closed = false }; calls = [] }

abbrev storing : List Stores.StoreOp
storing =
    Stores.load_anchors_op (key ∷ sixteen ∷ [])
    ∷ Stores.load_anchors_op (key ∷ key ∷ [])
    ∷ Stores.update_op [] 5
    ∷ Stores.save_op
    ∷ []

store_block_frees_example :
    (freed
        (store_handle 31)
        (Stores.step quiet Stores.close_op (Stores.run quiet storing empty_store)).calls
      ≡ true)
    × (use_after_free
          (store_handle 31)
          (Stores.step quiet Stores.close_op (Stores.run quiet storing empty_store)).calls
        ≡ false)
    × (all_sized (Stores.step quiet Stores.close_op (Stores.run quiet storing empty_store)).calls
        ≡ true)
    × ((finalize quiet (Stores.run quiet storing empty_store)).1
        ≡ Stores.step quiet Stores.close_op (Stores.run quiet storing empty_store))
    × ((finalize quiet (Stores.step quiet Stores.close_op (Stores.run quiet storing empty_store))).1
        ≡ Stores.step quiet Stores.close_op (Stores.run quiet storing empty_store))
unfolding freed use_after_free all_sized
store_block_frees_example =
    Stores.store_block_frees quiet 31 storing empty_store
      (record { handle = refl; flagged = refl; sound = refl; sized = refl })
