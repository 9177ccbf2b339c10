-- ===== src/Runtime/StreamOwner/Served.antt =====
-- What of the items that were taken out of a managed stream's queue has reached the consumer.
use mathlib.Core.Path.{subst}
use nwep_py.Prelude.{Bool, false, List, [], ◌∷◌, ◌++◌, ◌≡◌, ap, sym, ◌∙◌, arith}
use nwep_py.Sys.{Abi}
use nwep_py.Runtime.StreamOwner.{
  do_turn, Item, Phase, System, Action, turn, recv, recv_cancelled, aclose, take_item, lose_item,
  step, run,
}

-- Some items, in their order, with others left out.
pub data IsSub : List Item → List Item → Type 0 where
  nothing : IsSub [] []
  keep : {i : Item} {xs ys : List Item} → IsSub xs ys → IsSub (i ∷ xs) (i ∷ ys)
  drop : {i : Item} {xs ys : List Item} → IsSub xs ys → IsSub xs (i ∷ ys)

IsSub-keep : {xs ys : List Item} (i : Item) → IsSub xs ys → IsSub (xs ++ i ∷ []) (ys ++ i ∷ [])
IsSub-keep i nothing = keep nothing
IsSub-keep i (keep t) = keep (IsSub-keep i t)
IsSub-keep i (drop t) = drop (IsSub-keep i t)

IsSub-drop : {xs ys : List Item} (i : Item) → IsSub xs ys → IsSub xs (ys ++ i ∷ [])
IsSub-drop i nothing = drop nothing
IsSub-drop i (keep t) = keep (IsSub-drop i t)
IsSub-drop i (drop t) = drop (IsSub-drop i t)

-- What the consumer has got of the items taken: some, and all if no await was cancelled.
pub record IsServed (s : System) : Type 0 where
  pub some_got : IsSub s.got s.taken
  pub all_got : s.lost ≡ false → s.got ≡ s.taken

take-IsServed : (s : System) (items : List Item) → IsServed s → IsServed (take_item items s)
take-IsServed s [] h = h
take-IsServed s (i ∷ rest) h = record {
  some_got = IsSub-keep i h.some_got;
  all_got = λ l. ap (λ xs. xs ++ i ∷ []) (h.all_got l);
}

lose-IsServed : (s : System) (items : List Item) → IsServed s → IsServed (lose_item items s)
lose-IsServed s [] h = h
lose-IsServed s (i ∷ rest) h = record {
  some_got = IsSub-drop i h.some_got;
  all_got = λ l. ground arith;
}

-- A turn of the owner takes nothing out.
turn_takes :
    (abi : Abi) (f : Phase) (stop : Bool) (s : System)
    → ((do_turn abi f stop s).taken ≡ s.taken)
      × ((do_turn abi f stop s).got ≡ s.got)
      × ((do_turn abi f stop s).lost ≡ s.lost)
turn_takes abi f stop s = ground arith

step-IsServed : (abi : Abi) (a : Action) (s : System) → IsServed s → IsServed (step abi a s)
unfolding step
step-IsServed abi turn s h =
    let (t, g, l) = turn_takes abi s.phase s.stop s in
    record {
      some_got =
          subst (λ ys. IsSub (step abi turn s).got ys) (sym t)
            (subst (λ xs. IsSub xs s.taken) (sym g) h.some_got);
      all_got = λ e. g ∙ h.all_got (sym l ∙ e) ∙ sym t;
    }
step-IsServed abi recv s h = take-IsServed s s.items h
step-IsServed abi recv_cancelled s h = lose-IsServed s s.items h
step-IsServed abi aclose s h = record { some_got = h.some_got; all_got = h.all_got }

pub run-IsServed :
    (abi : Abi) (actions : List Action) (s : System) → IsServed s → IsServed (run abi actions s)
unfolding run
run-IsServed abi [] s h = h
run-IsServed abi (a ∷ actions) s h =
    run-IsServed abi actions (step abi a s) (step-IsServed abi a s h)
