-- ===== src/Runtime/StreamOwner/History.antt =====
-- What C handed out and verified, read off the calls made, and what the items of a stream hold.
use mathlib.Core.List.{append_assoc}
use nwep_py.Prelude.{
  Bool, true, false, ◌||◌, List, [], ◌∷◌, ◌++◌, ◌≡◌, refl, sym, ap, ◌∙◌, ℤ, pos, negsuc,
}
use nwep_py.Sys.{Bytes, Abi, Call, client, ClientCall}
use nwep_py.Runtime.StreamOwner.{Item, chunk, end, fault}

-- The bytes that C handed out, in order: those of every receive that did not fail.
abbrev taken : ℤ → Bytes → Bytes
taken (pos n) bytes = bytes
taken (negsuc n) bytes = []

received_by : Abi → List Call → Bytes → ClientCall → Bytes
received_by abi older before (ClientCall.stream_recv c s size) =
    let (rc, bytes, ended) = abi older (client (ClientCall.stream_recv c s size)) in
    before ++ taken rc bytes
received_by abi older before _ = before

received_call : Abi → List Call → Bytes → Call → Bytes
unfolding received_by
received_call abi older before (client c) = received_by abi older before c
received_call abi older before _ = before

unfoldable pub received : Abi → List Call → Bytes
unfolding received_call
received abi [] = []
received abi (c ∷ older) = received_call abi older (received abi older) c

-- Whether C verified a trailer.
abbrev succeeded : ℤ → Bool
succeeded (pos n) = true
succeeded (negsuc n) = false

verified_by : Abi → List Call → ClientCall → Bool
verified_by abi older (ClientCall.stream_verify c s key) =
    succeeded (abi older (client (ClientCall.stream_verify c s key)))
verified_by abi older _ = false

verified_call : Abi → List Call → Call → Bool
unfolding verified_by
verified_call abi older (client c) = verified_by abi older c
verified_call abi older _ = false

unfoldable pub verified : Abi → List Call → Bool
unfolding verified_call
verified abi [] = false
verified abi (c ∷ older) = verified_call abi older c || verified abi older

-- The chunks of some items, joined.
unfoldable pub joined : List Item → Bytes
joined [] = []
joined (chunk c ∷ items) = c ++ joined items
joined (end ∷ items) = joined items
joined (fault e ∷ items) = joined items

unfoldable pub has_end : List Item → Bool
has_end [] = false
has_end (end ∷ items) = true
has_end (chunk c ∷ items) = has_end items
has_end (fault e ∷ items) = has_end items

pub joined-append : (xs ys : List Item) → joined (xs ++ ys) ≡ joined xs ++ joined ys
unfolding joined
joined-append [] ys = refl
joined-append (chunk c ∷ xs) ys =
    ap (λ t. c ++ t) (joined-append xs ys) ∙ sym (append_assoc c (joined xs) (joined ys))
joined-append (end ∷ xs) ys = joined-append xs ys
joined-append (fault e ∷ xs) ys = joined-append xs ys

pub has_end-append : (xs ys : List Item) → has_end (xs ++ ys) ≡ (has_end xs || has_end ys)
unfolding has_end
has_end-append [] ys = refl
has_end-append (end ∷ xs) ys = refl
has_end-append (chunk c ∷ xs) ys = has_end-append xs ys
has_end-append (fault e ∷ xs) ys = has_end-append xs ys
