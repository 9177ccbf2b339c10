-- ===== src/Examples/Nwkv/Contents.antt =====
-- The key-value service of examples/nwkv.py as a map: what each request does to it, and how it is answered.
use nwep_py.Prelude.{
  Bool, true, false, ◌&&◌, ==_iff, ◌↔◌, none, some, List, [], ◌∷◌, ◌≡◌, refl, arith, if◌then◌else◌,
}
use nwep_py.Sys.{Bytes}
use nwep_py.Text.{Text, same_text}
use nwep_py.Examples.Nwkv.{lookup, insert, remove}

same_text_iff : (a b : Text) → (same_text a b ≡ true) ↔ (a ≡ b)
unfolding same_text
same_text_iff [] [] = ground arith
same_text_iff [] (b ∷ t) = ground arith
same_text_iff (a ∷ s) [] = ground arith
same_text_iff (a ∷ s) (b ∷ t) = ground (arith, same_text_iff s t, ==_iff a b)

-- The keys of a dict stand in it once each.
abbrev pub fresh : Text → List (Text × Bytes) → Bool
fresh path [] = true
fresh path ((p, b) ∷ store) = if same_text p path then false else fresh path store

abbrev pub distinct : List (Text × Bytes) → Bool
distinct [] = true
distinct ((p, b) ∷ store) = fresh p store && distinct store

pub lookup-insert :
    (path q : Text) (body : Bytes) (store : List (Text × Bytes))
    → lookup q (insert path body store) ≡ (if same_text path q then some body else lookup q store)
unfolding lookup insert
lookup-insert path q body [] = refl
lookup-insert path q body ((p, b) ∷ store) = ground (
  arith,
  lookup-insert path q body store,
  same_text_iff p path,
  same_text_iff path q,
  same_text_iff p q,
)

lookup-fresh :
    (q : Text) (store : List (Text × Bytes)) → fresh q store ≡ true → lookup q store ≡ none
unfolding lookup
lookup-fresh q [] h = refl
lookup-fresh q ((p, b) ∷ store) h = ground (arith, lookup-fresh q store)

pub lookup-remove :
    (path q : Text) (store : List (Text × Bytes))
    → distinct store ≡ true
    → lookup q (remove path store) ≡ (if same_text path q then none else lookup q store)
unfolding lookup remove
lookup-remove path q [] h = ground arith
lookup-remove path q ((p, b) ∷ store) h = ground (
  arith,
  lookup-remove path q store,
  lookup-fresh p store,
  same_text_iff p path,
  same_text_iff path q,
  same_text_iff p q,
)

fresh-insert :
    (q path : Text) (body : Bytes) (store : List (Text × Bytes))
    → same_text path q ≡ false
    → fresh q store ≡ true
    → fresh q (insert path body store) ≡ true
unfolding insert
fresh-insert q path body [] d h = ground arith
fresh-insert q path body ((p, b) ∷ store) d h = ground (arith, fresh-insert q path body store)

fresh-remove :
    (q path : Text) (store : List (Text × Bytes))
    → fresh q store ≡ true
    → fresh q (remove path store) ≡ true
unfolding remove
fresh-remove q path [] h = refl
fresh-remove q path ((p, b) ∷ store) h = ground (arith, fresh-remove q path store)

pub distinct-insert :
    (path : Text) (body : Bytes) (store : List (Text × Bytes))
    → distinct store ≡ true
    → distinct (insert path body store) ≡ true
unfolding insert
distinct-insert path body [] h = refl
distinct-insert path body ((p, b) ∷ store) h = ground (
  arith,
  distinct-insert path body store,
  fresh-insert p path body store,
  same_text_iff p path,
  same_text_iff path p,
)

pub distinct-remove :
    (path : Text) (store : List (Text × Bytes))
    → distinct store ≡ true
    → distinct (remove path store) ≡ true
unfolding remove
distinct-remove path [] h = refl
distinct-remove path ((p, b) ∷ store) h =
    ground (arith, distinct-remove path store, fresh-remove p path store)
