-- ===== src/Trust/Sizes.antt =====
-- What the functions of nwep/trust give C through pointers without a length.
use native.Mathlib.Nat.{zero-mul, suc-mul}
use nwep_py.Prelude.{
  ℕ, zero, suc, ◌+◌, ◌*◌, ◌&&◌, all, ◌==◌, ==_iff, Bool, Bool-cases, true, List, [], ◌∷◌, ◌++◌, map,
  ◌≡◌, ◌⊎◌, inl, inr, refl, sym, ap, length, length-append, arith,
}
use nwep_py.Errors.{ok, raise, value_error}
use nwep_py.Sys.{Bytes, Ptr, Abi}
use nwep_py.Sys.Exec.{World}
use nwep_py.Sys.Sizes.{all_sized}
use nwep_py.Trust.Checkpoint.{join_secrets, join_keys, numbers, genesis_checkpoint}
use nwep_py.Trust.Bls.{
  BlsKeypair, secret_of, gather, bls_verify, bls_aggregate, bls_verify_aggregate,
}
use nwep_py.Trust.Store.{evaluate_key_rotation}
use nwep_py.Trust.Anchor.{
  PartialSig, signature_of, index_of, request_partial_sig, finish_checkpoint,
}

concat_length :
    (size : ℕ) (p : Bytes) (ps : List Bytes) (blob : Bytes)
    → (length p == size) ≡ true
    → length blob ≡ length ps * size
    → length (p ++ blob) ≡ length (p ∷ ps) * size
concat_length size p ps blob e l =
    omega (arith, length-append p blob, (==_iff (length p) size).0 e, l, suc-mul (length ps) size)

-- A sequence is refused, or it is one blob of as many pieces of the size; nothing is called.
pub gather-cases :
    {S : Type 0} (size : ℕ) (pieces : List Bytes) (w : World S)
    → (gather size pieces w ≡ (raise value_error, w))
      ⊎ ((blob : Bytes) × (gather size pieces w ≡ (ok blob, w))
          × (length blob ≡ length pieces * size))
unfolding gather
gather-cases size [] w = inr ([], refl, sym (zero-mul size))
gather-cases size (p ∷ ps) w = elim (Bool-cases (length p == size)) [
  | inl e ↦ elim (gather-cases size ps w) [
    | inl r ↦ inl (ground arith)
    | inr (blob, r, l) ↦ inr (p ++ blob, ground arith, concat_length size p ps blob e l)
  ]
  | inr e ↦ inl (ground arith)
]

length-map : {A B : Type 0} (f : A → B) (xs : List A) → length (map f xs) ≡ length xs
length-map f [] = refl
length-map f (x ∷ xs) = ap suc (length-map f xs)

-- The halves of a key pair have the lengths of their C buffers, 32 and 48, which nothing tests.
abbrev pub is_formed : BlsKeypair → Bool
is_formed kp = (length kp.secret == 32) && (length kp.public_key == 48)

formed_lengths :
    (kp : BlsKeypair) → is_formed kp ≡ true → length kp.secret ≡ 32 × length kp.public_key ≡ 48
formed_lengths kp f = (
  (==_iff (length kp.secret) 32).0 (ground arith),
  (==_iff (length kp.public_key) 48).0 (ground arith),
)

-- The secrets are refused, as those of a closed pair, or they are one blob of as many; nothing is
-- called.
join_secrets-cases :
    {S : Type 0} (founders : List BlsKeypair) (w : World S)
    → all is_formed founders ≡ true
    → (join_secrets founders w ≡ (raise value_error, w))
      ⊎ ((blob : Bytes) × (join_secrets founders w ≡ (ok blob, w))
          × (length blob ≡ length founders * 32))
unfolding join_secrets secret_of
join_secrets-cases [] w f = inr ([], refl, sym (zero-mul 32))
join_secrets-cases (kp ∷ founders) w f = elim (Bool-cases kp.closed) [
  | inl c ↦ inl (ground arith)
  | inr c ↦ elim (join_secrets-cases founders w (ground arith)) [
    | inl r ↦ inl (ground arith)
    | inr (blob, r, l) ↦ inr (
      kp.secret ++ blob,
      ground arith,
      omega (
        arith,
        length-append kp.secret blob,
        (formed_lengths kp (ground arith)).0,
        l,
        suc-mul (length founders) 32,
      ),
    )
  ]
]

length-join_keys :
    (founders : List BlsKeypair)
    → all is_formed founders ≡ true
    → length (join_keys founders) ≡ length founders * 48
unfolding join_keys
length-join_keys [] f = sym (zero-mul 48)
length-join_keys (kp ∷ founders) f = omega (
  arith,
  length-append kp.public_key (join_keys founders),
  (formed_lengths kp (ground arith)).1,
  length-join_keys founders (ground arith),
  suc-mul (length founders) 48,
)

length-numbers : (first n : ℕ) → length (numbers first n) ≡ n
unfolding numbers
length-numbers first zero = refl
length-numbers first (suc n) = ap suc (length-numbers (first + 1) n)

-- The functions of the layer that are no methods.
pub data TrustOp : Type 0 where
  verify_op : Bytes → Bytes → Bytes → TrustOp
  aggregate_op : List Bytes → TrustOp
  verify_aggregate_op : Bytes → List Bytes → Bytes → TrustOp
  evaluate_op : Bytes → Bytes → ℕ → TrustOp
  request_op : Ptr → ℕ → Bytes → ℕ → Bytes → TrustOp
  finish_op : ℕ → Bytes → ℕ → List PartialSig → List Bytes → TrustOp
  genesis_op : List BlsKeypair → ℕ → TrustOp

-- The key pairs that a function is given are formed.
abbrev pub may : TrustOp → Bool
may (genesis_op founders threshold) = all is_formed founders
may _ = true

module _ (abi : Abi) (available : Bool) {S : Type 0} where
  unfoldable pub step : TrustOp → World S → World S
  unfolding bls_verify bls_aggregate bls_verify_aggregate evaluate_key_rotation request_partial_sig
      finish_checkpoint genesis_checkpoint
  step (verify_op sig key msg) w = (bls_verify abi available sig key msg w).1
  step (aggregate_op sigs) w = (bls_aggregate abi available sigs w).1
  step (verify_aggregate_op sig keys msg) w = (bls_verify_aggregate abi available sig keys msg w).1
  step (evaluate_op rotation key now) w = (evaluate_key_rotation abi available rotation key now w).1
  step (request_op peer epoch root size key) w =
      (request_partial_sig abi available peer epoch root size key w).1
  step (finish_op epoch root size partials keys) w =
      (finish_checkpoint abi available epoch root size partials keys w).1
  step (genesis_op founders threshold) w = (genesis_checkpoint abi available founders threshold w).1

  genesis_sized :
      (founders : List BlsKeypair) (threshold : ℕ) (w : World S)
      → all is_formed founders ≡ true
      → all_sized w.calls ≡ true
      → all_sized (genesis_checkpoint abi available founders threshold w).1.calls ≡ true
  unfolding genesis_checkpoint all_sized
  genesis_sized [] threshold w f s = ground arith
  genesis_sized (kp ∷ ks) threshold w f s = elim (join_secrets-cases (kp ∷ ks) w f) [
    | inl r ↦ ground (arith, r)
    | inr (blob, r, l) ↦ ground (
      arith,
      r,
      l,
      ==_iff (length blob) (length (kp ∷ ks) * 32),
      length-join_keys (kp ∷ ks) f,
      ==_iff (length (join_keys (kp ∷ ks))) (length (kp ∷ ks) * 48),
      length-numbers 1 (length (kp ∷ ks)),
      ==_iff (length (numbers 1 (length (kp ∷ ks)))) (length (kp ∷ ks)),
    )
  ]

  aggregate_sized :
      (sigs : List Bytes) (w : World S)
      → all_sized w.calls ≡ true
      → all_sized (bls_aggregate abi available sigs w).1.calls ≡ true
  unfolding bls_aggregate all_sized
  aggregate_sized [] w s = ground arith
  aggregate_sized (p ∷ ps) w s = elim (gather-cases 96 (p ∷ ps) w) [
    | inl r ↦ ground (arith, r)
    | inr (blob, r, l) ↦ ground (arith, r, l, ==_iff (length blob) (length (p ∷ ps) * 96))
  ]

  verify_aggregate_sized :
      (sig : Bytes) (keys : List Bytes) (msg : Bytes) (w : World S)
      → all_sized w.calls ≡ true
      → all_sized (bls_verify_aggregate abi available sig keys msg w).1.calls ≡ true
  unfolding bls_verify_aggregate all_sized
  verify_aggregate_sized sig [] msg w s = ground arith
  verify_aggregate_sized sig (p ∷ ps) msg w s = elim (gather-cases 48 (p ∷ ps) w) [
    | inl r ↦ ground (arith, r)
    | inr (blob, r, l) ↦
        ground (arith, r, l, ==_iff (length sig) 96, ==_iff (length blob) (length (p ∷ ps) * 48))
  ]

  finish_sized :
      (epoch : ℕ) (root : Bytes) (size : ℕ) (partials : List PartialSig) (keys : List Bytes)
      (w : World S)
      → all_sized w.calls ≡ true
      → all_sized (finish_checkpoint abi available epoch root size partials keys w).1.calls ≡ true
  unfolding finish_checkpoint all_sized
  finish_sized epoch root size [] keys w s = ground (arith, ==_iff (length root) 32)
  finish_sized epoch root size (p ∷ ps) keys w s =
      let sigs = map signature_of (p ∷ ps) in
      elim (gather-cases 96 sigs w) [
        | inl r ↦ ground (arith, r, ==_iff (length root) 32)
        | inr (blob, r, l) ↦ elim (gather-cases 48 keys w) [
          | inl q ↦ ground (arith, r, q, ==_iff (length root) 32)
          | inr (pks, q, m) ↦ ground (
            arith,
            r,
            l,
            q,
            m,
            ==_iff (length root) 32,
            length-map signature_of (p ∷ ps),
            length-map index_of (p ∷ ps),
            ==_iff (length blob) (length (p ∷ ps) * 96),
            ==_iff (length pks) (length keys * 48),
          )
        ]
      ]

  -- Whatever the arguments, `bls_verify`, `bls_aggregate`, `bls_verify_aggregate`,
  -- `evaluate_key_rotation`, `request_partial_sig` and `finish_checkpoint` give C exactly as many bytes
  -- as it reads: a signature, a key, a root or a blob of a wrong length is refused before the call. So
  -- does `genesis_checkpoint`, which tests no length, on key pairs that have the lengths of their buffers.
  pub step_sized :
      (op : TrustOp) (w : World S)
      → may op ≡ true
      → all_sized w.calls ≡ true
      → all_sized (step op w).calls ≡ true
  unfolding step all_sized
  step_sized (verify_op sig key msg) w u s =
      ground (arith, ==_iff (length sig) 96, ==_iff (length key) 48)
  step_sized (aggregate_op sigs) w u s = aggregate_sized sigs w s
  step_sized (verify_aggregate_op sig keys msg) w u s = verify_aggregate_sized sig keys msg w s
  step_sized (evaluate_op rotation key now) w u s = ground (arith, ==_iff (length key) 32)
  step_sized (request_op peer epoch root size key) w u s =
      ground (arith, ==_iff (length root) 32, ==_iff (length key) 48)
  step_sized (finish_op epoch root size partials keys) w u s =
      finish_sized epoch root size partials keys w s
  step_sized (genesis_op founders threshold) w u s = genesis_sized founders threshold w u s
