-- ===== src/Identity/Names.antt =====
-- What the makers of a node id and of an identity promise.
use nwep_py.Prelude.{
  ℕ, ◌==◌, ◌≢◌, Bool-cases, ◌⊎◌, inl, inr, true, false, ◌∷◌, ◌≡◌, refl, ℤ, pos, negsuc, length,
  arith, ==_iff,
}
use nwep_py.Errors.{Exc, Outcome, ok, raise, nwep, from_code, value_error}
use nwep_py.Sys.Handles.{secret_handle, freed}
use nwep_py.Sys.{
  Bytes, Ptr, Abi, identity, IdentityCall, nodeid_size, pubkey_size, read_buffer,
  length-read_buffer,
}
use nwep_py.Sys.Exec.{World, pure, ◌>>=◌}
use nwep_py.Sys.Gives.{Gives}
use nwep_py.Text.{Text, encode}
use nwep_py.Identity.{
  NodeId, Identity, new_node_id, from_pubkey, from_base58, generate, from_pem, new_identity,
}

-- A name of the right length is made, and nothing else happens.
pub new_node_id-read_buffer :
    {S : Type 0} (raw : Bytes) (w : World S)
    → new_node_id (read_buffer nodeid_size raw) w
      ≡ (ok (record { raw = read_buffer nodeid_size raw }), w)
unfolding new_node_id
new_node_id-read_buffer raw w = ground (
  arith,
  length-read_buffer nodeid_size raw,
  ==_iff (length (read_buffer nodeid_size raw)) nodeid_size,
)

abbrev pub IsNodeId : NodeId → Type 0
IsNodeId id = length id.raw ≡ nodeid_size

abbrev pub IsNamed : Identity → Type 0
IsNamed i = IsNodeId i.node_id × length i.pub_key ≡ pubkey_size

new_node_id-IsNodeId :
    {S : Type 0} (raw : Bytes) (w : World S)
    → Gives IsNodeId (new_node_id (read_buffer nodeid_size raw) w).0
new_node_id-IsNodeId raw w = rw (new_node_id-read_buffer raw w) (length-read_buffer nodeid_size raw)

new_identity-IsNamed :
    {S : Type 0} (kp : Ptr) (raw key : Bytes) (w : World S)
    → Gives IsNamed
        ((do
          id ← new_node_id (read_buffer nodeid_size raw)
          pure (new_identity kp (read_buffer pubkey_size key) id))
          w).0
unfolding ◌>>=◌ pure
new_identity-IsNamed kp raw key w =
    rw (new_node_id-read_buffer raw w)
      (length-read_buffer nodeid_size raw, length-read_buffer pubkey_size key)

module _ (abi : Abi) {S : Type 0} where
  from_pem-IsNamed :
      (pem : Text) (w : World S) (r : Outcome Bytes)
      → encode pem ≡ r
      → Gives IsNamed (from_pem abi pem w).0
  unfolding from_pem
  from_pem-IsNamed pem w (raise e) p = ground arith
  from_pem-IsNamed pem w (ok raw) p =
      let loaded = identity (IdentityCall.load_pem raw) in
      let derive =
        identity
          (IdentityCall.nodeid_from_pubkey (read_buffer pubkey_size (abi w.calls loaded).2)) in
      ground (
        arith,
        new_identity-IsNamed (abi w.calls loaded).1 (abi (loaded ∷ w.calls) derive).1
            (abi w.calls loaded).2 (record w { calls = derive ∷ loaded ∷ w.calls }),
      )

  new_node_id-guards :
      (raw : Bytes) (w : World S)
      → (length raw ≡ nodeid_size × new_node_id raw w ≡ (ok (record { raw = raw }), w))
        ⊎ (length raw ≢ nodeid_size × new_node_id raw w ≡ (raise value_error, w))
  unfolding new_node_id
  new_node_id-guards raw w = elim (Bool-cases (length raw == nodeid_size)) [
    | inl e ↦ inl ((==_iff (length raw) nodeid_size).0 e, ground arith)
    | inr e ↦ inr (λ l. ground (arith, l, e, ==_iff (length raw) nodeid_size), ground arith)
  ]

  -- Bytes are made a node id exactly if there are 32 of them, and are refused with a ValueError
  -- otherwise. Whatever C answers, a node id that is derived, parsed or comes with a new identity has
  -- 32 bytes, and so has the identity's public key.
  pub makers-IsNodeId :
      (raw key : Bytes) (text pem : Text) (w : World S)
      → ((length raw ≡ nodeid_size × new_node_id raw w ≡ (ok (record { raw = raw }), w))
          ⊎ (length raw ≢ nodeid_size × new_node_id raw w ≡ (raise value_error, w)))
        × Gives IsNodeId (from_pubkey abi key w).0
        × Gives IsNodeId (from_base58 abi text w).0
        × Gives IsNamed (generate abi w).0
        × Gives IsNamed (from_pem abi pem w).0
  unfolding from_pubkey from_base58 generate from_pem new_node_id
  makers-IsNodeId raw key text pem w = (
    new_node_id-guards raw w,
    ground (
      arith,
      new_node_id-IsNodeId (abi w.calls (identity (IdentityCall.nodeid_from_pubkey key))).1
          (record w { calls = identity (IdentityCall.nodeid_from_pubkey key) ∷ w.calls }),
    ),
    ground (
      arith,
      new_node_id-IsNodeId (abi w.calls (identity (IdentityCall.nodeid_from_base58 text))).1
          (record w { calls = identity (IdentityCall.nodeid_from_base58 text) ∷ w.calls }),
    ),
    ground (
      arith,
      new_identity-IsNamed (abi w.calls (identity IdentityCall.generate)).2
          (abi w.calls (identity IdentityCall.generate)).1
          (abi w.calls (identity IdentityCall.generate)).3
          (record w { calls = identity IdentityCall.generate ∷ w.calls }),
    ),
    from_pem-IsNamed pem w (encode pem) refl,
  )

  -- With a private key in memory that is not yet wiped: a load gives an open identity that holds the
  -- key, or it raises and has wiped the key before.
  pub from_pem_keeps_or_wipes :
      (pem : Text) (w : World S) {raw out key : Bytes} {n : ℕ} {kp : Ptr} {rc : ℤ}
      → encode pem ≡ ok raw
      → abi w.calls (identity (IdentityCall.load_pem raw)) ≡ (pos n, kp, key)
      → abi
          (identity (IdentityCall.load_pem raw) ∷ w.calls)
          (identity (IdentityCall.nodeid_from_pubkey (read_buffer pubkey_size key)))
        ≡ (rc, out)
      → freed (secret_handle kp) w.calls ≡ false
      → ((i : Identity) × ((from_pem abi pem w).0 ≡ ok i)
          × (i.kp ≡ kp)
          × (i.closed ≡ false)
          × (freed (secret_handle kp) (from_pem abi pem w).1.calls ≡ false))
        ⊎ ((e : Exc) × ((from_pem abi pem w).0 ≡ raise e)
            × (freed (secret_handle kp) (from_pem abi pem w).1.calls ≡ true))
  unfolding from_pem new_node_id freed
  from_pem_keeps_or_wipes pem w {out = out} {key = key} {kp = kp} {rc = pos k} e l d f = inl (
    new_identity kp (read_buffer pubkey_size key) (record { raw = read_buffer nodeid_size out }),
    ground (arith, new_node_id-read_buffer out w),
    refl,
    refl,
    ground (arith, length-read_buffer nodeid_size out),
  )
  from_pem_keeps_or_wipes pem w {kp = kp} {rc = negsuc k} e l d f =
      inr (nwep (from_code (negsuc k)), ground arith, ground (arith, ==_iff kp kp))
