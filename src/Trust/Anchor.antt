-- ===== src/Trust/Anchor.antt =====
-- nwep/trust/anchor.py: a member of the anchor set, and the coordination of an epoch.
pub mod Lifetime
use nwep_py.Prelude.{
  ℕ, zero, suc, Bool, true, false, not, Option, none, some, List, [], ◌∷◌, ◌++◌, map, ℤ, pos,
  length, ltb, all,
}
use nwep_py.Errors.{value_error}
use nwep_py.Sys.{
  Bytes, Ptr, bls_pubkey_size, bls_signature_size, Abi, trust, TrustCall, read_buffer,
}
use nwep_py.Sys.Exec.{
  Exec, pure, throw, get, put, ◌>>=◌, ◌>>◌, raise_if, checked, ccall, World, swallowed,
}
use nwep_py.Cache.{expect}
use nwep_py.Identity.{NodeId, Identity, keypair}
use nwep_py.Log.Tree.{internal_error}
use nwep_py.Log.Serving.{routed}
use nwep_py.Server.Request.{Request, peer_node_id}
use nwep_py.Server.Responder.{Responder, Reply}
use nwep_py.Trust.Bls.{BlsKeypair, require_trust, gather, secret_of}

-- `_ROOT`
abbrev pub root_size : ℕ
root_size = 32

pub record PartialSig : Type 0 where
  pub index : ℕ
  pub signature : Bytes

pub record AnchorNode : Type 0 where
  pub handle : Ptr
  pub closed : Bool

-- `_check_open`
unfoldable pub check_open : Exec AnchorNode (Unit {0})
unfolding ◌>>=◌ raise_if
check_open = do a ← get; raise_if a.closed value_error

-- `b"".join(bytes(nid) for nid in anchor_ids)`
unfoldable pub join_ids : List NodeId → Bytes
join_ids [] = []
join_ids (id ∷ ids) = id.raw ++ join_ids ids

abbrev pub index_of : PartialSig → ℕ
index_of p = p.index

abbrev pub signature_of : PartialSig → Bytes
signature_of p = p.signature

module _ (abi : Abi) (available : Bool) {S : Type 0} where
  abbrev made : Ptr → Exec S AnchorNode
  made zero = throw internal_error
  made (suc p) = pure (record { handle = suc p; closed = false })

  -- `AnchorNode(…)`
  unfoldable pub create : Identity → BlsKeypair → ℕ → ℕ → Exec S AnchorNode
  unfolding ◌>>=◌ ◌>>◌ require_trust keypair secret_of ccall pure throw
  create owner bls_keypair share_index collection_window_ms = do
    require_trust available
    kp ← keypair owner
    secret ← secret_of bls_keypair
    handle ← ccall abi (
        trust (
          TrustCall.anchor_create kp secret bls_keypair.public_key share_index
            collection_window_ms))
    made handle

  -- `peer` is `client.raw`.
  unfoldable pub request_partial_sig : Ptr → ℕ → Bytes → ℕ → Bytes → Exec S PartialSig
  unfolding ◌>>=◌ ◌>>◌ require_trust expect ccall checked pure
  request_partial_sig peer epoch merkle_root log_size peer_bls_pubkey = do
    require_trust available
    expect merkle_root root_size
    expect peer_bls_pubkey bls_pubkey_size
    (rc, index, out) ← ccall abi (
        trust
          (TrustCall.anchor_request_partial_sig peer epoch merkle_root log_size peer_bls_pubkey))
    checked rc
    pure (record { index = index; signature = read_buffer bls_signature_size out })

  -- `bytes(p.index for p in partials)` raises on an index from 256 on.
  abbrev pub finish_some : ℕ → Bytes → ℕ → List PartialSig → List Bytes → Exec S Bytes
  finish_some epoch merkle_root log_size [] keys = throw value_error
  finish_some epoch merkle_root log_size (p ∷ partials) keys = do
    raise_if (not (all (λ q. ltb q.index 256) (p ∷ partials))) value_error
    sigs ← gather bls_signature_size (map signature_of (p ∷ partials))
    pks ← gather bls_pubkey_size keys
    (rc, out) ← ccall abi (
        trust (
          TrustCall.anchor_finish_checkpoint epoch merkle_root log_size
            (map index_of (p ∷ partials)) sigs (length (p ∷ partials)) pks (length keys)))
    checked rc
    pure out

  unfoldable pub finish_checkpoint : ℕ → Bytes → ℕ → List PartialSig → List Bytes → Exec S Bytes
  unfolding ◌>>=◌ ◌>>◌ require_trust expect raise_if gather ccall checked pure throw
  finish_checkpoint epoch merkle_root log_size partials keys = do
    require_trust available
    expect merkle_root root_size
    finish_some epoch merkle_root log_size partials keys

module _ (abi : Abi) where
  unfoldable pub collect_log_root : ℕ → Bytes → ℕ → Bytes → Exec AnchorNode (Unit {0})
  unfolding ◌>>=◌ ◌>>◌ check_open expect ccall checked pure
  collect_log_root epoch server_root server_log_size local_root = do
    check_open
    expect server_root root_size
    expect local_root root_size
    a ← get
    rc ← ccall abi (
        trust
          (TrustCall.anchor_collect_log_root a.handle epoch server_root server_log_size local_root))
    checked rc
    pure tt

  -- The method changes the responder and not the anchor; its codes are those of the log server.
  unfoldable pub dispatch : AnchorNode → Request → List NodeId → ℕ → Exec Responder (Option Reply)
  unfolding ◌>>=◌ peer_node_id join_ids ccall routed
  dispatch anchor request anchor_ids now_secs = do
    peer ← peer_node_id abi request
    r ← get
    rc ← ccall abi (
        trust (
          TrustCall.anchor_dispatch anchor.handle peer (join_ids anchor_ids) (length anchor_ids)
            request.msg r.buf now_secs))
    routed rc

  unfoldable pub produce_partial_sig : ℕ → Bytes → ℕ → Exec AnchorNode PartialSig
  unfolding ◌>>=◌ ◌>>◌ check_open expect ccall checked pure
  produce_partial_sig epoch merkle_root log_size = do
    check_open
    expect merkle_root root_size
    a ← get
    (rc, index, out) ←
        ccall abi (trust (TrustCall.anchor_produce_partial_sig a.handle epoch merkle_root log_size))
    checked rc
    pure (record { index = index; signature = read_buffer bls_signature_size out })

  abbrev free_if_open : Bool → Exec AnchorNode (Unit {0})
  free_if_open true = pure tt
  free_if_open false = do
    a ← get
    ccall abi (trust (TrustCall.anchor_free a.handle))
    put (record a { closed = true })

  unfoldable pub close : Exec AnchorNode (Unit {0})
  unfolding ◌>>=◌ ◌>>◌ ccall pure put
  close = do a ← get; free_if_open a.closed

  -- `__del__`
  unfoldable pub finalize : Exec AnchorNode (Unit {0})
  unfolding close swallowed
  finalize = swallowed close
