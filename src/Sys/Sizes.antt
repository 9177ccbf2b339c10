-- ===== src/Sys/Sizes.antt =====
-- The lengths that nwep/_sys.py declares no check of: whether a call gives C as many bytes as it reads
-- through a pointer that comes without a length, or with a number of pieces.
use nwep_py.Prelude.{ℕ, ◌*◌, ◌==◌, Bool, true, ◌&&◌, Option, none, some, List, length, all}
use nwep_py.Sys.{
  Bytes, nodeid_size, pubkey_size, sig_size, bls_pubkey_size, bls_seckey_size, bls_signature_size,
  Call, cache, identity, log, trust, CacheCall, IdentityCall, LogCall, TrustCall,
}

-- The bytes are as many as so many pieces of a size.
abbrev pub pieces : ℕ → ℕ → Bytes → Bool
pieces n size blob = length blob == n * size

abbrev given_sized : Option Bytes → ℕ → Bool
given_sized none size = true
given_sized (some raw) size = length raw == size

cache_sized : CacheCall → Bool
cache_sized (CacheCall.put_signed c m p r key now) = length key == pubkey_size
cache_sized (CacheCall.get_signed c m p key now) = length key == pubkey_size
cache_sized _ = true

identity_sized : IdentityCall → Bool
identity_sized (IdentityCall.nodeid_from_pubkey key) = length key == pubkey_size
identity_sized (IdentityCall.nodeid_to_base58 id) = length id == nodeid_size
identity_sized (IdentityCall.nodeid_verify id key) =
    length id == nodeid_size && length key == pubkey_size
identity_sized (IdentityCall.verify sig msg key) =
    length sig == sig_size && length key == pubkey_size
identity_sized (IdentityCall.from_bytes addr port) = length addr == 16
identity_sized _ = true

log_sized : LogCall → Bool
log_sized (LogCall.keybinding_create kp commitment t) = length commitment == 32
log_sized (LogCall.keyrotation_create id old new t expiry) = length id == nodeid_size
log_sized (LogCall.revocation_create id key kp reason t) =
    length id == nodeid_size && length key == pubkey_size
log_sized _ = true

trust_sized : TrustCall → Bool
trust_sized (TrustCall.bls_verify sig key msg) =
    length sig == bls_signature_size && length key == bls_pubkey_size
trust_sized (TrustCall.bls_aggregate sigs n) = pieces n bls_signature_size sigs
trust_sized (TrustCall.bls_verify_aggregate sig keys n msg) =
    length sig == bls_signature_size && pieces n bls_pubkey_size keys
trust_sized (TrustCall.genesis_create secrets keys indices n threshold) =
    pieces n bls_seckey_size secrets && pieces n bls_pubkey_size keys && length indices == n
trust_sized (TrustCall.store_load_genesis_anchors s keys n) = pieces n bls_pubkey_size keys
trust_sized (TrustCall.store_verify_key s c id commitment now) =
    length id == nodeid_size && given_sized commitment 32
trust_sized (TrustCall.store_verify_key_binding s id key bundle now) =
    length id == nodeid_size && length key == pubkey_size
trust_sized (TrustCall.evaluate_key_rotation rotation key now) = length key == pubkey_size
trust_sized (TrustCall.anchor_create kp secret key index window) =
    length secret == bls_seckey_size && length key == bls_pubkey_size
trust_sized (TrustCall.anchor_collect_log_root a epoch root n local) =
    length root == 32 && length local == 32
trust_sized (TrustCall.anchor_dispatch a peer ids n req resp now) =
    length peer == nodeid_size && pieces n nodeid_size ids
trust_sized (TrustCall.anchor_produce_partial_sig a epoch root size) = length root == 32
trust_sized (TrustCall.anchor_request_partial_sig c epoch root size key) =
    length root == 32 && length key == bls_pubkey_size
trust_sized (TrustCall.anchor_finish_checkpoint epoch root size indices sigs n keys m) =
    length root == 32
    && length indices == n
    && pieces n bls_signature_size sigs
    && pieces m bls_pubkey_size keys
trust_sized _ = true

unfoldable pub well_sized : Call → Bool
unfolding cache_sized identity_sized log_sized trust_sized
well_sized (cache c) = cache_sized c
well_sized (identity c) = identity_sized c
well_sized (log c) = log_sized c
well_sized (trust c) = trust_sized c
well_sized _ = true

unfoldable pub all_sized : List Call → Bool
unfolding well_sized
all_sized calls = all well_sized calls
