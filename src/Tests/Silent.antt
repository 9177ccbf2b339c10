-- ===== src/Tests/Silent.antt =====
-- The part of the C library for the tests that answers for identities, the DHT, the log and trust.
use nwep_py.Prelude.{pos, neg, none, [], ◌∷◌}
use nwep_py.Sys.{IdentityCall, IdentityRet, DhtCall, DhtRet, LogCall, LogRet, TrustCall, TrustRet}

abbrev pub quiet_identity : (c : IdentityCall) → IdentityRet c
quiet_identity IdentityCall.generate = (pos 0, [], 13, [])
quiet_identity (IdentityCall.load_pem pem) = (pos 0, 13, [])
quiet_identity (IdentityCall.nodeid_from_pubkey key) = (pos 0, [])
quiet_identity (IdentityCall.nodeid_from_base58 text) = (pos 0, [])
quiet_identity (IdentityCall.nodeid_to_base58 id) = (pos 0, 120 ∷ [])
quiet_identity (IdentityCall.uri_parse text) = (pos 0, [], 6937, none)
quiet_identity (IdentityCall.save_pem kp) = (pos 0, 120 ∷ [])
quiet_identity (IdentityCall.nodeid_verify id key) = pos 0
quiet_identity (IdentityCall.sign kp msg) = (pos 0, [])
quiet_identity (IdentityCall.verify sig msg key) = pos 0
quiet_identity (IdentityCall.zeroize secret size) = tt
quiet_identity (IdentityCall.get_port addr) = 6937
quiet_identity (IdentityCall.loopback port) = []
quiet_identity (IdentityCall.wildcard port) = []
quiet_identity (IdentityCall.ipv4_mapped a b c d port) = []
quiet_identity (IdentityCall.from_bytes addr port) = []

abbrev pub quiet_dht : (c : DhtCall) → DhtRet c
quiet_dht (DhtCall.parse_bootstrap text) = (pos 0, record { node_id = []; addr = [] })
quiet_dht (DhtCall.attach s entries seq) = (pos 0, 17)
quiet_dht (DhtCall.bootstrap d now) = pos 0
quiet_dht (DhtCall.tick d now) = pos 0
quiet_dht (DhtCall.next_timeout_ms d now) = pos 5
quiet_dht (DhtCall.announce d addr now) = pos 0
quiet_dht (DhtCall.start_lookup d target now) = pos 0
quiet_dht (DhtCall.lookup_result d target) =
    (neg 601, record { node_id = []; addr = []; pubkey = []; seq = 0; timestamp = 0 })
quiet_dht (DhtCall.metrics_get d) = (
  pos 0,
  record { datagrams_sent = 0; datagrams_received = 0; bytes_sent = 0; bytes_received = 0 },
)
quiet_dht (DhtCall.close d) = tt

abbrev pub quiet_log : (c : LogCall) → LogRet c
quiet_log (LogCall.entry_type entry) = pos 1
quiet_log (LogCall.keybinding_decode entry) = (
  pos 0,
  record { node_id = []; pubkey = []; recovery_commitment = []; timestamp = 0; signature = [] },
)
quiet_log (LogCall.keyrotation_decode entry) = (
  pos 0,
  record {
    node_id = [];
    old_pubkey = [];
    new_pubkey = [];
    timestamp = 0;
    overlap_expiry = 0;
    sig_old = [];
    sig_new = [];
  },
)
quiet_log (LogCall.revocation_decode entry) = (
  pos 0,
  record {
    node_id = [];
    revoked_pubkey = [];
    recovery_pubkey = [];
    reason = 1;
    timestamp = 0;
    signature = [];
  },
)
quiet_log LogCall.create = 19
quiet_log (LogCall.append l entry) = pos 0
quiet_log (LogCall.free l) = tt
quiet_log (LogCall.size l) = 0
quiet_log (LogCall.server_create kp l) = 23
quiet_log (LogCall.server_free s) = tt
quiet_log (LogCall.server_set_on_append s on) = tt
quiet_log (LogCall.server_dispatch s conn req resp now) = pos 0
quiet_log (LogCall.root l) = (pos 0, [])
quiet_log (LogCall.keybinding_create kp c t) = (pos 0, 1 ∷ [])
quiet_log (LogCall.keyrotation_create id old new t expiry) = (pos 0, 2 ∷ [])
quiet_log (LogCall.revocation_create id key kp reason t) = (pos 0, 3 ∷ [])

abbrev pub quiet_trust : (c : TrustCall) → TrustRet c
quiet_trust TrustCall.bls_keygen = (pos 0, 29, [], [])
quiet_trust TrustCall.store_create = 31
quiet_trust (TrustCall.bls_sign secret msg) = (pos 0, [])
quiet_trust (TrustCall.bls_aggregate sigs n) = (pos 0, [])
quiet_trust (TrustCall.checkpoint_decode raw) = (pos 0, 37)
quiet_trust (TrustCall.checkpoint_free c) = tt
quiet_trust (TrustCall.store_free s) = tt
quiet_trust (TrustCall.store_max_log_size s) = 0
quiet_trust (TrustCall.anchor_free a) = tt
quiet_trust (TrustCall.genesis_create secrets keys indices n threshold) = (pos 0, [])
quiet_trust (TrustCall.store_save s room) = (pos 0, [], 0)
quiet_trust (TrustCall.anchor_create kp secret key index window) = 41
quiet_trust (TrustCall.anchor_produce_partial_sig a epoch root size) = (pos 0, 1, [])
quiet_trust (TrustCall.anchor_request_partial_sig c epoch root size key) = (pos 0, 1, [])
quiet_trust (TrustCall.anchor_finish_checkpoint epoch root size indices sigs n keys m) = (pos 0, [])
quiet_trust (TrustCall.bls_verify sig key msg) = pos 0
quiet_trust (TrustCall.bls_verify_aggregate sig keys n msg) = pos 0
quiet_trust (TrustCall.checkpoint_staleness c now) = pos 0
quiet_trust (TrustCall.store_observe_log_size s n) = pos 0
quiet_trust (TrustCall.store_load_genesis_anchors s keys n) = pos 0
quiet_trust (TrustCall.store_update_checkpoint s c now) = pos 0
quiet_trust (TrustCall.store_verify_checkpoint s c now) = pos 0
quiet_trust (TrustCall.store_apply_anchor_change s e epoch) = pos 0
quiet_trust (TrustCall.store_load s raw) = pos 0
quiet_trust (TrustCall.store_verify_key s c id commitment now) = pos 0
quiet_trust (TrustCall.store_verify_key_binding s id key bundle now) = pos 0
quiet_trust (TrustCall.evaluate_key_rotation rotation key now) = pos 0
quiet_trust (TrustCall.anchor_collect_log_root a epoch root n local) = pos 0
quiet_trust (TrustCall.anchor_dispatch a id ids n req resp now) = pos 0
