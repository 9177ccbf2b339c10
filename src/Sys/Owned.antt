-- ===== src/Sys/Owned.antt =====
-- The C objects, and what the calls of identities, of the DHT, of the log and of the trust layer read,
-- write and free.
use nwep_py.Prelude.{List, [], ◌∷◌, Bool, false, ◌==◌, none, some, Option}
use nwep_py.Sys.{Ptr, IdentityCall, DhtCall, LogCall, TrustCall}

pub data Handle : Type 0 where
  message_handle server_handle client_handle cache_handle : Ptr → Handle
  secret_handle dht_handle log_handle log_server_handle : Ptr → Handle
  store_handle checkpoint_handle anchor_handle : Ptr → Handle

abbrev pub same_handle : Handle → Handle → Bool
same_handle (message_handle p) (message_handle q) = p == q
same_handle (server_handle p) (server_handle q) = p == q
same_handle (client_handle p) (client_handle q) = p == q
same_handle (cache_handle p) (cache_handle q) = p == q
same_handle (secret_handle p) (secret_handle q) = p == q
same_handle (dht_handle p) (dht_handle q) = p == q
same_handle (log_handle p) (log_handle q) = p == q
same_handle (log_server_handle p) (log_server_handle q) = p == q
same_handle (store_handle p) (store_handle q) = p == q
same_handle (checkpoint_handle p) (checkpoint_handle q) = p == q
same_handle (anchor_handle p) (anchor_handle q) = p == q
same_handle _ _ = false

unfoldable pub identity_handles : IdentityCall → List Handle
identity_handles (IdentityCall.save_pem kp) = secret_handle kp ∷ []
identity_handles (IdentityCall.sign kp m) = secret_handle kp ∷ []
identity_handles (IdentityCall.zeroize p n) = secret_handle p ∷ []
identity_handles _ = []

unfoldable pub dht_handles : DhtCall → List Handle
dht_handles (DhtCall.parse_bootstrap t) = []
dht_handles (DhtCall.attach s e n) = server_handle s ∷ []
dht_handles (DhtCall.bootstrap d n) = dht_handle d ∷ []
dht_handles (DhtCall.tick d n) = dht_handle d ∷ []
dht_handles (DhtCall.next_timeout_ms d n) = dht_handle d ∷ []
dht_handles (DhtCall.announce d a n) = dht_handle d ∷ []
dht_handles (DhtCall.start_lookup d t n) = dht_handle d ∷ []
dht_handles (DhtCall.lookup_result d t) = dht_handle d ∷ []
dht_handles (DhtCall.metrics_get d) = dht_handle d ∷ []
dht_handles (DhtCall.close d) = dht_handle d ∷ []

unfoldable pub log_handles : LogCall → List Handle
log_handles (LogCall.keybinding_create kp c t) = secret_handle kp ∷ []
log_handles (LogCall.keyrotation_create i a b t o) = secret_handle a ∷ secret_handle b ∷ []
log_handles (LogCall.revocation_create i k kp r t) = secret_handle kp ∷ []
log_handles (LogCall.append l e) = log_handle l ∷ []
log_handles (LogCall.free l) = log_handle l ∷ []
log_handles (LogCall.size l) = log_handle l ∷ []
log_handles (LogCall.root l) = log_handle l ∷ []
log_handles (LogCall.server_create kp l) = secret_handle kp ∷ log_handle l ∷ []
log_handles (LogCall.server_free s) = log_server_handle s ∷ []
log_handles (LogCall.server_set_on_append s b) = log_server_handle s ∷ []
log_handles (LogCall.server_dispatch s c q r n) = log_server_handle s ∷ message_handle q ∷ []
log_handles _ = []

unfoldable pub trust_handles : TrustCall → List Handle
trust_handles (TrustCall.bls_sign s m) = secret_handle s ∷ []
trust_handles (TrustCall.checkpoint_free c) = checkpoint_handle c ∷ []
trust_handles (TrustCall.checkpoint_staleness c n) = checkpoint_handle c ∷ []
trust_handles (TrustCall.store_free s) = store_handle s ∷ []
trust_handles (TrustCall.store_max_log_size s) = store_handle s ∷ []
trust_handles (TrustCall.store_observe_log_size s n) = store_handle s ∷ []
trust_handles (TrustCall.store_load_genesis_anchors s k n) = store_handle s ∷ []
trust_handles (TrustCall.store_update_checkpoint s c n) = store_handle s ∷ []
trust_handles (TrustCall.store_verify_checkpoint s c n) = store_handle s ∷ []
trust_handles (TrustCall.store_apply_anchor_change s e n) = store_handle s ∷ []
trust_handles (TrustCall.store_save s r) = store_handle s ∷ []
trust_handles (TrustCall.store_load s b) = store_handle s ∷ []
trust_handles (TrustCall.store_verify_key s c i r n) = store_handle s ∷ client_handle c ∷ []
trust_handles (TrustCall.store_verify_key_binding s i k b n) = store_handle s ∷ []
trust_handles (TrustCall.anchor_create kp s k i w) = secret_handle kp ∷ []
trust_handles (TrustCall.anchor_free a) = anchor_handle a ∷ []
trust_handles (TrustCall.anchor_collect_log_root a e r n l) = anchor_handle a ∷ []
trust_handles (TrustCall.anchor_dispatch a i b n q r t) = anchor_handle a ∷ message_handle q ∷ []
trust_handles (TrustCall.anchor_produce_partial_sig a e r n) = anchor_handle a ∷ []
trust_handles (TrustCall.anchor_request_partial_sig c e r n k) = client_handle c ∷ []
trust_handles _ = []

unfoldable pub freed_secret : IdentityCall → Option Handle
freed_secret (IdentityCall.zeroize p n) = some (secret_handle p)
freed_secret _ = none

unfoldable pub freed_dht : DhtCall → Option Handle
freed_dht (DhtCall.close d) = some (dht_handle d)
freed_dht _ = none

unfoldable pub freed_log : LogCall → Option Handle
freed_log (LogCall.free l) = some (log_handle l)
freed_log (LogCall.server_free s) = some (log_server_handle s)
freed_log _ = none

unfoldable pub freed_trust : TrustCall → Option Handle
freed_trust (TrustCall.checkpoint_free c) = some (checkpoint_handle c)
freed_trust (TrustCall.store_free s) = some (store_handle s)
freed_trust (TrustCall.anchor_free a) = some (anchor_handle a)
freed_trust _ = none
