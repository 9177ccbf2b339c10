-- ===== src/Tests/Quiet.antt =====
-- A C library for the tests: every call succeeds and gives the same small answers, but a tick of a
-- client and a listen answer the codes that are given.
use nwep_py.Tests.Silent.{quiet_identity, quiet_dht, quiet_log, quiet_trust}
use nwep_py.Prelude.{ℤ, pos, neg, none, some, [], ◌∷◌}
use nwep_py.Sys.{
  MessageCall, MessageRet, ResponseCall, ResponseRet, ServerCall, ServerRet, ClientCall, ClientRet,
  CacheCall, CacheRet, Abi, message, response, server, client, cache, shamir, identity, dht, log,
  trust,
}

abbrev quiet_message : (c : MessageCall) → MessageRet c
quiet_message (MessageCall.method_str code) = some (120 ∷ [])
quiet_message (MessageCall.status_str code) = some (120 ∷ [])
quiet_message (MessageCall.get_header msg name) = none
quiet_message (MessageCall.header_at msg i) = (neg 101, [], [])
quiet_message (MessageCall.get_status msg) = none
quiet_message (MessageCall.get_body msg) = none
quiet_message (MessageCall.header_count msg) = 0
quiet_message (MessageCall.free msg) = tt

abbrev quiet_response : (c : ResponseCall) → ResponseRet c
quiet_response (ResponseCall.range req total etag room) =
    (pos 0, record { start = 0; end = 4 } ∷ [], 1)
quiet_response (ResponseCall.capture buf cap) = (pos 0, [], 0)
quiet_response (ResponseCall.ok buf b) = pos 0
quiet_response (ResponseCall.status buf token b) = pos 0
quiet_response (ResponseCall.header buf n v) = pos 0
quiet_response (ResponseCall.is_fresh buf b) = pos 0
quiet_response (ResponseCall.not_modified buf b) = pos 0
quiet_response (ResponseCall.partial buf b r k) = pos 0
quiet_response (ResponseCall.range_not_satisfiable buf t) = pos 0
quiet_response (ResponseCall.relay buf m) = pos 0
quiet_response (ResponseCall.blit buf f) = pos 0
quiet_response (ResponseCall.verify m k p n) = pos 0

abbrev quiet_client : ℤ → (c : ClientCall) → ClientRet c
quiet_client code (ClientCall.connect how keypair target) = (pos 0, 7)
quiet_client code (ClientCall.connect_poll c) = pos 0
quiet_client code (ClientCall.fd c) = 3
quiet_client code (ClientCall.is_alive c) = pos 1
quiet_client code (ClientCall.compression c) = pos 0
quiet_client code (ClientCall.peer_pubkey c) = (
  pos 0,
  1 ∷ 1 ∷ 1 ∷ 1 ∷ 1 ∷ 1 ∷ 1 ∷ 1 ∷ 1 ∷ 1 ∷ 1 ∷ 1 ∷ 1 ∷ 1 ∷ 1 ∷ 1 ∷ 1 ∷ 1 ∷ 1 ∷ 1 ∷ 1 ∷ 1 ∷ 1 ∷ 1 ∷ 1
      ∷ 1 ∷ 1 ∷ 1 ∷ 1 ∷ 1 ∷ 1 ∷ 1 ∷ [],
)
quiet_client code (ClientCall.metrics_get c) = (
  pos 0,
  record {
    requests_inflight = 0;
    requests_completed = 0;
    requests_failed = 0;
    smoothed_rtt_us = 0;
    alive = pos 1;
  },
)
quiet_client code (ClientCall.poll_notify c) = 0
quiet_client code (ClientCall.close c) = tt
quiet_client code (ClientCall.tick c now) = code
quiet_client code (ClientCall.next_timeout_ms c now) = pos 5
quiet_client code (ClientCall.send c method path headers body) = (pos 0, 9)
quiet_client code (ClientCall.submit c method path headers body) = (pos 0, 1)
quiet_client code (ClientCall.request_poll c request) = (neg 203, 9)
quiet_client code (ClientCall.request_cancel c request) = tt
quiet_client code (ClientCall.set_request_done c on) = pos 0
quiet_client code (ClientCall.verify_response c m p now) = pos 0
quiet_client code (ClientCall.set_cache c k) = pos 0
quiet_client code (ClientCall.open_stream c method path headers) = (pos 0, 4)
quiet_client code (ClientCall.stream_response c s) = (pos 0, 9)
quiet_client code (ClientCall.stream_close c s) = tt
quiet_client code (ClientCall.stream_recv c s size) = (pos 0, 42 ∷ [], pos 1)
quiet_client code (ClientCall.stream_verify c s key) = pos 0

abbrev quiet_server : ℤ → (c : ServerCall) → ServerRet c
quiet_server code (ServerCall.listen how keypair) = (code, 5)
quiet_server code (ServerCall.local_port s) = 6937
quiet_server code (ServerCall.fd s) = 3
quiet_server code (ServerCall.local_nodeid s) = (pos 0, [])
quiet_server code (ServerCall.peer_nodeid s c) = (pos 0, [])
quiet_server code (ServerCall.metrics_get s) = (
  pos 0,
  record {
    connections_active = 0;
    connections_accepted = 0;
    connections_refused = 0;
    connections_closed = 0;
    bytes_received = 0;
    bytes_sent = 0;
    datagrams_received = 0;
    datagrams_sent = 0;
    requests_dispatched = 0;
    requests_shed = 0;
    parked_active = 0;
    load = pos 0;
  },
)
quiet_server code ServerCall.reuse_port_supported = pos 1
quiet_server code (ServerCall.cid_shard_id cid) = neg 1
quiet_server code (ServerCall.close s) = tt
quiet_server code (ServerCall.set_max_parked s n) = tt
quiet_server code (ServerCall.set_overloaded s n) = tt
quiet_server code (ServerCall.set_handler s) = pos 0
quiet_server code (ServerCall.load s) = pos 0
quiet_server code (ServerCall.drain s) = pos 0
quiet_server code (ServerCall.is_drained s) = pos 0
quiet_server code (ServerCall.last_handshake_error s) = pos 0
quiet_server code (ServerCall.tick s n) = pos 0
quiet_server code (ServerCall.next_timeout_ms s n) = pos 0
quiet_server code (ServerCall.conn_compression s c) = pos 0
quiet_server code (ServerCall.respond s c t k b) = pos 0
quiet_server code (ServerCall.respond_header s c t k v) = pos 0
quiet_server code (ServerCall.relay s c t m) = pos 0
quiet_server code (ServerCall.respond_blit s c t f) = pos 0
quiet_server code (ServerCall.begin_stream s c t p k h) = pos 0
quiet_server code (ServerCall.stream_send s c t b) = pos 0
quiet_server code (ServerCall.stream_end s c t) = pos 0
quiet_server code (ServerCall.notify s c p h b) = pos 0

abbrev quiet_cache : (c : CacheCall) → CacheRet c
quiet_cache (CacheCall.create max_bytes max_entries) = 11
quiet_cache (CacheCall.free c) = tt
quiet_cache (CacheCall.clear c) = tt
quiet_cache (CacheCall.stats c) = record { hits = 0; misses = 0; stores = 0; evictions = 0 }
quiet_cache (CacheCall.put_signed c method path r key now) = pos 0
quiet_cache (CacheCall.get_signed c method path key now) = (pos 0, 9)

abbrev pub with_codes : ℤ → ℤ → Abi
with_codes tick listen calls (message c) = quiet_message c
with_codes tick listen calls (response c) = quiet_response c
with_codes tick listen calls (server c) = quiet_server listen c
with_codes tick listen calls (client c) = quiet_client tick c
with_codes tick listen calls (cache c) = quiet_cache c
with_codes tick listen calls (shamir c) = (pos 0, [], 0)
with_codes tick listen calls (identity c) = quiet_identity c
with_codes tick listen calls (dht c) = quiet_dht c
with_codes tick listen calls (log c) = quiet_log c
with_codes tick listen calls (trust c) = quiet_trust c

abbrev pub with_tick : ℤ → Abi
with_tick code = with_codes code (pos 0)

abbrev pub deaf_from : ℤ → Abi
deaf_from code = with_codes (pos 0) code

abbrev pub quiet : Abi
quiet = with_codes (pos 0) (pos 0)
