-- ===== src/Sys/Handles.antt =====
-- Ownership of the C objects: the objects that a call reads or writes, the one that it frees (a
-- secret, that it wipes), and
-- whether a list of calls touches an object that was freed before.
pub use nwep_py.Sys.Owned.{
  Handle, message_handle, server_handle, client_handle, cache_handle, secret_handle, dht_handle,
  log_handle, log_server_handle, store_handle, checkpoint_handle, anchor_handle, same_handle,
}
use nwep_py.Sys.Owned.{
  identity_handles, dht_handles, log_handles, trust_handles, freed_secret, freed_dht, freed_log,
  freed_trust,
}
use nwep_py.Prelude.{List, [], ◌∷◌, Bool, false, ◌&&◌, ◌||◌, any, none, some, Option}
use nwep_py.Sys.{
  Ptr, MessageCall, ResponseCall, ServerCall, ClientCall, CacheCall, Call, message, response,
  server, client, cache, shamir, identity, dht, log, trust, Connect,
}

message_handles : MessageCall → List Handle
message_handles (MessageCall.method_str c) = []
message_handles (MessageCall.status_str c) = []
message_handles (MessageCall.get_header m n) = message_handle m ∷ []
message_handles (MessageCall.header_at m i) = message_handle m ∷ []
message_handles (MessageCall.get_status m) = message_handle m ∷ []
message_handles (MessageCall.get_body m) = message_handle m ∷ []
message_handles (MessageCall.header_count m) = message_handle m ∷ []
message_handles (MessageCall.free m) = message_handle m ∷ []

response_handles : ResponseCall → List Handle
response_handles (ResponseCall.is_fresh m e) = message_handle m ∷ []
response_handles (ResponseCall.range m t e r) = message_handle m ∷ []
response_handles (ResponseCall.relay b m) = message_handle m ∷ []
response_handles (ResponseCall.verify m k p n) = message_handle m ∷ []
response_handles _ = []

-- A server call's server, 0 for `listen`, which makes one, and for the two that have none.
server_ptr : ServerCall → Ptr
server_ptr (ServerCall.listen h k) = 0
server_ptr ServerCall.reuse_port_supported = 0
server_ptr (ServerCall.cid_shard_id cid) = 0
server_ptr (ServerCall.set_handler s) = s
server_ptr (ServerCall.close s) = s
server_ptr (ServerCall.local_port s) = s
server_ptr (ServerCall.fd s) = s
server_ptr (ServerCall.local_nodeid s) = s
server_ptr (ServerCall.metrics_get s) = s
server_ptr (ServerCall.load s) = s
server_ptr (ServerCall.drain s) = s
server_ptr (ServerCall.is_drained s) = s
server_ptr (ServerCall.last_handshake_error s) = s
server_ptr (ServerCall.tick s n) = s
server_ptr (ServerCall.next_timeout_ms s n) = s
server_ptr (ServerCall.set_max_parked s n) = s
server_ptr (ServerCall.set_overloaded s n) = s
server_ptr (ServerCall.conn_compression s c) = s
server_ptr (ServerCall.peer_nodeid s c) = s
server_ptr (ServerCall.respond s c t k b) = s
server_ptr (ServerCall.respond_header s c t k v) = s
server_ptr (ServerCall.relay s c t m) = s
server_ptr (ServerCall.respond_blit s c t f) = s
server_ptr (ServerCall.begin_stream s c t p k h) = s
server_ptr (ServerCall.stream_send s c t b) = s
server_ptr (ServerCall.stream_end s c t) = s
server_ptr (ServerCall.notify s c e h b) = s

-- A client call's client, 0 for `connect`, which makes one.
client_ptr : ClientCall → Ptr
client_ptr (ClientCall.connect h k t) = 0
client_ptr (ClientCall.connect_poll c) = c
client_ptr (ClientCall.fd c) = c
client_ptr (ClientCall.is_alive c) = c
client_ptr (ClientCall.compression c) = c
client_ptr (ClientCall.peer_pubkey c) = c
client_ptr (ClientCall.metrics_get c) = c
client_ptr (ClientCall.poll_notify c) = c
client_ptr (ClientCall.close c) = c
client_ptr (ClientCall.tick c n) = c
client_ptr (ClientCall.next_timeout_ms c n) = c
client_ptr (ClientCall.send c m p h b) = c
client_ptr (ClientCall.submit c m p h b) = c
client_ptr (ClientCall.request_poll c r) = c
client_ptr (ClientCall.request_cancel c r) = c
client_ptr (ClientCall.set_request_done c b) = c
client_ptr (ClientCall.verify_response c m p n) = c
client_ptr (ClientCall.set_cache c k) = c
client_ptr (ClientCall.open_stream c m p h) = c
client_ptr (ClientCall.stream_response c s) = c
client_ptr (ClientCall.stream_close c s) = c
client_ptr (ClientCall.stream_recv c s n) = c
client_ptr (ClientCall.stream_verify c s k) = c

cache_handles : CacheCall → List Handle
cache_handles (CacheCall.create b e) = []
cache_handles (CacheCall.free c) = cache_handle c ∷ []
cache_handles (CacheCall.clear c) = cache_handle c ∷ []
cache_handles (CacheCall.stats c) = cache_handle c ∷ []
cache_handles (CacheCall.put_signed c m p r k n) = cache_handle c ∷ message_handle r ∷ []
cache_handles (CacheCall.get_signed c m p k n) = cache_handle c ∷ []

-- The messages, caches, key pairs and DHTs that a server's or a client's call is lent.
lent_to_server : ServerCall → List Handle
lent_to_server (ServerCall.relay s c t m) = message_handle m ∷ []
lent_to_server (ServerCall.listen h k) = secret_handle k ∷ []
lent_to_server _ = []

lent_to_connect : Connect → List Handle
lent_to_connect (Connect.by_nodeid d t) = dht_handle d ∷ []
lent_to_connect _ = []

lent_to_client : ClientCall → List Handle
lent_to_client (ClientCall.verify_response c m p n) = message_handle m ∷ []
lent_to_client (ClientCall.set_cache c k) = cache_handle k ∷ []
lent_to_client (ClientCall.connect h k t) = secret_handle k ∷ lent_to_connect h
lent_to_client _ = []

unfoldable pub handles : Call → List Handle
unfolding message_handles response_handles server_ptr client_ptr cache_handles lent_to_server
    lent_to_client lent_to_connect identity_handles dht_handles log_handles trust_handles
handles (message c) = message_handles c
handles (response c) = response_handles c
handles (server c) = server_handle (server_ptr c) ∷ lent_to_server c
handles (client c) = client_handle (client_ptr c) ∷ lent_to_client c
handles (cache c) = cache_handles c
handles (shamir c) = []
handles (identity c) = identity_handles c
handles (dht c) = dht_handles c
handles (log c) = log_handles c
handles (trust c) = trust_handles c

freed_message : MessageCall → Option Handle
freed_message (MessageCall.free m) = some (message_handle m)
freed_message _ = none

freed_server : ServerCall → Option Handle
freed_server (ServerCall.close s) = some (server_handle s)
freed_server _ = none

freed_client : ClientCall → Option Handle
freed_client (ClientCall.close c) = some (client_handle c)
freed_client _ = none

freed_cache : CacheCall → Option Handle
freed_cache (CacheCall.free c) = some (cache_handle c)
freed_cache _ = none

unfoldable pub freed_by : Call → Option Handle
unfolding freed_message freed_server freed_client freed_cache freed_secret freed_dht freed_log
    freed_trust
freed_by (message c) = freed_message c
freed_by (response c) = none
freed_by (server c) = freed_server c
freed_by (client c) = freed_client c
freed_by (cache c) = freed_cache c
freed_by (shamir c) = none
freed_by (identity c) = freed_secret c
freed_by (dht c) = freed_dht c
freed_by (log c) = freed_log c
freed_by (trust c) = freed_trust c

abbrev is_some_handle : Handle → Option Handle → Bool
is_some_handle h none = false
is_some_handle h (some g) = same_handle h g

-- Whether one of the calls frees the object.
unfoldable pub freed : Handle → List Call → Bool
unfolding freed_by
freed h [] = false
freed h (c ∷ older) = is_some_handle h (freed_by c) || freed h older

-- Whether a call touches the object after a call that freed it; a second free does.
unfoldable pub use_after_free : Handle → List Call → Bool
unfolding handles freed
use_after_free h [] = false
use_after_free h (c ∷ older) =
    any (same_handle h) (handles c) && freed h older || use_after_free h older
