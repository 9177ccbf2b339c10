-- ===== src/Sys.antt =====
-- nwep/_sys.py: the declared C functions, a constructor for each call with its input arguments, and
-- what each call answers: its return value and what it writes through its output pointers. The
-- functions of identities, of the DHT, of the log and of the trust layer are in four children.
-- A pointer is a number, 0 is NULL. The length that goes with a byte pointer is the list's.
-- A function declared `int` answers a `ℤ`. Integer arguments are taken to be in their C range.
mod Base
mod Names
mod Discovery
mod Ledger
mod Quorum
pub mod Exec
pub mod Owned
pub mod Handles
pub mod Gives
pub mod Sizes
pub mod Keeps
pub mod Triple
pub use Base.*
pub use Names.{IdentityCall, IdentityRet}
pub use Discovery.{BootstrapEntry, DhtRecord, DhtCounters, DhtCall, DhtRet}
pub use Ledger.{RawBinding, RawRotation, RawRevocation, LogCall, LogRet}
pub use Quorum.{TrustCall, TrustRet}
use nwep_py.Prelude.{ℕ, Bool, Option, List, ℤ}

-- One slot of a `nwep_header[]`; a NULL name ends the array.
pub record HeaderSlot : Type 0 where
  pub name : Option Bytes
  pub value : Option Bytes

-- `nwep_range`
pub record ByteRange : Type 0 where
  pub start : ℕ
  pub end : ℕ

-- The accessors of a message, and the token tables.
pub data MessageCall : Type 0 where
  method_str status_str : ℕ → MessageCall
  get_header : Ptr → Bytes → MessageCall
  header_at : Ptr → ℕ → MessageCall
  get_status get_body header_count free : Ptr → MessageCall

abbrev pub MessageRet : MessageCall → Type 0
MessageRet (method_str code) = Option Bytes
MessageRet (status_str code) = Option Bytes
MessageRet (get_header msg name) = Option Bytes
MessageRet (header_at msg i) = ℤ × Bytes × Bytes
MessageRet (get_status msg) = Option Bytes
MessageRet (get_body msg) = Option Bytes
MessageRet (header_count msg) = ℕ
MessageRet (free msg) = Unit {0}

-- The response builders, over the handler's `resp_buf`, and the readers of a request.
pub data ResponseCall : Type 0 where
  ok : Ptr → Option Bytes → ResponseCall
  status : Ptr → Bytes → Option Bytes → ResponseCall
  header : Ptr → Bytes → Bytes → ResponseCall
  is_fresh : Ptr → Bytes → ResponseCall
  range : Ptr → ℕ → Option Bytes → ℕ → ResponseCall
  not_modified : Ptr → Bytes → ResponseCall
  partial : Ptr → Option Bytes → List ByteRange → Bytes → ResponseCall
  range_not_satisfiable : Ptr → ℕ → ResponseCall
  relay : Ptr → Ptr → ResponseCall
  capture : Ptr → ℕ → ResponseCall
  blit : Ptr → Bytes → ResponseCall
  verify : Ptr → Bytes → Bytes → ℕ → ResponseCall

-- `range` fills an array of as many ranges as it is given room for and stores a count; `capture`
-- stores a length, and the bytes where it is given room.
abbrev pub ResponseRet : ResponseCall → Type 0
ResponseRet (range req total etag room) = ℤ × List ByteRange × ℕ
ResponseRet (capture buf cap) = ℤ × Bytes × ℕ
ResponseRet _ = ℤ

-- How a server's socket is made.
pub data Listen : Type 0 where
  address reuseport : Bytes → Listen
  fd : ℕ → Listen
  fd_sharded : ℕ → ℕ → Listen

-- The counters of `nwep_server_metrics`.
pub record ServerMetrics : Type 0 where
  pub connections_active : ℕ
  pub connections_accepted : ℕ
  pub connections_refused : ℕ
  pub connections_closed : ℕ
  pub bytes_received : ℕ
  pub bytes_sent : ℕ
  pub datagrams_received : ℕ
  pub datagrams_sent : ℕ
  pub requests_dispatched : ℕ
  pub requests_shed : ℕ
  pub parked_active : ℕ
  pub load : ℤ

pub data ServerCall : Type 0 where
  listen : Listen → Ptr → ServerCall
  set_handler close local_port fd local_nodeid metrics_get load drain is_drained : Ptr → ServerCall
  last_handshake_error : Ptr → ServerCall
  reuse_port_supported : ServerCall
  cid_shard_id : Bytes → ServerCall
  tick next_timeout_ms set_max_parked set_overloaded : Ptr → ℕ → ServerCall
  conn_compression peer_nodeid : Ptr → ℕ → ServerCall
  respond : Ptr → ℕ → ℕ → Bytes → Option Bytes → ServerCall
  respond_header : Ptr → ℕ → ℕ → Bytes → Bytes → ServerCall
  relay : Ptr → ℕ → ℕ → Ptr → ServerCall
  respond_blit : Ptr → ℕ → ℕ → Bytes → ServerCall
  begin_stream : Ptr → ℕ → ℕ → Bytes → Bytes → Option (List HeaderSlot) → ServerCall
  stream_send : Ptr → ℕ → ℕ → Option Bytes → ServerCall
  stream_end : Ptr → ℕ → ℕ → ServerCall
  notify : Ptr → ℕ → Bytes → Option (List HeaderSlot) → Option Bytes → ServerCall

abbrev pub ServerRet : ServerCall → Type 0
ServerRet (listen how keypair) = ℤ × Ptr
ServerRet (local_port server) = ℕ
ServerRet (fd server) = ℕ
ServerRet (local_nodeid server) = ℤ × Bytes
ServerRet (peer_nodeid server conn) = ℤ × Bytes
ServerRet (metrics_get server) = ℤ × ServerMetrics
ServerRet (close server) = Unit {0}
ServerRet (set_max_parked server limit) = Unit {0}
ServerRet (set_overloaded server on) = Unit {0}
ServerRet _ = ℤ

-- How a client connects; `background` is the non-blocking start.
pub data Connect : Type 0 where
  blocking background : Bytes → Connect
  blocking_fd background_fd : Bytes → ℕ → Connect
  by_nodeid : Ptr → ℕ → Connect

-- The counters of `nwep_client_metrics`.
pub record ClientMetricsOut : Type 0 where
  pub requests_inflight : ℕ
  pub requests_completed : ℕ
  pub requests_failed : ℕ
  pub smoothed_rtt_us : ℕ
  pub alive : ℤ

pub data ClientCall : Type 0 where
  connect : Connect → Ptr → Bytes → ClientCall
  connect_poll fd is_alive compression peer_pubkey metrics_get poll_notify close : Ptr → ClientCall
  tick next_timeout_ms : Ptr → ℕ → ClientCall
  send submit : Ptr → ℕ → Bytes → Option (List HeaderSlot) → Option Bytes → ClientCall
  request_poll request_cancel : Ptr → ℕ → ClientCall
  set_request_done : Ptr → Bool → ClientCall
  verify_response : Ptr → Ptr → Bytes → ℕ → ClientCall
  set_cache : Ptr → Ptr → ClientCall
  open_stream : Ptr → ℕ → Bytes → Option (List HeaderSlot) → ClientCall
  stream_response stream_close : Ptr → ℕ → ClientCall
  stream_recv : Ptr → ℕ → ℕ → ClientCall
  stream_verify : Ptr → ℕ → Bytes → ClientCall

abbrev pub ClientRet : ClientCall → Type 0
ClientRet (connect how keypair target) = ℤ × Ptr
ClientRet (fd client) = ℕ
ClientRet (peer_pubkey client) = ℤ × Bytes
ClientRet (metrics_get client) = ℤ × ClientMetricsOut
ClientRet (poll_notify client) = Ptr
ClientRet (close client) = Unit {0}
ClientRet (send client method path headers body) = ℤ × Ptr
ClientRet (submit client method path headers body) = ℤ × ℕ
ClientRet (request_poll client request) = ℤ × Ptr
ClientRet (request_cancel client request) = Unit {0}
ClientRet (open_stream client method path headers) = ℤ × ℕ
ClientRet (stream_response client stream) = ℤ × Ptr
ClientRet (stream_recv client stream size) = ℤ × Bytes × ℤ
ClientRet (stream_close client stream) = Unit {0}
ClientRet _ = ℤ

-- The counters that `nwep_cache_stats` stores.
pub record CacheStats : Type 0 where
  pub hits : ℕ
  pub misses : ℕ
  pub stores : ℕ
  pub evictions : ℕ

pub data CacheCall : Type 0 where
  create : ℕ → ℕ → CacheCall
  free clear stats : Ptr → CacheCall
  put_signed : Ptr → Bytes → Bytes → Ptr → Bytes → ℕ → CacheCall
  get_signed : Ptr → Bytes → Bytes → Bytes → ℕ → CacheCall

abbrev pub CacheRet : CacheCall → Type 0
CacheRet (create max_bytes max_entries) = Ptr
CacheRet (free cache) = Unit {0}
CacheRet (clear cache) = Unit {0}
CacheRet (stats cache) = CacheStats
CacheRet (put_signed cache method path response key now) = ℤ
CacheRet (get_signed cache method path key now) = ℤ × Ptr

-- `split` and `combine` store a length beside the bytes.
pub data ShamirCall : Type 0 where
  split : Bytes → ℕ → ℕ → ℕ → ShamirCall
  combine : Bytes → ℕ → ℕ → ShamirCall

-- A call of any of them.
pub data Call : Type 0 where
  message : MessageCall → Call
  response : ResponseCall → Call
  server : ServerCall → Call
  client : ClientCall → Call
  cache : CacheCall → Call
  shamir : ShamirCall → Call
  identity : IdentityCall → Call
  dht : DhtCall → Call
  log : LogCall → Call
  trust : TrustCall → Call

abbrev pub Ret : Call → Type 0
Ret (message c) = MessageRet c
Ret (response c) = ResponseRet c
Ret (server c) = ServerRet c
Ret (client c) = ClientRet c
Ret (cache c) = CacheRet c
Ret (shamir c) = ℤ × Bytes × ℕ
Ret (identity c) = IdentityRet c
Ret (dht c) = DhtRet c
Ret (log c) = LogRet c
Ret (trust c) = TrustRet c

-- The C library, and the network behind it: what it answers to a call after the calls before it,
-- the latest first. It is a parameter of all that calls it.
abbrev pub Abi : Type 0
Abi = List Call → (c : Call) → Ret c
