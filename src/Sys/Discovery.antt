-- ===== src/Sys/Discovery.antt =====
-- nwep/_sys.py: the functions of the DHT.
use nwep_py.Prelude.{ℕ, List, ℤ}
use nwep_py.Sys.Base.{Bytes, Ptr}

-- `nwep_bootstrap_entry`
pub record BootstrapEntry : Type 0 where
  pub node_id : Bytes
  pub addr : Bytes

-- `nwep_dht_record`
pub record DhtRecord : Type 0 where
  pub node_id : Bytes
  pub addr : Bytes
  pub pubkey : Bytes
  pub seq : ℕ
  pub timestamp : ℕ

-- `nwep_dht_metrics`
pub record DhtCounters : Type 0 where
  pub datagrams_sent : ℕ
  pub datagrams_received : ℕ
  pub bytes_sent : ℕ
  pub bytes_received : ℕ

pub data DhtCall : Type 0 where
  parse_bootstrap : Bytes → DhtCall
  attach : Ptr → List BootstrapEntry → ℕ → DhtCall
  bootstrap tick next_timeout_ms : Ptr → ℕ → DhtCall
  announce start_lookup : Ptr → Bytes → ℕ → DhtCall
  lookup_result : Ptr → Bytes → DhtCall
  metrics_get close : Ptr → DhtCall

abbrev pub DhtRet : DhtCall → Type 0
DhtRet (parse_bootstrap text) = ℤ × BootstrapEntry
DhtRet (attach server entries seq) = ℤ × Ptr
DhtRet (lookup_result dht target) = ℤ × DhtRecord
DhtRet (metrics_get dht) = ℤ × DhtCounters
DhtRet (close dht) = Unit {0}
DhtRet _ = ℤ
