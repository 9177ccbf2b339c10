-- ===== src/Runtime/Hosting/Live.antt =====
-- While an owner thread runs, its server and its DHT are open, and every method of a turn leaves them
-- so.
use nwep_py.Prelude.{ℕ, Bool, true, false, some, List, [], ◌∷◌, ◌≡◌, ◌&&◌, ◌||◌, arith}
use nwep_py.Sys.{Ptr, Abi, Call, dht}
use nwep_py.Sys.Exec.{World}
use nwep_py.Sys.Keeps.{Keeps}
use nwep_py.Sys.Handles.{server_handle, dht_handle, freed, use_after_free}
use nwep_py.Identity.{NodeId}
use nwep_py.Address.{Address}
use nwep_py.Server.Loop
use nwep_py.Dht
use nwep_py.Dht.{Record}
use nwep_py.Runtime.Hosting.Turns.{Kept}
use nwep_py.Runtime.Hosting.{Host, on_server, on_dht}

-- A call of an attached DHT.
unfoldable pub is_dht_call : Call → Bool
is_dht_call (dht c) = true
is_dht_call _ = false

-- Whether a DHT was called after the server whose socket it borrows was freed.
unfoldable pub outlives : Ptr → List Call → Bool
outlives h [] = false
outlives h (c ∷ older) = is_dht_call c && freed (server_handle h) older || outlives h older

-- The owner holds an open server and an open DHT over the two handles, and neither was misused.
pub record IsLive (h d : Ptr) (w : World Host) : Type 0 where
  pub server_ptr : w.self.server.handle ≡ h
  pub server_open : w.self.server.closed ≡ false
  pub dht_open : w.self.dht ≡ some (record { handle = d; server = h; closed = false })
  pub server_alive : freed (server_handle h) w.calls ≡ false
  pub dht_alive : freed (dht_handle d) w.calls ≡ false
  pub server_sound : use_after_free (server_handle h) w.calls ≡ false
  pub dht_sound : use_after_free (dht_handle d) w.calls ≡ false
  pub ordered : outlives h w.calls ≡ false

module _ (abi : Abi) (h d : Ptr) where
  -- One lemma for each method of the two that a turn calls.
  pub server_tick-IsLive : (now : ℕ) → Keeps (IsLive h d) (on_server (Loop.tick abi now))
  unfolding on_server Loop.tick freed use_after_free outlives is_dht_call
  server_tick-IsLive now w l = ground arith

  pub server_timeout-IsLive : (now : ℕ) → Keeps (IsLive h d) (on_server (Loop.next_timeout abi now))
  unfolding on_server Loop.next_timeout freed use_after_free outlives is_dht_call
  server_timeout-IsLive now w l = ground arith

  pub fileno-IsLive : Keeps (IsLive h d) (on_server (Loop.fileno abi))
  unfolding on_server Loop.fileno freed use_after_free outlives is_dht_call
  fileno-IsLive w l = ground arith

  pub dht_tick-IsLive : (now : ℕ) → Keeps (IsLive h d) (on_dht (Dht.tick abi now))
  unfolding on_dht Dht.tick freed use_after_free outlives is_dht_call
  dht_tick-IsLive now w l = ground arith

  pub dht_timeout-IsLive : (now : ℕ) → Keeps (IsLive h d) (on_dht (Dht.next_timeout abi now))
  unfolding on_dht Dht.next_timeout freed use_after_free outlives is_dht_call
  dht_timeout-IsLive now w l = ground arith

  pub announce-IsLive :
      (service : Address) (now : ℕ) → Keeps (IsLive h d) (on_dht (Dht.announce abi service now))
  unfolding on_dht Dht.announce freed use_after_free outlives is_dht_call
  announce-IsLive service now w l = ground arith

  pub metrics-IsLive : Keeps (IsLive h d) (on_dht (Dht.metrics abi))
  unfolding on_dht Dht.metrics freed use_after_free outlives is_dht_call
  metrics-IsLive w l = ground arith

  start_lookup-IsLive :
      (target : NodeId) (now : ℕ) → Keeps (IsLive h d) (on_dht (Dht.start_lookup abi target now))
  unfolding on_dht Dht.start_lookup freed use_after_free outlives is_dht_call
  start_lookup-IsLive target now w l = ground arith

  lookup_result-IsLive :
      (target : NodeId) → Keeps (IsLive h d) (on_dht (Dht.lookup_result abi target))
  unfolding on_dht Dht.lookup_result freed use_after_free outlives is_dht_call
  lookup_result-IsLive target w l = ground arith

  pub IsLive-Kept : Kept abi (IsLive h d)
  IsLive-Kept = record {
    server_tick = server_tick-IsLive;
    server_timeout = server_timeout-IsLive;
    fileno = fileno-IsLive;
    dht_tick = dht_tick-IsLive;
    dht_timeout = dht_timeout-IsLive;
    metrics = metrics-IsLive;
    start_lookup = start_lookup-IsLive;
    lookup_result = lookup_result-IsLive;
  }
