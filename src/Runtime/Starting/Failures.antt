-- ===== src/Runtime/Starting/Failures.antt =====
-- How the start of a managed server ends.
use nwep_py.Prelude.{ℤ, ℕ, Bool, true, false, some, List, ◌∷◌, ◌≡◌, pos, negsuc, map, arith, ==_iff}
use nwep_py.Errors.{nwep, from_code}
use nwep_py.Sys.{read_buffer, nodeid_size, Ptr, Abi, Call, dht, DhtCall, server, ServerCall, Bytes}
use nwep_py.Sys.Exec.{World}
use nwep_py.Sys.Handles.{server_handle, dht_handle, freed, use_after_free}
use nwep_py.Dht.{Bootstrap, entry_of}
use nwep_py.Runtime.Hosting.{Host}
use nwep_py.Runtime.Hosting.Live.{IsLive, outlives}
use nwep_py.Runtime.Starting.{Start, failed, serving, abandoned, unreported, start}

-- A new server over the handle, which nobody has freed or given to a DHT.
pub record IsBuilt (h : Ptr) (w : World Host) : Type 0 where
  pub server_ptr : w.self.server.handle ≡ h
  pub server_open : w.self.server.closed ≡ false
  pub server_alive : freed (server_handle h) w.calls ≡ false
  pub server_sound : use_after_free (server_handle h) w.calls ≡ false
  pub ordered : outlives h w.calls ≡ false

module _ (abi : Abi) (h d : Ptr) where
  -- The calls that attach and bootstrap a DHT.
  abbrev pub attaching : Bootstrap → List Bootstrap → ℕ → Call
  attaching b contacts seq = dht (DhtCall.attach h (map entry_of (b ∷ contacts)) seq)

  -- The calls behind an attach that C answered.
  abbrev pub bootstrapping : Bootstrap → List Bootstrap → ℕ → ℕ → List Call → List Call
  bootstrapping b contacts seq now_secs calls =
      dht (DhtCall.bootstrap d now_secs) ∷ attaching b contacts seq ∷ calls

  -- What C answered when it was asked for the node id and the port, behind those calls.
  abbrev pub Reported : List Call → Bytes → ℕ → Type 0
  Reported joined id port =
      (id ≡ read_buffer nodeid_size (abi joined (server (ServerCall.local_nodeid h))).1)
      × (port
          ≡ abi (server (ServerCall.local_nodeid h) ∷ joined) (server (ServerCall.local_port h)))

  -- The code that a failing start raises: that of the attach, or of the bootstrap behind it.
  abbrev pub first_failure : ℤ → ℤ → ℤ
  first_failure (negsuc n) rb = negsuc n
  first_failure (pos n) rb = rb

  -- By what the awaiter gets, with the codes of the attach and the bootstrap.
  abbrev pub Ended : List Call → ℤ → ℤ → Bool → Start → World Host → Type 0
  Ended joined ra rb cancelled (serving id port) w =
      IsLive h d w × Reported joined id port × (cancelled ≡ false)
  Ended joined ra rb cancelled (failed e) w =
      (e ≡ nwep (from_code (first_failure ra rb)))
      × (freed (server_handle h) w.calls ≡ true)
      × (freed (dht_handle d) w.calls ≡ false)
  Ended joined ra rb cancelled abandoned w =
      (freed (server_handle h) w.calls ≡ true) × (cancelled ≡ true)
  Ended joined ra rb cancelled (unreported e) w =
      IsLive h d w × (e ≡ nwep (from_code (abi joined (server (ServerCall.local_nodeid h))).0))

  -- When the bootstrap of an attached DHT fails, the start raises that to the awaiter, and has freed
  -- the server and not the DHT that borrows its socket.
  pub bootstrap_failure_leaks :
      (b : Bootstrap) (contacts : List Bootstrap) (seq now_secs : ℕ) (cancelled : Bool)
      (w : World Host) {n m : ℕ}
      → IsBuilt h w
      → freed (dht_handle d) w.calls ≡ false
      → abi w.calls (attaching b contacts seq) ≡ (pos n, d)
      → abi (attaching b contacts seq ∷ w.calls) (dht (DhtCall.bootstrap d now_secs)) ≡ negsuc m
      → ((start abi
            (record { contacts = some (b ∷ contacts); initial_seq = seq })
            now_secs
            cancelled
            w).0
          ≡ failed (nwep (from_code (negsuc m))))
        × (freed
              (server_handle h)
              (start abi
                (record { contacts = some (b ∷ contacts); initial_seq = seq })
                now_secs
                cancelled
                w).1.calls
            ≡ true)
        × (freed
              (dht_handle d)
              (start abi
                (record { contacts = some (b ∷ contacts); initial_seq = seq })
                now_secs
                cancelled
                w).1.calls
            ≡ false)
  unfolding start freed
  bootstrap_failure_leaks b contacts seq now_secs cancelled w s f a o =
      (ground arith, ground (arith, ==_iff h h), ground arith)
