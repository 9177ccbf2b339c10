-- ===== src/Client/Building/Attempts.antt =====
-- What the five ways to connect have in common.
use nwep_py.Prelude.{ℕ, true, false, Option, none, some, ◌∷◌, ◌≡◌, ℤ, pos, negsuc, arith}
use nwep_py.Errors.{Exc, Outcome, ok, raise, nwep, from_code, value_error}
use nwep_py.Sys.{Ptr, Abi, client, ClientCall, Connect}
use nwep_py.Sys.Exec.{World}
use nwep_py.Identity.{NodeId, Identity}
use nwep_py.Address.{Address}
use nwep_py.Client.Driven.{Client, new_client}
use nwep_py.Client.Connecting.{Connecting, new_connecting}
use nwep_py.Client.Building.{
  ClientBuilder, config_missing, connect, connect_fd, connect_by_node_id, start_connect,
  start_connect_fd,
}

-- Where to, and how.
pub data Attempt : Type 0 where
  to_address start_address : Address → Attempt
  over_fd start_fd : Address → ℕ → Attempt
  through_dht : Ptr → ℕ → Attempt

-- A connected client, or a handshake that is under way.
pub data Opened : Type 0 where
  connected : Client → Opened
  under_way : Connecting → Opened

abbrev as_connected : Outcome Client → Outcome Opened
as_connected (ok c) = ok (connected c)
as_connected (raise e) = raise e

abbrev as_under_way : Outcome Connecting → Outcome Opened
as_under_way (ok c) = ok (under_way c)
as_under_way (raise e) = raise e

unfoldable pub attempt :
    Abi → Attempt → NodeId → World ClientBuilder → Outcome Opened × World ClientBuilder
unfolding connect connect_fd connect_by_node_id start_connect start_connect_fd
attempt abi (to_address a) target w = let (r, v) = connect abi target a w in (as_connected r, v)
attempt abi (over_fd a fd) target w =
    let (r, v) = connect_fd abi target a fd w in (as_connected r, v)
attempt abi (through_dht d ms) target w =
    let (r, v) = connect_by_node_id abi target d ms w in (as_connected r, v)
attempt abi (start_address a) target w =
    let (r, v) = start_connect abi target a w in (as_under_way r, v)
attempt abi (start_fd a fd) target w =
    let (r, v) = start_connect_fd abi target a fd w in (as_under_way r, v)

-- What C is asked for, and what a code of it stands for.
abbrev pub asked : Attempt → Connect
asked (to_address a) = Connect.blocking a.raw
asked (over_fd a fd) = Connect.blocking_fd a.raw fd
asked (through_dht d ms) = Connect.by_nodeid d ms
asked (start_address a) = Connect.background a.raw
asked (start_fd a fd) = Connect.background_fd a.raw fd

abbrev pub opened : Attempt → Ptr → Opened
opened (start_address a) out = under_way (new_connecting out)
opened (start_fd a fd) out = under_way (new_connecting out)
opened _ out = connected (new_client out)

abbrev pub answered : Attempt → ℤ → Ptr → Outcome Opened
answered a (pos n) out = ok (opened a out)
answered a (negsuc n) out = raise (nwep (from_code (negsuc n)))

module _ (abi : Abi) where
  -- With an open identity, each of the five ways makes the one call for it, with the identity's key
  -- pair and the target's node id, and gives an open client, or a pending handshake, over the handle
  -- of C, or raises the exception of C's code.
  pub attempt-answered :
      (a : Attempt) (target : NodeId) (w : World ClientBuilder) {i : Identity} {rc : ℤ} {out : Ptr}
      → w.self.owner ≡ some i
      → i.closed ≡ false
      → abi w.calls (client (ClientCall.connect (asked a) i.kp target.raw)) ≡ (rc, out)
      → attempt abi a target w ≡ (
        answered a rc out,
        record w { calls = client (ClientCall.connect (asked a) i.kp target.raw) ∷ w.calls },
      )
  unfolding attempt
  attempt-answered (to_address a) target w {rc = pos n} o c r = ground arith
  attempt-answered (to_address a) target w {rc = negsuc n} o c r = ground arith
  attempt-answered (over_fd a fd) target w {rc = pos n} o c r = ground arith
  attempt-answered (over_fd a fd) target w {rc = negsuc n} o c r = ground arith
  attempt-answered (through_dht d ms) target w {rc = pos n} o c r = ground arith
  attempt-answered (through_dht d ms) target w {rc = negsuc n} o c r = ground arith
  attempt-answered (start_address a) target w {rc = pos n} o c r = ground arith
  attempt-answered (start_address a) target w {rc = negsuc n} o c r = ground arith
  attempt-answered (start_fd a fd) target w {rc = pos n} o c r = ground arith
  attempt-answered (start_fd a fd) target w {rc = negsuc n} o c r = ground arith

  -- Why a builder does not connect: no identity was set, or it is closed.
  abbrev pub Unready : Option Identity → Exc → Type 0
  Unready none e = e ≡ config_missing
  Unready (some i) e = (i.closed ≡ true) × (e ≡ value_error)

  -- Without an identity, or with one that was closed, each of the five ways raises, ConfigMissing or
  -- ValueError, and calls nothing.
  pub attempt_refused :
      (a : Attempt) (target : NodeId) (w : World ClientBuilder) (owner : Option Identity) {e : Exc}
      → w.self.owner ≡ owner
      → Unready owner e
      → attempt abi a target w ≡ (raise e, w)
  unfolding attempt
  attempt_refused (to_address a) target w none o u = ground arith
  attempt_refused (to_address a) target w (some i) o u = ground arith
  attempt_refused (over_fd a fd) target w none o u = ground arith
  attempt_refused (over_fd a fd) target w (some i) o u = ground arith
  attempt_refused (through_dht d ms) target w none o u = ground arith
  attempt_refused (through_dht d ms) target w (some i) o u = ground arith
  attempt_refused (start_address a) target w none o u = ground arith
  attempt_refused (start_address a) target w (some i) o u = ground arith
  attempt_refused (start_fd a fd) target w none o u = ground arith
  attempt_refused (start_fd a fd) target w (some i) o u = ground arith
