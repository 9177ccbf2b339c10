-- ===== src/Server/Building/Socket.antt =====
-- The socket that `build` opens, and what it calls.
use nwep_py.Prelude.{
  ℕ, Bool, true, false, Option, none, some, List, ◌∷◌, ◌≡◌, ◌⊎◌, inl, inr, arith, pos, negsuc,
}
use nwep_py.Errors.{ok, raise, nwep, from_code, value_error}
use nwep_py.Identity.{Identity}
use nwep_py.Sys.{Bytes, Ptr, Abi, Call, Listen, server, ServerCall}
use nwep_py.Sys.Exec.{World}
use nwep_py.Server.Loop.{install_handler}
use nwep_py.Server.Building.{ServerBuilder, missing, build}

abbrev chosen_bind : Bool → Option Bytes → Option Listen
chosen_bind reuse none = none
chosen_bind true (some raw) = some (Listen.reuseport raw)
chosen_bind false (some raw) = some (Listen.address raw)

-- The socket by the options: a given descriptor goes before an address.
abbrev pub chosen : Option ℕ → Option ℕ → Bool → Option Bytes → Option Listen
chosen (some fd) (some shard_id) reuse raw = some (Listen.fd_sharded fd shard_id)
chosen (some fd) none reuse raw = some (Listen.fd fd)
chosen none shard_id reuse raw = chosen_bind reuse raw

abbrev pub socket : ServerBuilder → Option Listen
socket b = chosen b.fd b.shard_id b.reuse_port b.bind

-- Without an identity, or with an open one but without a descriptor and an address, `build` raises and
-- calls nothing.
pub build_refused :
    (abi : Abi) (w : World ServerBuilder) (owner : Option Identity)
    → w.self.owner ≡ owner
    → (owner ≡ none)
      ⊎ ((i : Identity) × (owner ≡ some i) × (i.closed ≡ false) × (socket w.self ≡ none))
    → build abi w ≡ (raise missing, w)
unfolding build
build_refused abi w owner o (inl n) = ground arith
build_refused abi w owner o (inr (i, e, c, s)) = ground arith

-- With an identity that was closed it raises ValueError and calls nothing.
pub build_refused_closed :
    (abi : Abi) (w : World ServerBuilder) {i : Identity}
    → w.self.owner ≡ some i
    → i.closed ≡ true
    → build abi w ≡ (raise value_error, w)
unfolding build
build_refused_closed abi w o c = ground arith

-- The calls behind a listen that succeeded.
abbrev pub with_limit : Option ℕ → Ptr → List Call → List Call
with_limit none handle calls = calls
with_limit (some limit) handle calls = server (ServerCall.set_max_parked handle limit) ∷ calls

abbrev pub with_handler : Bool → Ptr → List Call → List Call
with_handler false handle calls = calls
with_handler true handle calls = server (ServerCall.set_handler handle) ∷ calls

-- With an open identity and a socket, when C listens and takes the handler: `build` listens on that
-- socket first, caps the parked requests and installs the handler only where they were given, and
-- returns an open server over the handle, keeping its callback.
pub build_listens :
    (abi : Abi) (w : World ServerBuilder) {i : Identity} {how : Listen} {n m : ℕ} {out : Ptr}
    → w.self.owner ≡ some i
    → i.closed ≡ false
    → socket w.self ≡ some how
    → abi w.calls (server (ServerCall.listen how i.kp)) ≡ (pos n, out)
    → abi
        (with_limit w.self.max_parked out (server (ServerCall.listen how i.kp) ∷ w.calls))
        (server (ServerCall.set_handler out))
      ≡ pos m
    → (build abi w).0 ≡ ok (record { handle = out; closed = false; handler_cb = w.self.handler })
      × ((build abi w).1.calls
          ≡ with_handler w.self.handler out
              (with_limit w.self.max_parked out (server (ServerCall.listen how i.kp) ∷ w.calls)))
unfolding build install_handler
build_listens abi w {i} {how} {n} {m} {out} o c s l h = ground arith

-- When C does not listen, `build` raises the exception of its code and calls nothing more.
pub build_not_listening :
    (abi : Abi) (w : World ServerBuilder) {i : Identity} {how : Listen} {n : ℕ} {out : Ptr}
    → w.self.owner ≡ some i
    → i.closed ≡ false
    → socket w.self ≡ some how
    → abi w.calls (server (ServerCall.listen how i.kp)) ≡ (negsuc n, out)
    → build abi w ≡ (
      raise (nwep (from_code (negsuc n))),
      record w { calls = server (ServerCall.listen how i.kp) ∷ w.calls },
    )
unfolding build
build_not_listening abi w o c s l = ground arith
