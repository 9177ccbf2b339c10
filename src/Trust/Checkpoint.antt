-- ===== src/Trust/Checkpoint.antt =====
-- nwep/trust/checkpoint.py: a decoded checkpoint, and the genesis ceremony.
use nwep_py.Prelude.{ℕ, zero, suc, ◌+◌, Bool, true, false, not, List, [], ◌∷◌, ◌++◌, length, ltb}
use nwep_py.Errors.{value_error}
use nwep_py.Sys.{Bytes, Ptr, Abi, trust, TrustCall}
use nwep_py.Sys.Exec.{Exec, pure, throw, get, put, ◌>>=◌, ◌>>◌, raise_if, checked, ccall, swallowed}
use nwep_py.Trust.Bls.{BlsKeypair, require_trust, secret_of}

pub data CheckpointStatus : Type 0 where
  fresh warning stale : CheckpointStatus

-- `CheckpointStatus(code)`
unfoldable pub to_status : {S : Type 0} → ℕ → Exec S CheckpointStatus
unfolding pure throw
to_status zero = pure fresh
to_status (suc zero) = pure warning
to_status (suc (suc zero)) = pure stale
to_status (suc (suc (suc n))) = throw value_error

pub record Checkpoint : Type 0 where
  pub handle : Ptr
  pub closed : Bool

-- `_check_open`
unfoldable pub check_open : Exec Checkpoint (Unit {0})
unfolding ◌>>=◌ raise_if
check_open = do c ← get; raise_if c.closed value_error

-- `b"".join(kp._secret_bytes() for kp in founders)`, and of the public keys.
unfoldable pub join_secrets : {S : Type 0} → List BlsKeypair → Exec S Bytes
unfolding ◌>>=◌ secret_of pure
join_secrets [] = pure []
join_secrets (kp ∷ founders) = do
  secret ← secret_of kp
  rest ← join_secrets founders
  pure (secret ++ rest)

unfoldable pub join_keys : List BlsKeypair → Bytes
join_keys [] = []
join_keys (kp ∷ founders) = kp.public_key ++ join_keys founders

-- `range(first, first + n)`
unfoldable pub numbers : ℕ → ℕ → List ℕ
numbers first zero = []
numbers first (suc n) = first ∷ numbers (first + 1) n

module _ (abi : Abi) where
  unfoldable pub decode : Bool → {S : Type 0} → Bytes → Exec S Checkpoint
  unfolding ◌>>=◌ ◌>>◌ require_trust ccall checked pure
  decode available raw = do
    require_trust available
    (rc, out) ← ccall abi (trust (TrustCall.checkpoint_decode raw))
    checked rc
    pure (record { handle = out; closed = false })

  unfoldable pub staleness : ℕ → Exec Checkpoint CheckpointStatus
  unfolding ◌>>=◌ ◌>>◌ check_open ccall checked to_status
  staleness now_secs = do
    check_open
    c ← get
    rc ← ccall abi (trust (TrustCall.checkpoint_staleness c.handle now_secs))
    code ← checked rc
    to_status code

  abbrev free_if_open : Bool → Exec Checkpoint (Unit {0})
  free_if_open true = pure tt
  free_if_open false = do
    c ← get
    ccall abi (trust (TrustCall.checkpoint_free c.handle))
    put (record c { closed = true })

  unfoldable pub close : Exec Checkpoint (Unit {0})
  unfolding ◌>>=◌ ◌>>◌ ccall pure put
  close = do c ← get; free_if_open c.closed

  -- `__del__`
  unfoldable pub finalize : Exec Checkpoint (Unit {0})
  unfolding close swallowed
  finalize = swallowed close

  -- `bytes(range(1, n + 1))` raises from 256 founders on.
  abbrev genesis_of : {S : Type 0} → List BlsKeypair → ℕ → Exec S Bytes
  genesis_of [] threshold = throw value_error
  genesis_of (kp ∷ founders) threshold = do
    secrets ← join_secrets (kp ∷ founders)
    raise_if (not (ltb (length (kp ∷ founders)) 256)) value_error
    (rc, out) ← ccall abi (
        trust (
          TrustCall.genesis_create secrets (join_keys (kp ∷ founders))
            (numbers 1 (length (kp ∷ founders))) (length (kp ∷ founders)) threshold))
    checked rc
    pure out

  unfoldable pub genesis_checkpoint : Bool → {S : Type 0} → List BlsKeypair → ℕ → Exec S Bytes
  unfolding ◌>>=◌ ◌>>◌ require_trust join_secrets join_keys numbers raise_if ccall checked pure
      throw
  genesis_checkpoint available founders threshold = do
    require_trust available
    genesis_of founders threshold
