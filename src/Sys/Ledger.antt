-- ===== src/Sys/Ledger.antt =====
-- nwep/_sys.py: the functions of the trust log, its entries and its server.
use nwep_py.Prelude.{ℕ, Bool, ℤ}
use nwep_py.Sys.Base.{Bytes, Ptr}

-- `nwep_keybinding`
pub record RawBinding : Type 0 where
  pub node_id : Bytes
  pub pubkey : Bytes
  pub recovery_commitment : Bytes
  pub timestamp : ℕ
  pub signature : Bytes

-- `nwep_keyrotation`
pub record RawRotation : Type 0 where
  pub node_id : Bytes
  pub old_pubkey : Bytes
  pub new_pubkey : Bytes
  pub timestamp : ℕ
  pub overlap_expiry : ℕ
  pub sig_old : Bytes
  pub sig_new : Bytes

-- `nwep_revocation`
pub record RawRevocation : Type 0 where
  pub node_id : Bytes
  pub revoked_pubkey : Bytes
  pub recovery_pubkey : Bytes
  pub reason : ℕ
  pub timestamp : ℕ
  pub signature : Bytes

-- A key pair's halves go as its address.
pub data LogCall : Type 0 where
  entry_type keybinding_decode keyrotation_decode revocation_decode : Bytes → LogCall
  keybinding_create : Ptr → Bytes → ℕ → LogCall
  keyrotation_create : Bytes → Ptr → Ptr → ℕ → ℕ → LogCall
  revocation_create : Bytes → Bytes → Ptr → ℕ → ℕ → LogCall
  create : LogCall
  append : Ptr → Bytes → LogCall
  free size root : Ptr → LogCall
  server_create : Ptr → Ptr → LogCall
  server_free : Ptr → LogCall
  server_set_on_append : Ptr → Bool → LogCall
  server_dispatch : Ptr → ℕ → Ptr → Ptr → ℕ → LogCall

-- The creates of an entry answer the bytes up to the length that they store.
abbrev pub LogRet : LogCall → Type 0
LogRet (entry_type entry) = ℤ
LogRet (keybinding_decode entry) = ℤ × RawBinding
LogRet (keyrotation_decode entry) = ℤ × RawRotation
LogRet (revocation_decode entry) = ℤ × RawRevocation
LogRet create = Ptr
LogRet (append log entry) = ℤ
LogRet (free log) = Unit {0}
LogRet (size log) = ℕ
LogRet (server_create kp log) = Ptr
LogRet (server_free server) = Unit {0}
LogRet (server_set_on_append server on) = Unit {0}
LogRet (server_dispatch server conn req resp now) = ℤ
LogRet _ = ℤ × Bytes
