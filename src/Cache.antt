-- ===== src/Cache.antt =====
-- nwep/cache.py: the response cache.
pub mod Lifetime
pub mod Lookup
use nwep_py.Prelude.{
  ℕ, zero, suc, Bool, true, false, not, ◌==◌, ◌||◌, Option, none, some, ℤ, pos, neg, eq_ℤ, length,
  if◌then◌else◌,
}
use nwep_py.Errors.{value_error, instance_of, nwep, family_error, internal}
use nwep_py.Sys.{Bytes, Ptr, pubkey_size, Abi, cache, CacheCall, CacheStats}
use nwep_py.Sys.Exec.{Exec, pure, throw, get, put, ◌>>=◌, ◌>>◌, raise_if, checked, ccall, swallowed}
use nwep_py.Text.{Text}
use nwep_py.Wire.{Method, method_code, method_token}
use nwep_py.Message.{encoded}
use nwep_py.Client.Response.{Response, new_response, raw_message}

pub record Cache : Type 0 where
  pub handle : Ptr
  pub closed : Bool

-- `Union[Method, str]`
pub data VerbArg : Type 0 where
  member : Method → VerbArg
  raw_token : Text → VerbArg

-- `_APP_NOT_FOUND` and `_CRYPTO_VERIFY`
abbrev pub app_not_found : ℤ
app_not_found = neg 601

abbrev pub crypto_verify : ℤ
crypto_verify = neg 304

unfoldable pub check_open : Exec Cache (Unit {0})
unfolding ◌>>=◌ raise_if
check_open = do c ← get; raise_if c.closed value_error

-- `_expect`, of this module and of others
unfoldable pub expect : {S : Type 0} → Bytes → ℕ → Exec S (Unit {0})
unfolding raise_if
expect buf size = raise_if (not (length buf == size)) value_error

-- The codes that `get_signed` tells apart.
unfoldable pub lookup_outcome : ℤ → Ptr → Exec Cache (Option Response)
unfolding ◌>>◌ checked
lookup_outcome rc out =
    if eq_ℤ rc (pos 0)
    then pure (some (new_response out))
    else if eq_ℤ rc app_not_found || eq_ℤ rc crypto_verify
    then pure none
    else (do checked rc; pure none)

module _ (abi : Abi) where
  -- `Cache(max_bytes, max_entries)`; a NULL handle raises `InternalError`.
  abbrev made : {S : Type 0} → Ptr → Exec S Cache
  made zero = throw (nwep (instance_of (family_error internal)))
  made (suc p) = pure (record { handle = suc p; closed = false })

  unfoldable pub create : {S : Type 0} → ℕ → ℕ → Exec S Cache
  unfolding ◌>>=◌ ccall
  create max_bytes max_entries = do
    handle ← ccall abi (cache (CacheCall.create max_bytes max_entries))
    made handle

  -- `str(method)`
  unfoldable pub str_method : {S : Type 0} → VerbArg → Exec S Text
  unfolding method_token method_code pure
  str_method (member m) = method_token abi (method_code m)
  str_method (raw_token t) = pure t

  unfoldable pub put_signed : VerbArg → Text → Response → Bytes → ℕ → Exec Cache (Unit {0})
  unfolding ◌>>=◌ ◌>>◌ check_open expect str_method encoded raw_message ccall checked
  put_signed method path response origin_pubkey now_secs = do
    check_open
    expect origin_pubkey pubkey_size
    c ← get
    verb ← str_method method
    m ← encoded verb
    p ← encoded path
    msg ← raw_message response
    rc ← ccall abi (cache (CacheCall.put_signed c.handle m p msg origin_pubkey now_secs))
    checked rc
    pure tt

  unfoldable pub get_signed : VerbArg → Text → Bytes → ℕ → Exec Cache (Option Response)
  unfolding ◌>>=◌ ◌>>◌ check_open expect str_method encoded ccall lookup_outcome
  get_signed method path origin_pubkey now_secs = do
    check_open
    expect origin_pubkey pubkey_size
    c ← get
    verb ← str_method method
    m ← encoded verb
    p ← encoded path
    (rc, out) ← ccall abi (cache (CacheCall.get_signed c.handle m p origin_pubkey now_secs))
    lookup_outcome rc out

  unfoldable pub stats : Exec Cache CacheStats
  unfolding ◌>>=◌ ◌>>◌ check_open ccall
  stats = do check_open; c ← get; ccall abi (cache (CacheCall.stats c.handle))

  unfoldable pub clear : Exec Cache (Unit {0})
  unfolding ◌>>=◌ ◌>>◌ check_open ccall
  clear = do check_open; c ← get; ccall abi (cache (CacheCall.clear c.handle))

  abbrev free_if_open : Bool → Exec Cache (Unit {0})
  free_if_open true = pure tt
  free_if_open false = do
    c ← get
    ccall abi (cache (CacheCall.free c.handle))
    put (record c { closed = true })

  unfoldable pub close : Exec Cache (Unit {0})
  unfolding ◌>>=◌ ◌>>◌ ccall
  close = do c ← get; free_if_open c.closed

  -- `__del__`
  unfoldable pub finalize : Exec Cache (Unit {0})
  unfolding close swallowed
  finalize = swallowed close
