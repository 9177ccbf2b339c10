-- ===== src/Cache/Lookup.antt =====
-- What a lookup gives, and what it refuses before any call.
use nwep_py.Prelude.{
  ℕ, zero, suc, true, false, ◌||◌, Option, none, some, ◌≡◌, ◌≢◌, ◌⊎◌, inl, inr, ℤ, pos, negsuc,
  eq_ℤ, length, arith, ==_iff, if◌then◌else◌,
}
use nwep_py.Errors.{Outcome, ok, raise, value_error, nwep, from_code}
use nwep_py.Sys.{Bytes, Ptr, pubkey_size, Abi, cache, CacheCall}
use nwep_py.Sys.Exec.{World}
use nwep_py.Text.{Text, encode}
use nwep_py.Client.Response.{Response, new_response}
use nwep_py.Cache.{Cache, VerbArg, raw_token, app_not_found, crypto_verify, put_signed, get_signed}

-- What a code of C stands for: a hit, a miss for a missing or an unverifiable entry, or an error.
pub looked_up : ℤ → Ptr → Outcome (Option Response)
looked_up (pos zero) out = ok (some (new_response out))
looked_up (pos (suc n)) out = ok none
looked_up (negsuc n) out =
    if eq_ℤ (negsuc n) app_not_found || eq_ℤ (negsuc n) crypto_verify
    then ok none
    else raise (nwep (from_code (negsuc n)))

-- On an open cache, with a key of the right length, a lookup asks C once and gives what its code
-- stands for: an entry that does not verify is a miss, not an error.
pub get_signed-looked_up :
    (abi : Abi) (verb path : Text) (key : Bytes) (now : ℕ) (w : World Cache) {m p : Bytes} (rc : ℤ)
    (out : Ptr)
    → w.self.closed ≡ false
    → length key ≡ pubkey_size
    → encode verb ≡ ok m
    → encode path ≡ ok p
    → abi w.calls (cache (CacheCall.get_signed w.self.handle m p key now)) ≡ (rc, out)
    → (get_signed abi (raw_token verb) path key now w).0 ≡ looked_up rc out
unfolding get_signed looked_up
get_signed-looked_up abi verb path key now w (pos zero) out o l e f a = ground arith
get_signed-looked_up abi verb path key now w (pos (suc n)) out o l e f a = ground arith
get_signed-looked_up abi verb path key now w (negsuc n) out o l e f a = ground arith

-- A closed cache, or a key of a wrong length, raises before any call, on a store and on a lookup.
pub refused_before_call :
    (abi : Abi) (verb : VerbArg) (path : Text) (response : Response) (key : Bytes) (now : ℕ)
    (w : World Cache)
    → (w.self.closed ≡ true) ⊎ (length key ≢ pubkey_size)
    → (put_signed abi verb path response key now w ≡ (raise value_error, w))
      × (get_signed abi verb path key now w ≡ (raise value_error, w))
unfolding put_signed get_signed
refused_before_call abi verb path response key now w (inl c) = (ground arith, ground arith)
refused_before_call abi verb path response key now w (inr l) = (
  ground (arith, ==_iff (length key) pubkey_size),
  ground (arith, ==_iff (length key) pubkey_size),
)
