-- ===== src/Shamir.antt =====
-- nwep/shamir.py: a secret is split by C into one blob, which is cut into shares, and shares are
-- joined into one blob for C.
pub mod Shares
use nwep_py.Prelude.{
  ℕ, zero, suc, ◌+◌, ◌-◌, ◌*◌, ◌==◌, Bool, true, false, not, List, [], ◌∷◌, ◌++◌, any, length, take,
  drop,
}
use nwep_py.Errors.{value_error}
use nwep_py.Sys.{Bytes, Abi, shamir, ShamirCall}
use nwep_py.Sys.Exec.{Exec, pure, throw, ◌>>=◌, ◌>>◌, checked, ccall}

-- `blob[start:stop]`
abbrev pub slice : Bytes → ℕ → ℕ → Bytes
slice blob start stop = take (stop - start) (drop start blob)

-- The slices `[i * share_len : (i + 1) * share_len]` for as many i; `start` is the first one's
-- `i * share_len`.
unfoldable pub cut : ℕ → ℕ → ℕ → Bytes → List Bytes
cut zero start share_len blob = []
cut (suc shares) start share_len blob =
    slice blob start (start + share_len) ∷ cut shares (start + share_len) share_len blob

-- `b"".join(shares)`
unfoldable pub join : List Bytes → Bytes
join [] = []
join (s ∷ shares) = s ++ join shares

module _ (abi : Abi) {S : Type 0} where
  unfoldable pub split : Bytes → ℕ → ℕ → Exec S (List Bytes)
  unfolding ◌>>=◌ ◌>>◌ throw ccall checked cut
  split [] threshold shares = throw value_error
  split (b ∷ secret) threshold shares = do
    (rc, out, outlen) ← ccall abi (
        shamir
          (ShamirCall.split (b ∷ secret) threshold shares (shares * (1 + length (b ∷ secret)))))
    checked rc
    pure (cut shares 0 (1 + length (b ∷ secret)) (take outlen out))

  abbrev combine_on : Bool → List Bytes → ℕ → Exec S Bytes
  combine_on true shares share_len = throw value_error
  combine_on false shares share_len = do
    (rc, out, outlen) ←
        ccall abi (shamir (ShamirCall.combine (join shares) (length shares) share_len))
    checked rc
    pure (take outlen out)

  unfoldable pub combine : List Bytes → Exec S Bytes
  unfolding ◌>>=◌ ◌>>◌ throw ccall checked join
  combine [] = throw value_error
  combine (s ∷ shares) =
      combine_on (any (λ t. not (length t == length s)) (s ∷ shares)) (s ∷ shares) (length s)
