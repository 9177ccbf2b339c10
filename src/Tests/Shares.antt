-- ===== src/Tests/Shares.antt =====
-- A secret of one byte in two shares.
use nwep_py.Prelude.{◌≡◌, refl, arith, pos, ℤ, ℕ, List, [], ◌∷◌}
use nwep_py.Errors.{ok}
use nwep_py.Sys.{Bytes, Abi, shamir, ShamirCall}
use nwep_py.Sys.Exec.{World}
use nwep_py.Shamir.{split, combine}
use nwep_py.Shamir.Shares.{combine-split}
use nwep_py.Tests.Quiet.{quiet}

-- Two shares that carry the secret in the clear, each behind its index.
abbrev halves : ShamirCall → ℤ × Bytes × ℕ
halves (ShamirCall.split secret threshold shares room) = (pos 0, 1 ∷ 42 ∷ 2 ∷ 42 ∷ [], 4)
halves (ShamirCall.combine blob shares share_len) = (pos 0, 42 ∷ 0 ∷ [], 1)

abbrev splitter : Abi
splitter calls (shamir c) = halves c
splitter calls c = quiet calls c

abbrev start : World ℕ
start = record { self = 0; calls = [] }

combine-split_example :
    (list : List Bytes) × ((split splitter (42 ∷ []) 2 2 start).0 ≡ ok list)
    × ((combine splitter list start).0 ≡ ok (42 ∷ []))
combine-split_example =
    combine-split splitter ℕ 42 [] 2 2 start start {n = 0} {m = 0} {blob = 1 ∷ 42 ∷ 2 ∷ 42 ∷ []}
      {out = 42 ∷ 0 ∷ []} {outlen = 1} (omega arith) refl refl refl refl
