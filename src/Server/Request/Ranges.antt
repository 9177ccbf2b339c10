-- ===== src/Server/Request/Ranges.antt =====
-- How a range header resolves.
use nwep_py.Prelude.{
  none, ℤ, pos, negsuc, ℕ, zero, suc, ◌≤◌, List, [], ◌∷◌, ◌≡◌, refl, arith, length, take, ◌==◌,
  if◌then◌else◌,
}
use nwep_py.Errors.{Outcome, ok, raise, nwep, from_code}
use nwep_py.Sys.{ByteRange, Abi, response, ResponseCall}
use nwep_py.Sys.Exec.{World}
use nwep_py.Server.Request.{
  Request, max_ranges, range, RangeOutcome, full, unsatisfiable, ranges, read_ranges, range_outcome,
}

read_ranges-take :
    (out : List ByteRange) (count : ℕ)
    → count ≤ length out
    → read_ranges out count ≡ ok (take count out)
unfolding read_ranges
read_ranges-take out zero h = refl
read_ranges-take [] (suc count) h = elim h [ ]
read_ranges-take (r ∷ out) (suc count) h = ground (arith, read_ranges-take out count)

-- What a code, an array and a count stand for.
pub resolved : ℤ → List ByteRange → ℕ → Outcome RangeOutcome
resolved (negsuc n) out count = raise (nwep (from_code (negsuc n)))
resolved (pos rc) out count =
    ok (if rc == 0 then ranges (take count out) else if rc == 2 then unsatisfiable else full)

-- Where C stores no more ranges than there is room for, `range` makes one call and gives the ranges
-- that C stored on 0, none selected on 2, the whole body on any other code that is not negative, and
-- raises the exception of a negative code.
pub range-resolved :
    (abi : Abi) (S : Type 0) (req : Request) (total : ℕ) (w : World S) {code : ℤ}
    {out : List ByteRange} {count : ℕ}
    → abi w.calls (response (ResponseCall.range req.msg total none max_ranges)) ≡ (code, out, count)
    → count ≤ length out
    → (range abi req total none w).0 ≡ resolved code out count
unfolding range range_outcome resolved
range-resolved abi S req total w {code} {out} {count} a h =
    ground (arith, read_ranges-take out count)
