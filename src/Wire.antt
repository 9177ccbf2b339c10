-- ===== src/Wire.antt =====
-- nwep/wire.py: the request verbs, the response statuses and the body codecs, with their wire codes,
-- and the protocol tokens that the C library gives for the codes.
pub mod Tokens
use nwep_py.Prelude.{
  ℕ, zero, suc, ◌+◌, ◌/◌, ◌%◌, Option, none, some, List, [], ◌∷◌, ◌++◌, not, ltb, all,
  if◌then◌else◌,
}
use nwep_py.Errors.{unicode_error}
use nwep_py.Sys.{Bytes, message, Abi, MessageCall}
use nwep_py.Sys.Exec.{Exec, pure, ◌>>=◌, ◌>>◌, raise_if, ccall}
use nwep_py.Text.{Text, codes, same_text}

pub data Compression : Type 0 where
  none_codec zstd unknown : Compression

-- The public verbs; the codes 4 and 5 are not among them.
pub data Method : Type 0 where
  read write update delete heartbeat head : Method

unfoldable pub method_code : Method → ℕ
method_code read = 0
method_code write = 1
method_code update = 2
method_code delete = 3
method_code heartbeat = 6
method_code head = 7

pub data Status : Type 0 where
  ok created accepted no_content partial_content moved not_modified bad_request : Status
  unauthorized forbidden not_found not_allowed conflict gone too_large : Status
  precondition_failed range_not_satisfiable rate_limited error unavailable timeout : Status
  not_implemented : Status

unfoldable pub status_code : Status → ℕ
status_code ok = 0
status_code created = 1
status_code accepted = 2
status_code no_content = 3
status_code partial_content = 4
status_code moved = 5
status_code not_modified = 6
status_code bad_request = 7
status_code unauthorized = 8
status_code forbidden = 9
status_code not_found = 10
status_code not_allowed = 11
status_code conflict = 12
status_code gone = 13
status_code too_large = 14
status_code precondition_failed = 15
status_code range_not_satisfiable = 16
status_code rate_limited = 17
status_code error = 18
status_code unavailable = 19
status_code timeout = 20
status_code not_implemented = 21

-- The members, in the order of the class.
abbrev pub all_methods : List Method
all_methods = read ∷ write ∷ update ∷ delete ∷ heartbeat ∷ head ∷ []

abbrev pub all_statuses : List Status
all_statuses =
    ok ∷ created ∷ accepted ∷ no_content ∷ partial_content ∷ moved ∷ not_modified ∷ bad_request
    ∷ unauthorized ∷ forbidden ∷ not_found ∷ not_allowed ∷ conflict ∷ gone ∷ too_large
    ∷ precondition_failed ∷ range_not_satisfiable ∷ rate_limited ∷ error ∷ unavailable ∷ timeout
    ∷ not_implemented ∷ []

-- A number in decimal, as an f-string prints it. `n` digits are enough for `n`.
decimal_on : ℕ → ℕ → Text
decimal_on zero n = []
decimal_on (suc fuel) n =
    let above = decimal_on fuel (n / 10) in (if ltb n 10 then [] else above) ++ (b'0' + n % 10) ∷ []

unfoldable pub decimal : ℕ → Text
unfolding decimal_on
decimal n = decimal_on (n + 1) n

module _ {S : Type 0} where
  -- `raw.decode("ascii")`
  unfoldable pub decode_ascii : Bytes → Exec S Text
  unfolding ◌>>◌ raise_if
  decode_ascii raw = do raise_if (not (all (λ b. ltb b 128) raw)) unicode_error; pure raw

  -- A token that C gives, or the fallback for a code that C does not know.
  unfoldable pub token_or : Text → Option Bytes → Exec S Text
  unfolding decode_ascii pure
  token_or fallback (some token) = decode_ascii token
  token_or fallback none = pure fallback

module _ (abi : Abi) {S : Type 0} where
  unfoldable pub method_token : ℕ → Exec S Text
  unfolding ◌>>=◌ ccall token_or
  method_token code = do
    ptr ← ccall abi (message (MessageCall.method_str code))
    token_or (codes "method-" ++ decimal code) ptr

  unfoldable pub status_token : ℕ → Exec S Text
  unfolding ◌>>=◌ ccall token_or
  status_token code = do
    ptr ← ccall abi (message (MessageCall.status_str code))
    token_or (codes "status-" ++ decimal code) ptr

-- `_METHOD_BY_TOKEN` and `_STATUS_BY_TOKEN`: `{m.token: m for m in …}`, where a later member under
-- the same token wins. `token` gives the tokens at the time of import.
module _ {A : Type 0} (token : A → Text) where
  unfoldable pub by_token : List A → Text → Option A
  by_token [] t = none
  by_token (m ∷ members) t = elim (by_token members t) [
    | some later ↦ some later
    | none ↦ if same_text (token m) t then some m else none
  ]
