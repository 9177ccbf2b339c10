-- ===== src/Tests/Data.antt =====
-- The table of errors, texts, headers and the cache.
use nwep_py.Cache.{finalize}
use nwep_py.Prelude.{
  ◌≡◌, ◌<◌, inl, refl, arith, neg, neg_part, ℕ, ◌/◌, ◌+◌, ◌==◌, ◌&&◌, length, true, false, List, [],
  ◌∷◌,
}
use nwep_py.Errors.{crypto, ok, from_code, catches, family_error}
use nwep_py.Errors.Codes.{catches_family, is_listed, century}
use nwep_py.Sys.{Bytes, HeaderSlot}
use nwep_py.Sys.Exec.{World}
use nwep_py.Sys.Handles.{freed, use_after_free, cache_handle}
use nwep_py.Text.{Text}
use nwep_py.Wire.{Status, status_code}
use nwep_py.Message.{Headers, encode_items, headers_from}
use nwep_py.Message.Headers.{
  IsPlain, read_slots, decode_pairs, with_fuel, decode_pairs-encode_items,
  headers_from-eq-decode_pairs,
}
use nwep_py.Client.Response.{Response, new_response}
use nwep_py.Cache.{Cache}
use nwep_py.Cache.Lifetime
use nwep_py.Cache.Lifetime.{put_op, close_op, cache_block_frees}
use nwep_py.Tests.Quiet.{quiet}

catches_family_example :
    catches (family_error crypto) (from_code (neg 304))
    ≡ (is_listed (neg 304) && (neg_part (neg 304) / 100 == century crypto))
catches_family_example = catches_family crypto (neg 304)

-- "é€"
abbrev word : Text
word = 233 ∷ 8364 ∷ []

abbrev code_token : Status → Text
code_token s = status_code s ∷ []

code_token_distinct : (a b : Status) → code_token a ≡ code_token b → a ≡ b
unfolding status_code
code_token_distinct a b e = ground arith

abbrev one_header : Headers
one_header = (97 ∷ [], 98 ∷ []) ∷ []

letter : (c : ℕ) → 0 < c → c < 128 → IsPlain (c ∷ [])
letter c h k = (((omega arith, inl (omega arith)), tt), (h, tt))

decode_pairs-encode_items_example :
    (slots : List HeaderSlot) × (encode_items one_header ≡ ok slots)
    × (length slots ≡ length one_header + 1)
    × (decode_pairs (read_slots slots) ≡ ok one_header)
decode_pairs-encode_items_example =
    decode_pairs-encode_items one_header
      ((letter 97 (omega arith) (omega arith), letter 98 (omega arith) (omega arith)), tt)

headers_from-eq-decode_pairs_example :
    (headers_from quiet 1 9 0 (record { self = new_response 9; calls = [] })).0
    ≡ with_fuel (decode_pairs [])
headers_from-eq-decode_pairs_example =
    headers_from-eq-decode_pairs quiet Response 1 9 0 []
      (record { self = new_response 9; calls = [] }) (λ calls. refl) (omega arith)

abbrev open_cache : World Cache
open_cache = record { self = record { handle = 11; closed = false }; calls = [] }

cache_block_frees_example :
    (freed
        (cache_handle 11)
        (Lifetime.step quiet close_op (Lifetime.run quiet (close_op ∷ []) open_cache)).calls
      ≡ true)
    × (use_after_free
          (cache_handle 11)
          (Lifetime.step quiet close_op (Lifetime.run quiet (close_op ∷ []) open_cache)).calls
        ≡ false)
    × ((finalize quiet (Lifetime.run quiet (close_op ∷ []) open_cache)).1
        ≡ Lifetime.step quiet close_op (Lifetime.run quiet (close_op ∷ []) open_cache))
    × ((finalize quiet
          (Lifetime.step quiet close_op (Lifetime.run quiet (close_op ∷ []) open_cache))).1
        ≡ Lifetime.step quiet close_op (Lifetime.run quiet (close_op ∷ []) open_cache))
unfolding freed use_after_free
cache_block_frees_example =
    cache_block_frees quiet 11 (close_op ∷ []) open_cache
      (record { handle = refl; flagged = refl; sound = refl })

abbrev some_key : Bytes
some_key =
    1 ∷ 1 ∷ 1 ∷ 1 ∷ 1 ∷ 1 ∷ 1 ∷ 1 ∷ 1 ∷ 1 ∷ 1 ∷ 1 ∷ 1 ∷ 1 ∷ 1 ∷ 1 ∷ 1 ∷ 1 ∷ 1 ∷ 1 ∷ 1 ∷ 1 ∷ 1 ∷ 1
    ∷ 1 ∷ 1 ∷ 1 ∷ 1 ∷ 1 ∷ 1 ∷ 1 ∷ 1 ∷ []
