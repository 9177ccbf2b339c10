-- ===== src/Text/RoundTrip.antt =====
-- Decoding gives back what was encoded, and encoding fails on surrogates only.
use nwep_py.Prelude.{◌<◌, ◌⊎◌, Option, none, some, [], ◌∷◌, ◌++◌, All, ℕ, ◌≡◌, refl, arith}
use nwep_py.Sys.{Bytes}
use nwep_py.Errors.{ok}
use nwep_py.Text.{Text, encode_char, encode_all, start, decode_from, decode_step, encode, decode}

-- A code point that has an encoding: below the limit, and no surrogate.
abbrev pub IsScalar : ℕ → Type 0
IsScalar c = (c < 0x110000) × ((c < 0xD800) ⊎ (0xDFFF < c))

decode_from-encode_char :
    (c : ℕ) (head rest : Bytes) (text : Text)
    → c < 0x110000
    → encode_char c ≡ some head
    → decode_from start rest ≡ some text
    → decode_from start (head ++ rest) ≡ some (c ∷ text)
unfolding decode_from decode_step encode_char
decode_from-encode_char c head rest text h e d = ground arith

encode_char_total : (c : ℕ) → IsScalar c → (head : Bytes) × (encode_char c ≡ some head)
unfolding encode_char
encode_char_total c h = go (encode_char c) refl
  where
    go : (o : Option Bytes) → encode_char c ≡ o → (head : Bytes) × (encode_char c ≡ some head)
    go (some head) e = (head, e)
    go none e = absurd (ground arith)

encode_all_total :
    (text : Text)
    → All IsScalar text
    → (raw : Bytes) × (encode_all text ≡ some raw) × (decode_from start raw ≡ some text)
unfolding encode_all decode_from
encode_all_total [] h = ([], refl, refl)
encode_all_total (c ∷ text) h =
    let (head, e) = encode_char_total c h.0 in
    let (tail, f, g) = encode_all_total text h.1 in
    (head ++ tail, ground arith, decode_from-encode_char c head tail text h.0.0 e g)

-- Every text of scalar values encodes, and decoding the bytes gives the text back.
pub decode-encode :
    (text : Text)
    → All IsScalar text
    → (raw : Bytes) × (encode text ≡ ok raw) × (decode raw ≡ ok text)
unfolding encode decode
decode-encode text h =
    let (raw, e, d) = encode_all_total text h in (raw, ground arith, ground arith)
