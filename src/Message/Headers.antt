-- ===== src/Message/Headers.antt =====
-- Headers go out as an array that C can read back, and come in as C lists them.
use nwep_py.Prelude.{
  ℕ, zero, suc, ◌+◌, ◌<◌, false, Option, none, some, List, [], ◌∷◌, ◌++◌, All, length, pos, eq_ℤ,
  ◌==◌, if◌then◌else◌, ◌≡◌, refl, arith,
}
use nwep_py.Errors.{Outcome, ok, raise}
use nwep_py.Sys.{Bytes, Ptr, HeaderSlot, message, Abi, MessageCall}
use nwep_py.Sys.Exec.{World}
use nwep_py.Text.{Text, encode_char, encode_all, encode, decode}
use nwep_py.Text.RoundTrip.{IsScalar, decode-encode}
use nwep_py.Message.{Headers, sentinel, encode_items, header_at, headers_from}

-- What C reads through a `char *`: the bytes before the first NUL.
pub c_string : Bytes → Bytes
c_string [] = []
c_string (b ∷ raw) = let rest = c_string raw in if b == 0 then [] else b ∷ rest

-- What C reads through a `nwep_header *`: pairs until a NULL name.
abbrev or_nothing : Option Bytes → Bytes
or_nothing none = []
or_nothing (some raw) = raw

pub read_slots : List HeaderSlot → List (Bytes × Bytes)
unfolding c_string
read_slots [] = []
read_slots (slot ∷ slots) = elim slot.name [
  | none ↦ []
  | some name ↦ (c_string name, c_string (or_nothing slot.value)) ∷ read_slots slots
]

-- Texts that encode, with no NUL in them.
abbrev pub IsPlain : Text → Type 0
IsPlain text = All IsScalar text × All (λ c. 0 < c) text

c_string-encode_char :
    (c : ℕ) (head tail : Bytes)
    → 0 < c
    → encode_char c ≡ some head
    → c_string (head ++ tail) ≡ head ++ c_string tail
unfolding encode_char c_string
c_string-encode_char c head tail h e = ground arith

c_string-encode_all :
    (text : Text) (raw : Bytes)
    → All (λ c. 0 < c) text
    → encode_all text ≡ some raw
    → c_string raw ≡ raw
unfolding encode_all
c_string-encode_all [] raw h e = unfold c_string in ground arith
c_string-encode_all (c ∷ text) raw h e =
    go (λ t. c_string-encode_all text t h.1) (encode_char c) refl (encode_all text) refl
  where
    go :
        ((t : Bytes) → encode_all text ≡ some t → c_string t ≡ t)
        → (o : Option Bytes) → encode_char c ≡ o
        → (p : Option Bytes) → encode_all text ≡ p
        → c_string raw ≡ raw
    go ih none q p r = ground arith
    go ih (some head) q none r = ground arith
    go ih (some head) q (some tail) r =
        ground (arith, c_string-encode_char c head tail h.0 q, ih tail r)

encode_plain :
    (text : Text)
    → IsPlain text
    → (raw : Bytes) × (encode text ≡ ok raw) × (c_string raw ≡ raw) × (decode raw ≡ ok text)
encode_plain text h =
    let (raw, e, d) = decode-encode text h.0 in
    (raw, e, c_string-encode_all text raw h.1 (unfold encode in ground arith), d)

-- The pairs that C reads, decoded.
pub decode_pairs : List (Bytes × Bytes) → Outcome Headers
decode_pairs [] = ok []
decode_pairs ((n, v) ∷ pairs) = elim (decode n) [
  | raise e ↦ raise e
  | ok name ↦ elim (decode v) [
    | raise e ↦ raise e
    | ok value ↦ elim (decode_pairs pairs) [
      | raise e ↦ raise e
      | ok rest ↦ ok ((name, value) ∷ rest)
    ]
  ]
]

abbrev pub IsPlainHeaders : Headers → Type 0
IsPlainHeaders = All (λ (name, value). IsPlain name × IsPlain value)

-- Headers of scalar values with no NUL encode, into one slot more than there are headers; what C
-- reads there, decoded, is the headers again.
pub decode_pairs-encode_items :
    (hs : Headers)
    → IsPlainHeaders hs
    → (slots : List HeaderSlot) × (encode_items hs ≡ ok slots)
      × (length slots ≡ length hs + 1)
      × (decode_pairs (read_slots slots) ≡ ok hs)
unfolding decode_pairs read_slots encode_items
decode_pairs-encode_items [] h = (sentinel ∷ [], refl, omega arith, refl)
decode_pairs-encode_items ((name, value) ∷ hs) h =
    let (n, e, f, g) = encode_plain name h.0.0 in
    let (v, e', f', g') = encode_plain value h.0.1 in
    let (slots, q, l, r) = decode_pairs-encode_items hs h.1 in
    (record { name = some n; value = some v } ∷ slots, ground arith, ground arith, ground arith)

-- C lists the pairs from an index on: it answers 0 and the pair at each index, and a code other
-- than 0 behind the last.
abbrev pub Serves : Abi → Ptr → ℕ → List (Bytes × Bytes) → Type 0
Serves abi msg i [] =
    (calls : _) → eq_ℤ (abi calls (message (MessageCall.header_at msg i))).0 (pos 0) ≡ false
Serves abi msg i ((n, v) ∷ pairs) =
    ((calls : _) → abi calls (message (MessageCall.header_at msg i)) ≡ (pos 0, n, v))
    × Serves abi msg (i + 1) pairs

abbrev pub with_fuel : Outcome Headers → Outcome (Option Headers)
with_fuel (raise e) = raise e
with_fuel (ok hs) = ok (some hs)

-- With more fuel than headers, the loop returns what C lists from the index on, decoded.
pub headers_from-eq-decode_pairs :
    (abi : Abi) (S : Type 0) (fuel : ℕ) (msg : Ptr) (i : ℕ) (pairs : List (Bytes × Bytes))
    (w : World S)
    → Serves abi msg i pairs
    → length pairs < fuel
    → (headers_from abi fuel msg i w).0 ≡ with_fuel (decode_pairs pairs)
unfolding headers_from header_at decode_pairs
headers_from-eq-decode_pairs abi S zero msg i pairs w s h = elim h [ ]
headers_from-eq-decode_pairs abi S (suc fuel) msg i [] w s h = ground (arith, s w.calls)
headers_from-eq-decode_pairs abi S (suc fuel) msg i ((n, v) ∷ pairs) w s h =
    let w' : World S = record w { calls = message (MessageCall.header_at msg i) ∷ w.calls } in
    ground (arith, s.0 w.calls, headers_from-eq-decode_pairs abi S fuel msg (i + 1) pairs w' s.1)
