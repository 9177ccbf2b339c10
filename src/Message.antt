-- ===== src/Message.antt =====
-- nwep/message.py: the readers of a decoded message, and the encoding of headers for a call.
pub mod Headers
use nwep_py.Prelude.{
  ℕ, zero, suc, ◌+◌, true, false, Option, none, some, List, [], ◌∷◌, ◌++◌, ℤ, pos, eq_ℤ,
}
use nwep_py.Errors.{Outcome, ok, raise}
use nwep_py.Sys.{Bytes, Ptr, HeaderSlot, message, Abi, MessageCall}
use nwep_py.Sys.Exec.{Exec, pure, lift, ◌>>=◌, ccall}
use nwep_py.Text.{Text, encode, decode}

abbrev pub Headers : Type 0
Headers = List (Text × Text)

module _ {S : Type 0} where
  -- `text.encode("utf-8")` and `ffi.string(ptr).decode("utf-8")` inside a method.
  unfoldable pub encoded : Text → Exec S Bytes
  unfolding lift
  encoded text = lift (encode text)

  unfoldable pub decoded : Bytes → Exec S Text
  unfolding lift
  decoded raw = lift (decode raw)

  -- A string that C gives, or None for NULL.
  unfoldable pub decoded_or_none : Option Bytes → Exec S (Option Text)
  unfolding pure decoded ◌>>=◌
  decoded_or_none none = pure none
  decoded_or_none (some raw) = do text ← decoded raw; pure (some text)

module _ {S : Type 0} where
  -- One turn of the loop of `headers`: the pair at an index, or None when C answers other than 0.
  unfoldable pub header_at_code : ℤ → Bytes → Bytes → Exec S (Option (Text × Text))
  unfolding ◌>>=◌ pure decoded
  header_at_code rc name value = elim (eq_ℤ rc (pos 0)) [
    | false ↦ pure none
    | true ↦ do n ← decoded name; v ← decoded value; pure (some (n, v))
  ]

abbrev pub sentinel : HeaderSlot
sentinel = record { name = none; value = none }

-- The loop of `encode_headers` over the items, onto the zeroed array with one slot more than items.
unfoldable pub encode_items : Headers → Outcome (List HeaderSlot)
encode_items [] = ok (sentinel ∷ [])
encode_items ((name, value) ∷ items) = elim (encode name) [
  | raise e ↦ raise e
  | ok cname ↦ elim (encode value) [
    | raise e ↦ raise e
    | ok cvalue ↦ elim (encode_items items) [
      | raise e ↦ raise e
      | ok slots ↦ ok (record { name = some cname; value = some cvalue } ∷ slots)
    ]
  ]
]

-- `encode_headers`; None and an empty collection give NULL. A mapping is its items.
abbrev encode_given : Headers → Outcome (Option (List HeaderSlot))
encode_given [] = ok none
encode_given (h ∷ items) = elim (encode_items (h ∷ items)) [
  | raise e ↦ raise e
  | ok slots ↦ ok (some slots)
]

unfoldable pub encode_headers : Option Headers → Outcome (Option (List HeaderSlot))
unfolding encode_items
encode_headers none = ok none
encode_headers (some items) = encode_given items

module _ (abi : Abi) {S : Type 0} where
  -- `header`
  unfoldable pub header : Ptr → Text → Exec S (Option Text)
  unfolding ◌>>=◌ ccall encoded decoded_or_none
  header msg name = do
    raw ← encoded name
    ptr ← ccall abi (message (MessageCall.get_header msg raw))
    decoded_or_none ptr

  unfoldable pub header_at : Ptr → ℕ → Exec S (Option (Text × Text))
  unfolding ◌>>=◌ ccall header_at_code
  header_at msg index = do
    (rc, name, value) ← ccall abi (message (MessageCall.header_at msg index))
    header_at_code rc name value

  -- `list(headers(msg))` from an index on. None means that the fuel ran out.
  unfoldable pub headers_from : ℕ → Ptr → ℕ → Exec S (Option Headers)
  headers_from zero msg index w = (ok none, w)
  headers_from (suc fuel) msg index w =
      let (r, w') = header_at msg index w in
      elim r [
        | raise e ↦ (raise e, w')
        | ok none ↦ (ok (some []), w')
        | ok (some h) ↦
            let (r', w'') = headers_from fuel msg (index + 1) w' in
            elim r' [
              | raise e ↦ (raise e, w'')
              | ok none ↦ (ok none, w'')
              | ok (some rest) ↦ (ok (some (h ∷ rest)), w'')
            ]
      ]

  -- `body`: empty when C gives NULL, or no bytes.
  unfoldable pub body : Ptr → Exec S Bytes
  unfolding ◌>>=◌ ccall pure
  body msg = do
    ptr ← ccall abi (message (MessageCall.get_body msg))
    elim ptr [ none ↦ pure [] | some raw ↦ pure raw ]

  unfoldable pub header_count : Ptr → Exec S ℕ
  unfolding ccall
  header_count msg = ccall abi (message (MessageCall.header_count msg))

  -- `status_token`
  unfoldable pub status_token : Ptr → Exec S (Option Text)
  unfolding ◌>>=◌ ccall decoded_or_none
  status_token msg = do ptr ← ccall abi (message (MessageCall.get_status msg)); decoded_or_none ptr
