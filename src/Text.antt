-- ===== src/Text.antt =====
-- Python's `str.encode("utf-8")` and `bytes.decode("utf-8")`, which every text to and from the C
-- library goes through. A `str` is the list of its code points.
pub mod RoundTrip
use Prim.Native.Char.{code}
use Prim.Native.String
use nwep_py.Prelude.{
  ℕ, suc, ◌+◌, ◌-◌, ◌*◌, ◌/◌, ◌%◌, String, Bool, true, false, ◌&&◌, ◌==◌, Option, none, some, List,
  [], ◌∷◌, ◌++◌, ltb, leb, if◌then◌else◌,
}
use nwep_py.Sys.{Bytes}
use nwep_py.Errors.{Outcome, ok, raise, unicode_error}

abbrev pub Text : Type 0
Text = List ℕ

-- A literal.
abbrev pub codes : String → Text
codes String.[] = []
codes (String.◌∷◌ c s) = code c ∷ codes s

-- `s == t`
unfoldable pub same_text : Text → Text → Bool
same_text [] [] = true
same_text (a ∷ s) (b ∷ t) = a == b && same_text s t
same_text _ _ = false

-- One code point; a surrogate has no encoding.
unfoldable pub encode_char : ℕ → Option Bytes
encode_char c =
    if ltb c 0x80
    then some (c ∷ [])
    else if ltb c 0x800
    then some ((0xC0 + c / 64) ∷ (0x80 + c % 64) ∷ [])
    else if leb 0xD800 c && leb c 0xDFFF
    then none
    else if ltb c 0x10000
    then some ((0xE0 + c / 4096) ∷ (0x80 + c / 64 % 64) ∷ (0x80 + c % 64) ∷ [])
    else some
        ((0xF0 + c / 262144) ∷ (0x80 + c / 4096 % 64) ∷ (0x80 + c / 64 % 64) ∷ (0x80 + c % 64) ∷ [])

unfoldable pub encode_all : Text → Option Bytes
encode_all [] = some []
encode_all (c ∷ text) = elim (encode_char c) [
  | none ↦ none
  | some head ↦ elim (encode_all text) [ none ↦ none | some tail ↦ some (head ++ tail) ]
]

-- What the decoder waits for: a first byte, or so many more bytes of a code point begun, the next
-- of them within bounds.
pub data Mode : Type 0 where
  start : Mode
  more : ℕ → ℕ → ℕ → ℕ → Mode

-- The decoder after one byte, with the code point that the byte completes.
pub data Step : Type 0 where
  bad : Step
  emit : ℕ → Step
  next : Mode → Step

unfoldable pub decode_step : Mode → ℕ → Step
decode_step start b =
    if ltb b 0x80
    then emit b
    else if ltb b 0xC2
    then bad
    else if ltb b 0xE0
    then next (more 0 (b - 0xC0) 0x80 0xBF)
    else if b == 0xE0
    then next (more 1 0 0xA0 0xBF)
    else if b == 0xED
    then next (more 1 13 0x80 0x9F)
    else if ltb b 0xF0
    then next (more 1 (b - 0xE0) 0x80 0xBF)
    else if b == 0xF0
    then next (more 2 0 0x90 0xBF)
    else if ltb b 0xF4
    then next (more 2 (b - 0xF0) 0x80 0xBF)
    else if b == 0xF4
    then next (more 2 4 0x80 0x8F)
    else bad
decode_step (more left acc lo hi) b =
    if leb lo b && leb b hi
    then (if left == 0
        then emit (acc * 64 + (b - 0x80))
        else next (more (left - 1) (acc * 64 + (b - 0x80)) 0x80 0xBF))
    else bad

unfoldable pub decode_from : Mode → Bytes → Option Text
decode_from start [] = some []
decode_from (more left acc lo hi) [] = none
decode_from mode (b ∷ rest) = elim (decode_step mode b) [
  | bad ↦ none
  | emit c ↦ elim (decode_from start rest) [ none ↦ none | some text ↦ some (c ∷ text) ]
  | next mode' ↦ decode_from mode' rest
]

abbrev or_unicode_error {ℓ} : {A : Type ℓ} → Option A → Outcome A
or_unicode_error none = raise unicode_error
or_unicode_error (some a) = ok a

-- `text.encode("utf-8")`
unfoldable pub encode : Text → Outcome Bytes
encode text = or_unicode_error (encode_all text)

-- `raw.decode("utf-8")`
unfoldable pub decode : Bytes → Outcome Text
decode raw = or_unicode_error (decode_from start raw)
