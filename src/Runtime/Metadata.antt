-- ===== src/Runtime/Metadata.antt =====
-- The status and the headers that an `AsyncStream` of nwep/runtime.py was made with.
use nwep_py.Prelude.{Option, none, some, [], ◌∷◌, if◌then◌else◌}
use nwep_py.Text.{Text, same_text}
use nwep_py.Wire.{Status}
use nwep_py.Message.{Headers}

pub record Metadata : Type 0 where
  pub status : Option Status
  pub headers : Headers

abbrev first : Text → Headers → Option Text
first name [] = none
first name ((n, v) ∷ items) = if same_text n name then some v else first name items

-- `header`: the first of that very name.
header : Text → Metadata → Option Text
unfolding same_text
header name m = first name m.headers
