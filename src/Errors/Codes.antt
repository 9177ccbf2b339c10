-- ===== src/Errors/Codes.antt =====
-- What the table of codes promises: an exception carries its code, and its family catches it.
use text.Mathlib.Text.{◌==◌ as str_eq}
use nwep_py.Prelude.{
  ℕ, ◌/◌, ◌%◌, Bool, true, false, Option, none, some, List, [], ◌∷◌, ℤ, eq_ℤ, eq_ℤ_iff, neg_part,
  leb, Bool-cases, ap, ltb, not, ◌||◌, ◌==◌, ◌&&◌, all, ◌≡◌, refl, inl, inr, arith,
}
use nwep_py.Errors.{
  Family, config, network, crypto, protocol, identity, app, trust, internal, Row, table, unknown,
  nwep_error, fatal_error, would_block, family_error, leaf, would_block_code, find_row, instance_of,
  NwepError, from_code, catches,
}

-- The row that is found has the code that was asked for.
find_row-code : (rows : List Row) (c : ℤ) (r : Row) → find_row rows c ≡ some r → r.code ≡ c
unfolding find_row
find_row-code [] c r h = ground arith
find_row-code (q ∷ rows) c r h = ground (arith, find_row-code rows c r, eq_ℤ_iff q.code c)

-- What holds of every row holds of the one that is found.
find_row-all :
    (p : Row → Bool) (rows : List Row) (c : ℤ) (r : Row)
    → all p rows ≡ true
    → find_row rows c ≡ some r
    → p r ≡ true
unfolding find_row
find_row-all p [] c r a h = ground arith
find_row-all p (q ∷ rows) c r a h = ground (arith, find_row-all p rows c r)

-- The three ways in which `from_code` builds an exception.
abbrev unnamed : ℤ → NwepError
unnamed c = record { cls = nwep_error; code = c; name = unknown c; fatal = false }

data Built (c : ℤ) : Type 0 where
  blocked : c ≡ would_block_code → from_code c ≡ instance_of would_block → Built c
  listed : (r : Row) → find_row table c ≡ some r → from_code c ≡ instance_of (leaf r) → Built c
  unlisted : find_row table c ≡ none → from_code c ≡ unnamed c → Built c

from_code-Built : (c : ℤ) → Built c
unfolding from_code
from_code-Built c = elim (Bool-cases (eq_ℤ c would_block_code)) [
  | inl e ↦ blocked ((eq_ℤ_iff c would_block_code).0 e) (ground arith)
  | inr e ↦ rest (find_row table c) refl e
]
  where
    rest : (o : Option Row) → find_row table c ≡ o → eq_ℤ c would_block_code ≡ false → Built c
    rest none q e = unlisted q (ground arith)
    rest (some r) q e = listed r q (ground arith)

-- The exception built for a code carries that code, whether or not the table names it.
pub from_code-code : (c : ℤ) → (from_code c).code ≡ c
unfolding instance_of
from_code-code c = elim (from_code-Built c) [
  | blocked e f ↦ ground arith
  | listed r q f ↦ ground (arith, find_row-code table c r)
  | unlisted q f ↦ ground arith
]

-- The number of a family, the hundreds of its codes.
abbrev pub century : Family → ℕ
century config = 1
century network = 2
century crypto = 3
century protocol = 4
century identity = 5
century app = 6
century trust = 7
century internal = 8

abbrev in_century : Row → Bool
in_century r = neg_part r.code / 100 == century r.family

abbrev fatal_by_number : Row → Bool
fatal_by_number r =
    leb 80 (neg_part r.code % 100) && r.fatal || ltb (neg_part r.code % 100) 80 && not r.fatal

rows_in_century : all in_century table ≡ true
unfolding table
rows_in_century = refl

rows_fatal_by_number : all fatal_by_number table ≡ true
unfolding table
rows_fatal_by_number = refl

-- Whether the table names the code.
pub is_listed : ℤ → Bool
is_listed c = elim (find_row table c) [ some r ↦ true | none ↦ false ]

leaf_family :
    (f : Family) (r : Row)
    → catches (family_error f) (instance_of (leaf r)) ≡ (century r.family == century f)
unfolding catches instance_of
leaf_family f r = ground arith

leaf_fatal :
    (r : Row)
    → (catches fatal_error (instance_of (leaf r)) ≡ r.fatal)
      × ((instance_of (leaf r)).fatal ≡ r.fatal)
unfolding catches instance_of
leaf_fatal r = ground arith

not_listed : find_row table would_block_code ≡ none
unfolding find_row table
not_listed = refl

-- `except` with a family catches exactly the listed codes of that family's hundred.
pub catches_family :
    (fam : Family) (c : ℤ)
    → catches (family_error fam) (from_code c) ≡ (is_listed c && (neg_part c / 100 == century fam))
unfolding is_listed catches instance_of
catches_family fam c = elim (from_code-Built c) [
  | blocked e f ↦ ground (arith, not_listed, ap (find_row table) e)
  | listed r q f ↦ ground (
    arith,
    leaf_family fam r,
    find_row-code table c r,
    find_row-all in_century table c r rows_in_century,
  )
  | unlisted q f ↦ ground arith
]

-- `except FatalError` catches exactly the listed codes whose last two digits are 80 or more, and
-- the attribute `fatal` says the same.
pub catches_fatal :
    (c : ℤ)
    → (catches fatal_error (from_code c) ≡ (is_listed c && leb 80 (neg_part c % 100)))
      × ((from_code c).fatal ≡ catches fatal_error (from_code c))
unfolding is_listed catches instance_of
catches_fatal c = elim (from_code-Built c) [
  | blocked e f ↦ ground (arith, not_listed, ap (find_row table) e)
  | listed r q f ↦ ground (
    arith,
    leaf_fatal r,
    find_row-code table c r,
    find_row-all fatal_by_number table c r rows_fatal_by_number,
  )
  | unlisted q f ↦ ground arith
]

-- `except NwepError` catches whatever `from_code` builds.
catches_base : (c : ℤ) → catches nwep_error (from_code c) ≡ true
unfolding catches instance_of
catches_base c = elim (from_code-Built c) [
  | blocked e f ↦ ground arith
  | listed r q f ↦ ground arith
  | unlisted q f ↦ ground arith
]

rows_nodup :
    all
      (λ r. elim (find_row table r.code) [ some q ↦ str_eq q.cls_name r.cls_name | none ↦ false ])
      table
    ≡ true
unfolding find_row table
rows_nodup = refl
