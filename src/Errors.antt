-- ===== src/Errors.antt =====
-- nwep/errors.py: the exception classes, the table of codes, and the gate `check`.
-- A class is a constructor: the hand-written ones by name, a generated leaf by its table row.
-- The text of a message (`strerror`) is not modelled.
pub mod Codes
use mathlib.Core.Logic.{ite}
use nwep_py.Prelude.{
  ℕ, String, Bool, true, false, Option, none, some, List, [], ◌∷◌, ℤ, pos, negsuc, eq_ℤ, neg_part,
  neg, if◌then◌else◌, ◌&&◌, ◌||◌, any, ◌==◌, zero, suc,
}

pub data Family : Type 0 where
  config network crypto protocol identity app trust internal : Family

-- One row of `_TABLE`: code, class name, kebab name, family, fatal.
pub record Row : Type 0 where
  pub code : ℤ
  pub cls_name : String
  pub kebab : String
  pub family : Family
  pub fatal : Bool

-- A row of `_TABLE`; its code is written without the sign.
abbrev row : ℕ → String → String → Family → Bool → Row
row code cls kebab family fatal = record {
  code = neg code;
  cls_name = cls;
  kebab = kebab;
  family = family;
  fatal = fatal;
}

unfoldable pub table : List Row
table =
    row 101 "ConfigInvalid" "config-invalid" config false
    ∷ row 102 "ConfigMissing" "config-missing" config false
    ∷ row 201 "NetworkConnect" "network-connect" network false
    ∷ row 202 "NetworkTimeout" "network-timeout" network false
    ∷ row 203 "NetworkClosed" "network-closed" network false
    ∷ row 204 "NetworkQuic" "network-quic" network false
    ∷ row 205 "NetworkTls" "network-tls" network false
    ∷ row 301 "CryptoKeygen" "crypto-keygen" crypto false
    ∷ row 302 "CryptoRand" "crypto-rand" crypto false
    ∷ row 303 "CryptoSign" "crypto-sign" crypto false
    ∷ row 304 "CryptoVerify" "crypto-verify" crypto false
    ∷ row 381 "CryptoFatalCert" "crypto-fatal-cert" crypto true
    ∷ row 382 "CryptoFatalNodeidMismatch" "crypto-fatal-nodeid-mismatch" crypto true
    ∷ row 383 "CryptoFatalChallenge" "crypto-fatal-challenge" crypto true
    ∷ row 384 "CryptoFatalServerSig" "crypto-fatal-server-sig" crypto true
    ∷ row 385 "CryptoFatalClientSig" "crypto-fatal-client-sig" crypto true
    ∷ row 401 "ProtoInvalidMessage" "proto-invalid-message" protocol false
    ∷ row 402 "ProtoInvalidMethod" "proto-invalid-method" protocol false
    ∷ row 403 "ProtoInvalidHeader" "proto-invalid-header" protocol false
    ∷ row 404 "ProtoConnectRequired" "proto-connect-required" protocol false
    ∷ row 405 "ProtoStreamReuse" "proto-stream-reuse" protocol false
    ∷ row 406 "ProtoMaxStreams" "proto-max-streams" protocol false
    ∷ row 407 "ProtoFlowControl" "proto-flow-control" protocol false
    ∷ row 408 "ProtoMessageTooLarge" "proto-message-too-large" protocol false
    ∷ row 481 "ProtoFatalVersion" "proto-fatal-version" protocol true
    ∷ row 501 "IdentityGenerate" "identity-generate" identity false
    ∷ row 502 "IdentityMismatch" "identity-mismatch" identity false
    ∷ row 503 "IdentityNotFound" "identity-not-found" identity false
    ∷ row 504 "IdentityRevoked" "identity-revoked" identity false
    ∷ row 601 "AppNotFound" "app-not-found" app false
    ∷ row 602 "AppConflict" "app-conflict" app false
    ∷ row 603 "RateLimited" "app-rate-limited" app false
    ∷ row 604 "Forbidden" "app-forbidden" app false
    ∷ row 701 "TrustInvalidEntry" "trust-invalid-entry" trust false
    ∷ row 702 "TrustInvalidAnchor" "trust-invalid-anchor" trust false
    ∷ row 703 "TrustStaleCheckpoint" "trust-stale-checkpoint" trust false
    ∷ row 704 "TrustThreshold" "trust-threshold" trust false
    ∷ row 705 "TrustRevoked" "trust-revoked" trust false
    ∷ row 706 "TrustNoCheckpoint" "trust-no-checkpoint" trust false
    ∷ row 781 "TrustFatalEquivocation" "trust-fatal-equivocation" trust true
    ∷ row 782 "TrustFatalLogCorrupt" "trust-fatal-log-corrupt" trust true
    ∷ row 801 "Internal" "internal" internal false
    ∷ row 802 "InternalAlloc" "internal-alloc" internal false
    ∷ []

-- The classes under `NwepError`.
pub data ErrorClass : Type 0 where
  nwep_error fatal_error would_block : ErrorClass
  family_error : Family → ErrorClass
  leaf : Row → ErrorClass

-- The bases that the `class` statements and the generating loop give.
abbrev pub leaf_bases : Bool → Family → List ErrorClass
leaf_bases true f = family_error f ∷ fatal_error ∷ []
leaf_bases false f = family_error f ∷ []

unfoldable pub bases : ErrorClass → List ErrorClass
bases nwep_error = []
bases fatal_error = nwep_error ∷ []
bases would_block = nwep_error ∷ []
bases (family_error f) = nwep_error ∷ []
bases (leaf r) = leaf_bases r.fatal r.family

-- `_BY_CODE`: the loop over the table stores each leaf under its code, `WouldBlock` comes last, and
-- a later store of one code replaces an earlier one.
abbrev pub would_block_code : ℤ
would_block_code = neg 803

unfoldable pub find_row : List Row → ℤ → Option Row
find_row [] code = none
find_row (r ∷ rows) code = elim (find_row rows code) [
  | some later ↦ some later
  | none ↦ if eq_ℤ r.code code then some r else none
]

unfoldable pub by_code : ℤ → Option ErrorClass
by_code code =
    if eq_ℤ code would_block_code
    then some would_block
    else elim (find_row table code) [ some r ↦ some (leaf r) | none ↦ none ]

-- `name`: a spec name, or `unknown-{code}`.
pub data ErrorName : Type 0 where
  spec : String → ErrorName
  unknown : ℤ → ErrorName

-- An instance: its class, and the attributes that it shows.
pub record NwepError : Type 0 where
  pub cls : ErrorClass
  pub code : ℤ
  pub name : ErrorName
  pub fatal : Bool

-- An instance of a hand-written class that leaves the base's attributes alone.
abbrev plain : ErrorClass → NwepError
plain cls = record { cls = cls; code = pos 0; name = spec "ok"; fatal = false }

-- `cls()`: the instance shows its class's attributes.
unfoldable pub instance_of : ErrorClass → NwepError
instance_of nwep_error = plain nwep_error
instance_of fatal_error = plain fatal_error
instance_of would_block = record {
  cls = would_block;
  code = would_block_code;
  name = spec "would-block";
  fatal = false;
}
instance_of (family_error f) = plain (family_error f)
instance_of (leaf r) = record { cls = leaf r; code = r.code; name = spec r.kebab; fatal = r.fatal }

unfoldable pub from_code : ℤ → NwepError
unfolding by_code instance_of
from_code code = elim (by_code code) [
  | none ↦ record { cls = nwep_error; code = code; name = unknown code; fatal = false }
  | some cls ↦ instance_of cls
]

-- `issubclass`, along at most `depth` steps to a base. No class stands more than two steps under
-- `NwepError`.
pub Family-discrete : Discrete Family
Family-discrete = hlevel

abbrev same_class : ErrorClass → ErrorClass → Bool
same_class nwep_error nwep_error = true
same_class fatal_error fatal_error = true
same_class would_block would_block = true
same_class (family_error f) (family_error g) = ite (Family-discrete f g) true false
same_class (leaf r) (leaf q) = eq_ℤ r.code q.code
same_class _ _ = false

unfoldable pub is_subclass : ℕ → ErrorClass → ErrorClass → Bool
unfolding bases Family-discrete
is_subclass zero cls target = same_class cls target
is_subclass (suc depth) cls target =
    same_class cls target || any (λ base. is_subclass depth base target) (bases cls)

-- `except target` catches the exception.
unfoldable pub catches : ErrorClass → NwepError → Bool
unfolding is_subclass
catches target e = is_subclass 2 e.cls target

-- The exceptions of the package: its own, and Python's that it raises or lets out.
pub data Exc : Type 0 where
  nwep : NwepError → Exc
  value_error runtime_error unicode_error index_error os_error attribute_error : Exc

pub data Outcome {ℓ} (A : Type ℓ) : Type ℓ where
  ok : A → Outcome A
  raise : Exc → Outcome A

-- `check`: a negative code raises, any other is returned.
unfoldable pub check : ℤ → Outcome ℕ
check (pos n) = ok n
check (negsuc n) = raise (nwep (from_code (negsuc n)))
