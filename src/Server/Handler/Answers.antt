-- ===== src/Server/Handler/Answers.antt =====
-- What a responder's method does to the answer: it claims, it writes, or it was refused.
use nwep_py.Prelude.{
  Bool-cases, ◌⊎◌, inl, inr, ℕ, ◌+◌, Bool, true, false, [], ◌∷◌, ◌≡◌, pos, refl, arith,
  if◌then◌else◌,
}
use nwep_py.Errors.{Outcome, runtime_error}
use nwep_py.Sys.{Bytes, Abi, response, ResponseCall}
use nwep_py.Sys.Exec.{World}
use nwep_py.Text.{Text, codes, encode, encode_all, encode_char}
use nwep_py.Server.Responder.{Responder}
use nwep_py.Server.Handler.{Write, WriteRet, perform_write}
use nwep_py.Server.Handler.Trampoline.{answers}

-- The terminals that claim the responder before anything else.
abbrev pub is_claiming : Write → Bool
is_claiming (Write.header name value) = false
is_claiming (Write.moved location) = false
is_claiming (Write.rate_limited after) = false
is_claiming (Write.partial b [] kind) = false
is_claiming _ = true

-- A claiming terminal on an answered responder raises and changes nothing; on a fresh one it leaves
-- the responder answered, also when it raises.
pub claim_cases :
    (abi : Abi) (op : Write) (w : World Responder)
    → is_claiming op ≡ true
    → ((w.self.used ≡ true) × (perform_write abi op w ≡ (Outcome.raise runtime_error, w)))
      ⊎ ((w.self.used ≡ false) × ((perform_write abi op w).1.self.used ≡ true))
unfolding perform_write
claim_cases abi op w h = elim (Bool-cases w.self.used) [
  | inl u ↦ inl (u, refused abi op w h u)
  | inr u ↦ inr (u, claims abi op w h u)
]
  where
    refused :
        (abi : Abi) (op : Write) (w : World Responder)
        → is_claiming op ≡ true
        → w.self.used ≡ true
        → perform_write abi op w ≡ (Outcome.raise runtime_error, w)
    refused abi Write.defer w h u = ground arith
    refused abi _ w h u = ground arith

    claims :
        (abi : Abi) (op : Write) (w : World Responder)
        → is_claiming op ≡ true
        → w.self.used ≡ false
        → (perform_write abi op w).1.self.used ≡ true
    claims abi Write.defer w h u = ground arith
    claims abi _ w h u = ground arith

encode_location : encode (codes "location") ≡ Outcome.ok (codes "location")
unfolding encode encode_all encode_char
encode_location = refl

-- `moved` sets its header before the claim: on an answered responder it changes the response that
-- was built, and raises after that.
pub moved_after_answer :
    (abi : Abi) (location : Text) (raw : Bytes) (n : ℕ) (w : World Responder)
    → w.self.used ≡ true
    → encode location ≡ Outcome.ok raw
    → abi w.calls (response (ResponseCall.header w.self.buf (codes "location") raw)) ≡ pos n
    → ((perform_write abi (Write.moved location) w).0 ≡ Outcome.raise runtime_error)
      × ((perform_write abi (Write.moved location) w).1.calls
          ≡ response (ResponseCall.header w.self.buf (codes "location") raw) ∷ w.calls)
unfolding perform_write
moved_after_answer abi location raw n w u e a = ground (arith, encode_location)

abbrev is_deferred : (op : Write) → WriteRet op → Bool
is_deferred (Write.header name value) r = false
is_deferred _ r = r.deferred

-- A claiming terminal that returned a reply has made one call that answers, or none where the reply
-- is deferred.
pub reply_answers :
    (abi : Abi) (op : Write) (w : World Responder) (r : WriteRet op)
    → is_claiming op ≡ true
    → (perform_write abi op w).0 ≡ Outcome.ok r
    → answers abi (perform_write abi op w).1.calls
      ≡ (if is_deferred op r then 0 else 1) + answers abi w.calls
unfolding perform_write answers
reply_answers abi Write.defer w r c e = ground arith
reply_answers abi _ w r c e = ground arith
