-- ===== src/Examples/Nwcurl/Trace.antt =====
-- What the calls of a server sent on one stream, by the bytes that C took and the ends.
use mathlib.Core.Path.{subst}
use mathlib.Core.List.{append-nil}
use nwep_py.Errors.{check}
use nwep_py.Prelude.{
  ℕ, zero, suc, ◌+◌, ◌==◌, ==_iff, ◌≤◌, Bool, true, false, ◌&&◌, Option, some, List, [], ◌∷◌, ◌++◌,
  ◌≡◌, refl, sym, ap, ◌∙◌, ℤ, pos, negsuc, take, drop, length, if◌then◌else◌, arith,
}
use nwep_py.Sys.{Bytes, Abi, Call, server, ServerCall}
use nwep_py.Sys.Exec.{World, pure, checked, ◌>>◌}
use nwep_py.Sys.Keeps.{Keeps}
use nwep_py.Sys.Triple.{Triple, Ends}
use nwep_py.Server.Responder.{body_ptr}
use nwep_py.Server.Loop
use nwep_py.Server.Loop.{Server}
use nwep_py.Examples.Nwcurl.{Key}

abbrev pub same_key : Key → Key → Bool
same_key a b = a.conn == b.conn && a.stream == b.stream

pub same_key_refl : (k : Key) → same_key k k ≡ true
same_key_refl k = ground (arith, ==_iff k.conn k.conn, ==_iff k.stream k.stream)

pub same_key-eq : (a b : Key) → same_key a b ≡ true → a ≡ b
same_key-eq a b h = ground (arith, ==_iff a.conn b.conn, ==_iff a.stream b.stream)

-- What C took of a body that it was given: as many bytes as it answers.
abbrev taken : ℤ → Option Bytes → Bytes
taken (pos n) (some body) = take n body
taken _ _ = []

abbrev key_of : ℕ → ℕ → Key
key_of c s = record { conn = c; stream = s }

piece : Abi → Key → List Call → ServerCall → Bytes
piece abi k older (ServerCall.stream_send h c s body) =
    if same_key (key_of c s) k
    then taken (abi older (server (ServerCall.stream_send h c s body))) body
    else []
piece abi k older _ = []

-- The bytes that C took on a stream, in the order of the calls.
unfoldable pub accepted : Abi → Key → List Call → Bytes
unfolding piece
accepted abi k [] = []
accepted abi k (server c ∷ older) = accepted abi k older ++ piece abi k older c
accepted abi k (_ ∷ older) = accepted abi k older

is_end : Key → ServerCall → ℕ
is_end k (ServerCall.stream_end h c s) = if same_key (key_of c s) k then 1 else 0
is_end k _ = 0

-- How often the stream was ended.
unfoldable pub ends : Key → List Call → ℕ
unfolding is_end
ends k [] = 0
ends k (server c ∷ older) = is_end k c + ends k older
ends k (_ ∷ older) = ends k older

take-nil : (n : ℕ) → take {A = ℕ} n [] ≡ []
take-nil zero = refl
take-nil (suc n) = refl

take-add : (n m : ℕ) (big : Bytes) → take n big ++ take m (drop n big) ≡ take (n + m) big
take-add zero m big = ground arith
take-add (suc n) m [] = take-nil m ∙ sym (take-nil (suc n + m))
take-add (suc n) m (b ∷ big) =
    let e : suc n + m ≡ suc (n + m) = omega arith in rw e (ap (λ t. b ∷ t) (take-add n m big))

taken-body_ptr : (m : ℕ) (body : Bytes) → taken (pos m) (body_ptr body) ≡ take m body
taken-body_ptr m [] = sym (take-nil m)
taken-body_ptr m (b ∷ body) = refl

pub take-all : (n : ℕ) (big : Bytes) → length big ≤ n → take n big ≡ big
take-all zero [] h = refl
take-all zero (b ∷ big) h = absurd (omega arith)
take-all (suc n) [] h = refl
take-all (suc n) (b ∷ big) h = ap (λ t. b ∷ t) (take-all n big (omega arith))

-- `check(lib.f(…))` ends a method that changes no more.
checked_world : (r : ℤ) {S : Type 0} (w : World S) → ((checked r >> pure tt) w).1 ≡ w
unfolding ◌>>◌ check checked
checked_world (pos n) w = refl
checked_world (negsuc n) w = refl

module _ (abi : Abi) (big : Bytes) (k : Key) where
  -- C took the first bytes of the body on the stream, which was ended so many times.
  pub record IsAt (n e : ℕ) (w : World Server) : Type 0 where
    pub took : accepted abi k w.calls ≡ take n big
    pub ended : ends k w.calls ≡ e

  -- C took some first part of the body.
  abbrev pub IsPrefix : World Server → Type 0
  IsPrefix w = (n : ℕ) × (accepted abi k w.calls ≡ take n big)

  IsAt-rest :
      (n e : ℕ) (w w' : World Server)
      → accepted abi k w'.calls ≡ accepted abi k w.calls ++ []
      → ends k w'.calls ≡ 0 + ends k w.calls
      → IsAt n e w
      → IsAt n e w'
  IsAt-rest n e w w' a b p = record {
    took = a ∙ append-nil (accepted abi k w.calls) ∙ p.took;
    ended = omega (arith, b, p.ended);
  }

  sent_ends :
      (r : ℤ) (n e : ℕ) (w w' : World Server)
      → accepted abi k w'.calls ≡ accepted abi k w.calls ++ taken r (body_ptr (drop n big))
      → ends k w'.calls ≡ 0 + ends k w.calls
      → IsAt n e w
      → Ends (λ m. IsAt (n + m) e) IsPrefix (check r) w'
  unfolding check
  sent_ends (pos m) n e w w' a b p = record {
    took =
        a
        ∙ ap (λ t. t ++ taken (pos m) (body_ptr (drop n big))) p.took
        ∙ ap (λ t. take n big ++ t) (taken-body_ptr m (drop n big))
        ∙ take-add n m big;
    ended = omega (arith, b, p.ended);
  }
  sent_ends (negsuc m) n e w w' a b p = (n, (IsAt-rest n e w w' a b p).took)

  pub send-Triple :
      (n e : ℕ)
      → Triple
          (IsAt n e)
          (Loop.stream_send abi k.conn k.stream (drop n big))
          (λ m. IsAt (n + m) e)
          IsPrefix
  unfolding Loop.stream_send accepted ends
  send-Triple n e w p =
      sent_ends
        (abi w.calls
          (server (ServerCall.stream_send w.self.handle k.conn k.stream (body_ptr (drop n big)))))
        n e w _ (rw same_key_refl refl) refl p

  end_ends :
      (r : ℤ) (n : ℕ) (w w' : World Server)
      → accepted abi k w'.calls ≡ accepted abi k w.calls ++ []
      → ends k w'.calls ≡ 1 + ends k w.calls
      → IsAt n 0 w
      → Ends (λ _. IsAt n 1) IsPrefix ((checked r >> pure tt) w').0 ((checked r >> pure tt) w').1
  unfolding ◌>>◌ check checked
  end_ends (pos m) n w w' a b p = record {
    took = a ∙ append-nil (accepted abi k w.calls) ∙ p.took;
    ended = omega (arith, b, p.ended);
  }
  end_ends (negsuc m) n w w' a b p = (n, a ∙ append-nil (accepted abi k w.calls) ∙ p.took)

  pub end-Triple :
      (n : ℕ) → Triple (IsAt n 0) (Loop.stream_end abi k.conn k.stream) (λ _. IsAt n 1) IsPrefix
  unfolding Loop.stream_end accepted ends
  end-Triple n w p =
      end_ends (abi w.calls (server (ServerCall.stream_end w.self.handle k.conn k.stream))) n w _
        refl (rw same_key_refl refl) p

  -- On another stream nothing of this changes.
  pub send_other :
      (j : Key) (body : Bytes) (n e : ℕ)
      → same_key j k ≡ false
      → Keeps (IsAt n e) (Loop.stream_send abi j.conn j.stream body)
  unfolding Loop.stream_send accepted ends
  send_other j body n e d w p = IsAt-rest n e w _ (rw d refl) refl p

  pub end_other :
      (j : Key) (n e : ℕ)
      → same_key j k ≡ false
      → Keeps (IsAt n e) (Loop.stream_end abi j.conn j.stream)
  unfolding Loop.stream_end accepted ends
  end_other j n e d w p = subst (IsAt n e) (sym (checked_world _ _)) (
      IsAt-rest n e w
        (record w {
          calls = server (ServerCall.stream_end w.self.handle j.conn j.stream) ∷ w.calls;
        })
        refl (rw d refl) p)
