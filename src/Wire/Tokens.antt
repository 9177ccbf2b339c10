-- ===== src/Wire/Tokens.antt =====
-- The dictionaries from tokens to members.
use mathlib.Core.List.{Memᴰ}
use nwep_py.Prelude.{
  true, Option, none, some, List, [], ◌∷◌, ◌≡◌, ◌≢◌, refl, ap, ◌∙◌, get_elem?, zero, suc, ℕ, arith,
}
use nwep_py.Text.{Text, same_text}
use nwep_py.Wire.{Status, status_code, all_statuses, by_token}

same_text_sound : (s t : Text) → same_text s t ≡ true → s ≡ t
unfolding same_text
same_text_sound [] [] h = refl
same_text_sound (a ∷ s) (b ∷ t) h = ground (arith, same_text_sound s t)
same_text_sound [] (b ∷ t) h = ground arith
same_text_sound (a ∷ s) [] h = ground arith

same_text_refl : (s : Text) → same_text s s ≡ true
unfolding same_text
same_text_refl [] = refl
same_text_refl (a ∷ s) = ground (arith, same_text_refl s)

module _ {A : Type 0} (token : A → Text) where
  -- The member that is found has the token.
  pub by_token_sound :
      (members : List A) (t : Text) (m : A) → by_token token members t ≡ some m → token m ≡ t
  unfolding by_token
  by_token_sound [] t m h = ground arith
  by_token_sound (x ∷ members) t m h =
      ground (arith, by_token_sound members t m, same_text_sound (token x) t)

  -- Under the token of a member something is found.
  by_token-ne-none :
      (members : List A) (t : Text) (m : A)
      → Memᴰ m members
      → token m ≡ t
      → by_token token members t ≢ none
  unfolding by_token
  by_token-ne-none [] t m h p q = elim h [ ]
  by_token-ne-none (x ∷ members) t m (Memᴰ.head e) p q =
      ground (arith, ap token e, same_text_refl t)
  by_token-ne-none (x ∷ members) t m (Memᴰ.tail d) p q =
      ground (arith, by_token-ne-none members t m d p)

  -- If the tokens tell members apart, the dictionary inverts them.
  by_token-token :
      (members : List A) (m : A)
      → ((a b : A) → token a ≡ token b → a ≡ b)
      → Memᴰ m members
      → by_token token members (token m) ≡ some m
  by_token-token members m distinct d = go (by_token token members (token m)) refl
    where
      go :
          (o : Option A)
          → by_token token members (token m) ≡ o
          → by_token token members (token m) ≡ some m
      go none e = absurd (by_token-ne-none members (token m) m d refl e)
      go (some x) e = e ∙ ap some (distinct x m (by_token_sound members (token m) x e))

mem_of_get_elem {ℓ} :
    {A : Type ℓ} (xs : List A) (i : ℕ) (a : A) → get_elem? xs i ≡ some a → Memᴰ a xs
mem_of_get_elem [] i a h = ground arith
mem_of_get_elem (x ∷ xs) zero a h = Memᴰ.head (ground arith)
mem_of_get_elem (x ∷ xs) (suc i) a h = Memᴰ.tail (mem_of_get_elem xs i a h)

status_at_code : (s : Status) → get_elem? all_statuses (status_code s) ≡ some s
unfolding status_code
status_at_code s = ground arith

-- If C's tokens tell the statuses apart, the dictionary finds each status under its token.
pub status_by_token-token :
    (token : Status → Text)
    → ((a b : Status) → token a ≡ token b → a ≡ b)
    → (s : Status) → by_token token all_statuses (token s) ≡ some s
status_by_token-token token distinct s =
    by_token-token token all_statuses s distinct
      (mem_of_get_elem all_statuses (status_code s) s (status_at_code s))
