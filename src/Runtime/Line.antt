-- ===== src/Runtime/Line.antt =====
-- The line in which the futures of an owner thread of nwep/runtime.py stand.
use native.Mathlib.Numerals.{add-one}
use nwep_py.Prelude.{ℕ, zero, suc, ◌+◌, List, [], ◌∷◌, ◌++◌, ◌≡◌, refl}

-- The futures of the posted callbacks.
unfoldable pub posted_ids : {A : Type 0} → List (ℕ × A) → List ℕ
posted_ids [] = []
posted_ids ((id, r) ∷ p) = id ∷ posted_ids p

pub posted_ids-append :
    {A : Type 0} (p r : List (ℕ × A)) → posted_ids (p ++ r) ≡ posted_ids p ++ posted_ids r
unfolding posted_ids
posted_ids-append [] r = refl
posted_ids-append ((id, o) ∷ p) r = simp (posted_ids-append p r)

-- 0, 1, …, n - 1
unfoldable pub upto : ℕ → List ℕ
upto zero = []
upto (suc n) = upto n ++ n ∷ []

pub upto-add_one : (n : ℕ) → upto (n + 1) ≡ upto n ++ n ∷ []
unfolding upto
upto-add_one n = rw add-one
