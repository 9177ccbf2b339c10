-- ===== src/Runtime/Answering.antt =====
-- The futures of an owner of nwep/runtime.py that are not waiting any more.
use mathlib.Core.Path.{subst}
use nwep_py.Prelude.{
  ℕ, zero, suc, ◌<◌, ==_iff, List, [], ◌∷◌, ◌++◌, All, ◌≢◌, ◌≡◌, ◌⊎◌, inl, inr, sym, arith,
}
use nwep_py.Runtime.Line.{upto}

module _ {F : Type 0} (waiting : F) where
  -- None of the futures waits.
  abbrev pub Answered : (ℕ → F) → List ℕ → Type 0
  Answered futures ids = All (λ id. futures id ≢ waiting) ids

  Answered-append :
      (futures : ℕ → F) (xs ys : List ℕ)
      → Answered futures xs
      → Answered futures ys
      → Answered futures (xs ++ ys)
  Answered-append futures [] ys h k = k
  Answered-append futures (x ∷ xs) ys h k = (h.0, Answered-append futures xs ys h.1 k)

  -- Futures that do not go back to waiting.
  Answered-later :
      (f g : ℕ → F) (ids : List ℕ)
      → ((id : ℕ) → f id ≢ waiting → g id ≢ waiting)
      → Answered f ids
      → Answered g ids
  Answered-later f g [] keeps h = h
  Answered-later f g (id ∷ ids) keeps h = (keeps id h.0, Answered-later f g ids keeps h.1)

  -- At most one future is added, which does not wait.
  pub Answered-added :
      (f g : ℕ → F) (ids more : List ℕ)
      → ((id : ℕ) → f id ≢ waiting → g id ≢ waiting)
      → more ≡ ids ⊎ (id : ℕ) × more ≡ ids ++ id ∷ [] × g id ≢ waiting
      → Answered f ids
      → Answered g more
  Answered-added f g ids more keeps (inl e) h =
      subst (Answered g) (sym e) (Answered-later f g ids keeps h)
  Answered-added f g ids more keeps (inr (id, e, k)) h =
      subst (Answered g) (sym e)
        (Answered-append g ids (id ∷ []) (Answered-later f g ids keeps h) (k, tt))

  Answered-last :
      (futures : ℕ → F) (xs : List ℕ) (y : ℕ)
      → Answered futures (xs ++ y ∷ [])
      → futures y ≢ waiting × Answered futures xs
  Answered-last futures [] y h = h
  Answered-last futures (x ∷ xs) y h = let (p, q) = Answered-last futures xs y h.1 in (p, (h.0, q))

  pub Answered-upto :
      (futures : ℕ → F) (n : ℕ)
      → Answered futures (upto n)
      → (id : ℕ) → id < n
      → futures id ≢ waiting
  unfolding upto
  Answered-upto futures zero h id l = omega (arith, l)
  Answered-upto futures (suc n) h id l =
      let (p, q) = Answered-last futures (upto n) n h in
      ground (arith, ==_iff id n, Answered-upto futures n q id)
