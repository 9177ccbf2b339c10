-- ===== src/Sys/Triple.antt =====
-- What a method that starts in one state of affairs ends in, by its result or by an exception, through
-- its binds.
use nwep_py.Errors.{Outcome, ok, raise}
use nwep_py.Sys.Exec.{Exec, World, pure, continue, ◌>>=◌, ◌>>◌}
use nwep_py.Sys.Keeps.{Keeps}

-- By the result and the world after it.
abbrev pub Ends :
    {S A : Type 0} → (A → World S → Type 0) → (World S → Type 0) → Outcome A → World S → Type 0
Ends Q R (ok a) w = Q a w
Ends Q R (raise e) w = R w

abbrev pub Triple :
    {S A : Type 0}
    → (World S → Type 0)
    → Exec S A
    → (A → World S → Type 0)
    → (World S → Type 0)
    → Type 0
Triple P m Q R = (w : World _) → P w → Ends Q R (m w).0 (m w).1

module _ {S A : Type 0} (Q Q' : A → World S → Type 0) (R R' : World S → Type 0) where
  pub Ends-later :
      (r : Outcome A) (w : World S)
      → ((a : A) (w : World S) → Q a w → Q' a w)
      → ((w : World S) → R w → R' w)
      → Ends Q R r w
      → Ends Q' R' r w
  Ends-later (ok a) w h k q = h a w q
  Ends-later (raise e) w h k q = k w q

module _ {S A : Type 0} (Q : A → World S → Type 0) (R T : World S → Type 0) where
  weaker_raise :
      (r : Outcome A) (w : World S) → ((w : World S) → R w → T w) → Ends Q R r w → Ends Q T r w
  weaker_raise (ok a) w h q = q
  weaker_raise (raise e) w h q = h w q

  pub raise-Triple :
      (P : World S → Type 0) (m : Exec S A)
      → Triple P m Q R
      → ((w : World S) → R w → T w)
      → Triple P m Q T
  raise-Triple P m j h w p = weaker_raise (m w).0 (m w).1 h (j w p)

module _ {S : Type 0} (P : World S → Type 0) (R : World S → Type 0) where
  pub pure-Triple :
      {A : Type 0} (a : A) (Q : A → World S → Type 0)
      → ((w : World S) → P w → Q a w)
      → Triple P (pure a) Q R
  unfolding pure
  pure-Triple a Q h w p = h w p

  -- A method that keeps what holds, which is enough for an exception too.
  keeps_Ends :
      {A : Type 0} (r : Outcome A) (w : World S)
      → ((w : World S) → P w → R w)
      → P w
      → Ends (λ _. P) R r w
  keeps_Ends (ok a) w h p = p
  keeps_Ends (raise e) w h p = h w p

  pub Keeps-Triple :
      {A : Type 0} (m : Exec S A) → ((w : World S) → P w → R w) → Keeps P m → Triple P m (λ _. P) R
  Keeps-Triple m h k w p = keeps_Ends (m w).0 (m w).1 h (k w p)

  module _ {A : Type 0} (Q T : A → World S → Type 0) where
    weaker-Ends :
        (r : Outcome A) (w : World S)
        → ((a : A) (w : World S) → Q a w → T a w)
        → Ends Q R r w
        → Ends T R r w
    weaker-Ends (ok a) w h q = h a w q
    weaker-Ends (raise e) w h q = q

    pub weaken-Triple :
        (m : Exec S A) → Triple P m Q R → ((a : A) (w : World S) → Q a w → T a w) → Triple P m T R
    weaken-Triple m j h w p = weaker-Ends (m w).0 (m w).1 h (j w p)

  module _ {A B : Type 0} (Q : A → World S → Type 0) (T : B → World S → Type 0) where
    continue-Triple :
        (r : Outcome A) (f : A → Exec S B) (w : World S)
        → ((a : A) → Triple (Q a) (f a) T R)
        → Ends Q R r w
        → Ends T R (continue r f w).0 (continue r f w).1
    continue-Triple (ok a) f w k q = k a w q
    continue-Triple (raise e) f w k q = q

    pub bind-Triple :
        (m : Exec S A) (f : A → Exec S B)
        → Triple P m Q R
        → ((a : A) → Triple (Q a) (f a) T R)
        → Triple P (m >>= f) T R
    unfolding ◌>>=◌
    bind-Triple m f j k w p = continue-Triple (m w).0 f (m w).1 k (j w p)

    pub then-Triple :
        (m : Exec S A) (n : Exec S B)
        → Triple P m Q R
        → ((a : A) → Triple (Q a) n T R)
        → Triple P (m >> n) T R
    unfolding ◌>>◌
    then-Triple m n j k = bind-Triple m (λ _. n) j k
