-- ===== src/Sys/Gives.antt =====
-- What a method gives if it does not raise, through its binds.
use nwep_py.Errors.{Exc, Outcome, ok, raise}
use nwep_py.Sys.Exec.{Exec, World, throw, continue, ◌>>=◌, ◌>>◌}

abbrev pub Gives : {A : Type 0} → (A → Type 0) → Outcome A → Type 0
Gives P (ok a) = P a
Gives P (raise e) = Unit {0}

-- In every world.
abbrev pub Always : {S A : Type 0} → (A → Type 0) → Exec S A → Type 0
Always P m = (w : World _) → Gives P (m w).0

abbrev pub Anything : {A : Type 0} → A → Type 0
Anything a = Unit {0}

pub Always-Anything : {S A : Type 0} (m : Exec S A) → Always (Anything {A = A}) m
Always-Anything m w = elim (m w).0 as (λ r. Gives (Anything) r) [ ok a ↦ tt | raise e ↦ tt ]

module _ {S A B : Type 0} (Q : A → Type 0) (P : B → Type 0) where
  continue-Gives :
      (r : Outcome A) (f : A → Exec S B)
      → Gives Q r
      → ((a : A) → Q a → Always P (f a))
      → (w : World S) → Gives P (continue r f w).0
  continue-Gives (ok a) f q h w = h a q w
  continue-Gives (raise e) f q h w = tt

  pub bind-Always :
      (m : Exec S A) (f : A → Exec S B)
      → Always Q m
      → ((a : A) → Q a → Always P (f a))
      → Always P (m >>= f)
  unfolding ◌>>=◌
  bind-Always m f j h w = continue-Gives (m w).0 f (j w) h (m w).1

module _ {S A B : Type 0} (P : B → Type 0) where
  pub then-Always : (m : Exec S A) (n : Exec S B) → Always P n → Always P (m >> n)
  unfolding ◌>>◌
  then-Always m n h = bind-Always (Anything) P m (λ _. n) (Always-Anything m) (λ _ _. h)

pub throw-Always : {S A : Type 0} (P : A → Type 0) (e : Exc) → Always P (throw {S = S} e)
unfolding throw
throw-Always P e w = tt
