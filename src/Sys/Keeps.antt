-- ===== src/Sys/Keeps.antt =====
-- A method keeps a property of its object and of the calls, through its binds.
use nwep_py.Errors.{Exc, Outcome, ok, raise}
use nwep_py.Sys.Exec.{Exec, World, pure, throw, continue, ◌>>=◌, ◌>>◌}

abbrev pub Keeps : {S A : Type 0} → (World S → Type 0) → Exec S A → Type 0
Keeps P m = (w : World _) → P w → P (m w).1

module _ {S : Type 0} (P : World S → Type 0) where
  pub pure-Keeps : {A : Type 0} (a : A) → Keeps P (pure a)
  unfolding pure
  pure-Keeps a w p = p

  pub throw-Keeps : (A : Type 0) (e : Exc) → Keeps P (throw {S = S} {A = A} e)
  unfolding throw
  throw-Keeps A e w p = p

  continue-Keeps :
      {A B : Type 0} (r : Outcome A) (f : A → Exec S B)
      → ((a : A) → Keeps P (f a))
      → Keeps P (continue r f)
  continue-Keeps (ok a) f k w p = k a w p
  continue-Keeps (raise e) f k w p = p

  pub bind-Keeps :
      {A B : Type 0} (m : Exec S A) (f : A → Exec S B)
      → Keeps P m
      → ((a : A) → Keeps P (f a))
      → Keeps P (m >>= f)
  unfolding ◌>>=◌
  bind-Keeps m f j k w p = continue-Keeps (m w).0 f k (m w).1 (j w p)

  pub then-Keeps :
      {A B : Type 0} (m : Exec S A) (n : Exec S B) → Keeps P m → Keeps P n → Keeps P (m >> n)
  unfolding ◌>>◌
  then-Keeps m n j k = bind-Keeps m (λ _. n) j (λ _. k)
