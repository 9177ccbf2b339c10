-- ===== src/Sys/Exec.antt =====
-- A method: it reads and changes its object, calls the C library, and returns or raises. The calls
-- made are kept in `calls`, the latest first.
use nwep_py.Prelude.{ℕ, List, ◌∷◌, Bool, true, false, ℤ}
use nwep_py.Errors.{Exc, Outcome, ok, raise, check}
use nwep_py.Sys.{Call, Ret, Abi}

pub record World (S : Type 0) : Type 0 where
  pub self : S
  pub calls : List Call

abbrev pub Exec : Type 0 → Type 0 → Type 0
Exec S A = World S → Outcome A × World S

module _ {S A : Type 0} where
  unfoldable pub pure : A → Exec S A
  pure a w = (ok a, w)

  unfoldable pub throw : Exc → Exec S A
  throw e w = (raise e, w)

  unfoldable pub lift : Outcome A → Exec S A
  lift r w = (r, w)

module _ {S : Type 0} where
  unfoldable pub get : Exec S S
  get w = (ok w.self, w)

  unfoldable pub put : S → Exec S (Unit {0})
  put s w = (ok tt, record w { self = s })

module _ {S A B : Type 0} where
  infixl 5 ◌>>=◌ ◌>>◌
  abbrev pub continue : Outcome A → (A → Exec S B) → Exec S B
  continue (ok a) f w = f a w
  continue (raise e) f w = (raise e, w)

  -- Opening this opens the actions above too.
  unfoldable pub ◌>>=◌ : Exec S A → (A → Exec S B) → Exec S B
  unfolding pure throw lift get put
  ◌>>=◌ m f w = let (r, w') = m w in continue r f w'

  unfoldable pub ◌>>◌ : Exec S A → Exec S B → Exec S B
  unfolding ◌>>=◌
  m >> n = m >>= λ _. n

-- `if b: raise e`
module _ {S : Type 0} where
  unfoldable pub raise_if : Bool → Exc → Exec S (Unit {0})
  unfolding pure throw
  raise_if true e = throw e
  raise_if false e = pure tt

  -- `check(lib.f(…))` on the code that the call returned.
  unfoldable pub checked : ℤ → Exec S ℕ
  unfolding lift check
  checked code = lift (check code)

  -- `try: …; except Exception: pass`, the body of each `__del__`.
  unfoldable pub swallowed : Exec S (Unit {0}) → Exec S (Unit {0})
  swallowed m w = (ok tt, (m w).1)

module _ (abi : Abi) {S : Type 0} where
  -- `lib.f(…)`
  unfoldable pub ccall : (c : Call) → Exec S (Ret c)
  ccall c w = (ok (abi w.calls c), record w { calls = c ∷ w.calls })
