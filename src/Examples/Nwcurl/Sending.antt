-- ===== src/Examples/Nwcurl/Sending.antt =====
-- The jobs of a stream in examples/nwcurl.py, and the loop that sends for one of them.
use nwep_py.Prelude.{
  ℕ, zero, suc, ◌+◌, ◌<◌, ◌==◌, Bool, true, false, Bool-cases, inl, inr, Option, none, some, List,
  [], ◌∷◌, ◌≡◌, refl, ltb, ltb→lt, length, drop, arith, if◌then◌else◌,
}
use nwep_py.Sys.{Bytes, Abi}
use nwep_py.Sys.Exec.{Exec, World}
use nwep_py.Sys.Triple.{Triple, pure-Triple, bind-Triple}
use nwep_py.Server.Loop
use nwep_py.Server.Loop.{Server}
use nwep_py.Examples.Nwcurl.{Key, Job, stop_or, send_if, send_some}
use nwep_py.Examples.Nwcurl.Trace.{same_key}

-- The first job of a stream, by the bytes that were sent.
abbrev pub job_of : Key → List Job → Option ℕ
job_of k [] = none
job_of k (j ∷ js) = if same_key j.key k then some j.sent else job_of k js

abbrev pub is_none : {A : Type 0} → Option A → Bool
is_none none = true
is_none (some a) = false

-- A stream has one job at most.
abbrev pub single : Key → List Job → Bool
single k [] = true
single k (j ∷ js) = if same_key j.key k then is_none (job_of k js) else single k js

pub none_of : {A : Type 0} (o : Option A) → is_none o ≡ true → o ≡ none
none_of none h = refl
none_of (some a) h = cc

pub single-none : (k : Key) (js : List Job) → job_of k js ≡ none → single k js ≡ true
single-none k [] a = refl
single-none k (j ∷ js) a = elim (Bool-cases (same_key j.key k)) [
  | inl s ↦ cc (rw s at a)
  | inr d ↦ rw d (single-none k js (rw d at a))
]

-- None, that the fuel ran out, is not reached.
abbrev pub Reached : (ℕ → World Server → Type 0) → Option ℕ → World Server → Type 0
Reached P none w = ⊥
Reached P (some n) w = P n w

-- A send leads on in a state of affairs that goes by the bytes that were sent.
abbrev pub Moves :
    Abi → Bytes → Key → (ℕ → World Server → Type 0) → (World Server → Type 0) → Type 0
Moves abi big j P R =
    (n : ℕ) → Triple (P n) (Loop.stream_send abi j.conn j.stream (drop n big)) (λ m. P (n + m)) R

module _ (abi : Abi) (big : Bytes) (j : Key) (P : ℕ → World Server → Type 0)
    (R : World Server → Type 0) (step : Moves abi big j P R) where
  stop_or-Triple :
      (stop : Bool) (n : ℕ) (next : Exec Server (Option ℕ))
      → (stop ≡ false → Triple (P n) next (Reached P) R)
      → Triple (P n) (stop_or abi big stop n next) (Reached P) R
  stop_or-Triple true n next h = pure-Triple _ _ (some n) _ (λ w p. p)
  stop_or-Triple false n next h = h refl

  send_if-Triple :
      (more : Bool) (n : ℕ) (next : ℕ → Exec Server (Option ℕ))
      → (more ≡ true → (m : ℕ) → 0 < m → Triple (P (n + m)) (next (n + m)) (Reached P) R)
      → Triple (P n) (send_if abi big more j n next) (Reached P) R
  send_if-Triple false n next h = pure-Triple _ _ (some n) _ (λ w p. p)
  send_if-Triple true n next h =
      bind-Triple _ _ _ _ _ _ (step n)
        (λ m. stop_or-Triple (m == 0) (n + m) (next (n + m)) (λ z. h refl m (ground arith)))

  pub send_some-Triple :
      (fuel n : ℕ)
      → 0 < fuel
      → length big < n + fuel
      → Triple (P n) (send_some abi big fuel j n) (Reached P) R
  unfolding send_some
  send_some-Triple zero n f h = absurd (omega arith)
  send_some-Triple (suc fuel) n f h =
      send_if-Triple (ltb n (length big)) n (send_some abi big fuel j) (λ more m p.
        send_some-Triple fuel (n + m) (omega (arith, ltb→lt n (length big) more)) (omega arith))
