-- ===== src/Examples/Nwcurl/Delivery.antt =====
-- A turn of `pump_streams` moves every stream on through the body, and ends it with the last byte.
use mathlib.Core.Path.{subst}
use nwep_py.Prelude.{
  ℕ, suc, ◌<◌, ◌≤◌, Bool, true, false, Bool-cases, inl, inr, Option, none, some, List, [], ◌∷◌, ◌≡◌,
  ◌≢◌, refl, sym, ◌∙◌, ltb, ltb→lt, length, drop, arith,
}
use nwep_py.Sys.{Bytes, Abi}
use nwep_py.Sys.Exec.{Exec, World}
use nwep_py.Sys.Triple.{Triple, weaken-Triple, pure-Triple, Keeps-Triple, bind-Triple, then-Triple}
use nwep_py.Server.Loop.{Server}
use nwep_py.Examples.Nwcurl.{Key, Job, with_job, send_some, keep_if, keep_or_end, pump_jobs}
use nwep_py.Examples.Nwcurl.Trace.{
  same_key, same_key_refl, same_key-eq, IsAt, IsPrefix, send-Triple, end-Triple, send_other,
  end_other, take-all,
}
use nwep_py.Examples.Nwcurl.Sending.{
  job_of, single, single-none, none_of, Reached, send_some-Triple,
}

module _ (abi : Abi) (big : Bytes) (k : Key) where
  -- A job says how much of the body C took; without one the stream has it all, and was ended once.
  abbrev sent_of : Option ℕ → ℕ
  sent_of none = length big
  sent_of (some n) = n

  abbrev ends_of : Option ℕ → ℕ
  ends_of none = 1
  ends_of (some n) = 0

  abbrev pub Progress : Option ℕ → World Server → Type 0
  Progress o w = IsAt abi big k (sent_of o) (ends_of o) w

  -- After a turn a job that stays has bytes to send.
  abbrev pub Unfinished : Option ℕ → Type 0
  Unfinished none = Unit {0}
  Unfinished (some n) = n < length big

  abbrev pub Pumped : Option (List Job) → World Server → Type 0
  Pumped none w = ⊥
  Pumped (some still) w =
      (single k still ≡ true) × Progress (job_of k still) w × Unfinished (job_of k still)

  -- The stream has no job, and its state stays.
  abbrev Absent : ℕ → ℕ → Option (List Job) → World Server → Type 0
  Absent n e none w = ⊥
  Absent n e (some still) w = (job_of k still ≡ none) × IsAt abi big k n e w

  abbrev Elsewhere : ℕ → ℕ → Option ℕ → World Server → Type 0
  Elsewhere n e o w = Reached (λ _. IsAt abi big k n e) o w

  job_ne : (j : Job) (js : List Job) → same_key j.key k ≡ true → job_of k (j ∷ js) ≢ none
  job_ne j js s = rw s (cc)

  at-prefix : (n e : ℕ) (w : World Server) → IsAt abi big k n e w → IsPrefix abi big k w
  at-prefix n e w p = (n, p.took)

  keep_if-elsewhere :
      (more : Bool) (j : Job) (n e : ℕ) (Q : Option (List Job) → World Server → Type 0)
      (rest : Exec Server (Option (List Job)))
      → same_key j.key k ≡ false
      → ((o : Option (List Job)) (w : World Server) → Q o w → Q (with_job j o) w)
      → Triple (IsAt abi big k n e) rest Q (IsPrefix abi big k)
      → Triple (IsAt abi big k n e) (keep_if abi big more j rest) Q (IsPrefix abi big k)
  keep_if-elsewhere true j n e Q rest d c t =
      bind-Triple _ _ Q _ _ _ t (λ still. pure-Triple _ _ (with_job j still) Q (c still))
  keep_if-elsewhere false j n e Q rest d c t =
      then-Triple _ _ _ _ _ _ (Keeps-Triple _ _ _ (at-prefix n e) (end_other abi big k j.key n e d))
        (λ _. t)

  keep_or_end-Elsewhere :
      (j : Key) (o : Option ℕ) (n e : ℕ) (Q : Option (List Job) → World Server → Type 0)
      (rest : Exec Server (Option (List Job)))
      → same_key j k ≡ false
      → ((m : ℕ) (q : Option (List Job)) (w : World Server)
          → Q q w
          → Q (with_job (record { key = j; sent = m }) q) w)
      → Triple (IsAt abi big k n e) rest Q (IsPrefix abi big k)
      → Triple (Elsewhere n e o) (keep_or_end abi big j o rest) Q (IsPrefix abi big k)
  keep_or_end-Elsewhere j none n e Q rest d c t = λ w p. absurd p
  keep_or_end-Elsewhere j (some m) n e Q rest d c t =
      keep_if-elsewhere (ltb m (length big)) (record { key = j; sent = m }) n e Q rest d (c m) t

  -- A job of another stream is passed over.
  pump_elsewhere :
      (j : Job) (js : List Job) (n e : ℕ) (Q : Option (List Job) → World Server → Type 0)
      → same_key j.key k ≡ false
      → ((m : ℕ) (q : Option (List Job)) (w : World Server)
          → Q q w
          → Q (with_job (record { key = j.key; sent = m }) q) w)
      → Triple (IsAt abi big k n e) (pump_jobs abi big js) Q (IsPrefix abi big k)
      → Triple (IsAt abi big k n e) (pump_jobs abi big (j ∷ js)) Q (IsPrefix abi big k)
  unfolding pump_jobs
  pump_elsewhere j js n e Q d c t =
      bind-Triple (IsAt abi big k n e) (IsPrefix abi big k) (Elsewhere n e) Q
        (send_some abi big (suc (length big)) j.key j.sent)
        (λ o. keep_or_end abi big j.key o (pump_jobs abi big js))
        (send_some-Triple abi big j.key (λ _. IsAt abi big k n e) (IsPrefix abi big k)
          (λ sent.
            Keeps-Triple _ _ _ (at-prefix n e) (send_other abi big k j.key (drop sent big) n e d))
          (suc (length big)) j.sent (omega arith) (omega arith))
        (λ o. keep_or_end-Elsewhere j.key o n e Q (pump_jobs abi big js) d c t)

  Absent-with_job :
      (n e : ℕ) (j : Job) (o : Option (List Job)) (w : World Server)
      → same_key j.key k ≡ false
      → Absent n e o w
      → Absent n e (with_job j o) w
  Absent-with_job n e j none w d p = p
  Absent-with_job n e j (some js) w d (a, p) = (rw d a, p)

  -- A stream without a job is not touched by the turn.
  pump-Absent :
      (n e : ℕ) (js : List Job)
      → job_of k js ≡ none
      → Triple (IsAt abi big k n e) (pump_jobs abi big js) (Absent n e) (IsPrefix abi big k)
  unfolding pump_jobs
  pump-Absent n e [] a =
      pure-Triple (IsAt abi big k n e) (IsPrefix abi big k) (some []) (Absent n e)
        (λ w p. (refl, p))
  pump-Absent n e (j ∷ js) a = elim (Bool-cases (same_key j.key k)) [
    | inl s ↦ absurd (job_ne j js s a)
    | inr d ↦
        pump_elsewhere j js n e (Absent n e) d
          (λ m q w. Absent-with_job n e (record { key = j.key; sent = m }) q w d)
          (pump-Absent n e js (rw d at a))
  ]

  Pumped-with_job :
      (j : Job) (o : Option (List Job)) (w : World Server)
      → same_key j.key k ≡ false
      → Pumped o w
      → Pumped (with_job j o) w
  Pumped-with_job j none w d p = p
  Pumped-with_job j (some js) w d p = rw d p

  -- The stream's own job: it stays with what is left to send, or the stream ends.
  job_stays :
      (n : ℕ) (o : Option (List Job)) (w : World Server)
      → n < length big
      → Absent n 0 o w
      → Pumped (with_job (record { key = k; sent = n }) o) w
  job_stays n none w l p = p
  job_stays n (some js) w l (a, p) = rw (same_key_refl k) (rw a refl, p, l)

  job_ends :
      (n : ℕ) (o : Option (List Job)) (w : World Server)
      → length big ≤ n
      → Absent n 1 o w
      → Pumped o w
  job_ends n none w l p = p
  job_ends n (some js) w l (a, p) = rw a (
    single-none k js a,
    record {
      took = p.took ∙ take-all n big l ∙ sym (take-all (length big) big (omega arith));
      ended = p.ended;
    },
    tt,
  )

  keep_if-own :
      (more : Bool) (n : ℕ) (js : List Job)
      → ltb n (length big) ≡ more
      → job_of k js ≡ none
      → Triple
          (IsAt abi big k n 0)
          (keep_if abi big more (record { key = k; sent = n }) (pump_jobs abi big js))
          Pumped
          (IsPrefix abi big k)
  keep_if-own true n js e a =
      bind-Triple (IsAt abi big k n 0) (IsPrefix abi big k) (Absent n 0) Pumped _ _
        (pump-Absent n 0 js a)
        (λ still.
          pure-Triple _ _ (with_job (record { key = k; sent = n }) still) Pumped
            (λ w. job_stays n still w (ltb→lt n (length big) e)))
  keep_if-own false n js e a =
      then-Triple (IsAt abi big k n 0) (IsPrefix abi big k) (λ _. IsAt abi big k n 1) Pumped _ _
        (end-Triple abi big k n)
        (λ _.
          weaken-Triple (IsAt abi big k n 1) (IsPrefix abi big k) (Absent n 1) Pumped
            (pump_jobs abi big js) (pump-Absent n 1 js a) (λ o w. job_ends n o w (ground arith)))

  keep_or_end-own :
      (o : Option ℕ) (js : List Job)
      → job_of k js ≡ none
      → Triple
          (Reached (λ n. IsAt abi big k n 0) o)
          (keep_or_end abi big k o (pump_jobs abi big js))
          Pumped
          (IsPrefix abi big k)
  keep_or_end-own none js a = λ w p. absurd p
  keep_or_end-own (some n) js a = keep_if-own (ltb n (length big)) n js refl a

  pump_own :
      (n : ℕ) (js : List Job)
      → job_of k js ≡ none
      → Triple
          (IsAt abi big k n 0)
          (pump_jobs abi big (record { key = k; sent = n } ∷ js))
          Pumped
          (IsPrefix abi big k)
  unfolding pump_jobs
  pump_own n js a =
      bind-Triple (IsAt abi big k n 0) (IsPrefix abi big k) (Reached (λ m. IsAt abi big k m 0))
        Pumped (send_some abi big (suc (length big)) k n)
        (λ o. keep_or_end abi big k o (pump_jobs abi big js))
        (send_some-Triple abi big k (λ m. IsAt abi big k m 0) (IsPrefix abi big k)
          (λ m. send-Triple abi big k m 0) (suc (length big)) n (omega arith) (omega arith))
        (λ o. keep_or_end-own o js a)

  pump-IsAt :
      (j : Job) (js : List Job)
      → j.key ≡ k
      → job_of k js ≡ none
      → Triple (IsAt abi big k j.sent 0) (pump_jobs abi big (j ∷ js)) Pumped (IsPrefix abi big k)
  pump-IsAt j js e a =
      subst
        (λ q.
          Triple (IsAt abi big k j.sent 0)
            (pump_jobs abi big (record { key = q; sent = j.sent } ∷ js)) Pumped
            (IsPrefix abi big k))
        (sym e) (pump_own j.sent js a)

  -- A turn over jobs of which the stream has one at most.
  pub pump_jobs-Triple :
      (js : List Job)
      → single k js ≡ true
      → Triple (Progress (job_of k js)) (pump_jobs abi big js) Pumped (IsPrefix abi big k)
  unfolding pump_jobs
  pump_jobs-Triple [] u =
      pure-Triple (Progress none) (IsPrefix abi big k) (some []) Pumped (λ w p. (refl, p, tt))
  pump_jobs-Triple (j ∷ js) u = elim (Bool-cases (same_key j.key k)) [
    | inl s ↦ rw s (pump-IsAt j js (same_key-eq j.key k s) (none_of (job_of k js) (rw s at u)))
    | inr d ↦ rw d (
        pump_elsewhere j js (sent_of (job_of k js)) (ends_of (job_of k js)) Pumped d
          (λ m q w. Pumped-with_job (record { key = j.key; sent = m }) q w d)
          (pump_jobs-Triple js (rw d at u)))
  ]
