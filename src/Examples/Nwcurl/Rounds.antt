-- ===== src/Examples/Nwcurl/Rounds.antt =====
-- The turns of the loop of examples/nwcurl.py: requests for streams arrive, and `pump_streams` runs.
use nwep_py.Prelude.{
  Bool, true, false, Option, none, some, List, [], ◌∷◌, ◌++◌, ◌≡◌, refl, ap, ◌∙◌, map, all, not,
  arith,
}
use mathlib.Core.List.{append_assoc, append-nil, map-append}
use nwep_py.Errors.{Outcome, ok, raise}
use nwep_py.Sys.{Bytes, Abi}
use nwep_py.Sys.Exec.{Exec, World, pure, get, put, ◌>>=◌, ◌>>◌}
use nwep_py.Sys.Triple.{Triple, Ends, bind-Triple, then-Triple}
use nwep_py.Server.Loop.{Server}
use nwep_py.Examples.Node.{Node, on_server}
use nwep_py.Examples.Nwcurl.{Key, Job, Globals, new_job, pump_jobs, keep_active, pump_streams}
use nwep_py.Examples.Nwcurl.Trace.{same_key, IsPrefix}
use nwep_py.Examples.Nwcurl.Sending.{job_of, single, single-none}
use nwep_py.Examples.Nwcurl.Delivery.{Progress, Pumped, pump_jobs-Triple}

abbrev pub server_world : World (Node Globals) → World Server
server_world w = record { self = w.self.server; calls = w.calls }

-- The jobs that the next turn works on.
abbrev pub jobs : Globals → List Job
jobs g = g.active ++ map new_job g.pending

-- The handler queues requests for streams.
unfoldable pub arrive : List Key → Exec (Node Globals) (Unit {0})
unfolding ◌>>=◌ put
arrive keys = do
  n ← get
  put (record n { globals = record n.globals { pending = n.globals.pending ++ keys } })

abbrev if_done : Bool → Exec (Node Globals) Bool → Exec (Node Globals) Bool
if_done true rest = rest
if_done false rest = pure false

-- Turns of the loop, with the requests that arrive before each. False means that fuel ran out.
unfoldable pub run : Abi → Bytes → List (List Key) → Exec (Node Globals) Bool
unfolding ◌>>=◌ ◌>>◌ arrive pump_streams
run abi big [] = pure true
run abi big (keys ∷ rounds) = do
  arrive keys
  done ← pump_streams abi big
  if_done done (run abi big rounds)

abbrev pub no_key : Key → List Key → Bool
no_key k keys = all (λ j. not (same_key j k)) keys

module _ (k : Key) where
  no_new : (keys : List Key) → no_key k keys ≡ true → job_of k (map new_job keys) ≡ none
  no_new [] h = refl
  no_new (j ∷ keys) h = ground (arith, no_new keys)

  job_of-append : (xs ys : List Job) → job_of k ys ≡ none → job_of k (xs ++ ys) ≡ job_of k xs
  job_of-append [] ys a = a
  job_of-append (x ∷ xs) ys a = ground (arith, job_of-append xs ys a)

  single-append : (xs ys : List Job) → job_of k ys ≡ none → single k (xs ++ ys) ≡ single k xs
  single-append [] ys a = single-none k ys a
  single-append (x ∷ xs) ys a = ground (arith, job_of-append xs ys a, single-append xs ys a)

-- The jobs of the requests that arrive stand behind the others.
jobs-arrived :
    (active : List Job) (pending keys : List Key)
    → active ++ map new_job (pending ++ keys) ≡ (active ++ map new_job pending) ++ map new_job keys
jobs-arrived active pending keys = simp (map-append, append_assoc)

module _ (abi : Abi) (big : Bytes) (k : Key) where
  -- The stream has one job at most, which says how much of the body C took; without one C has it all and
  -- the stream was ended once.
  abbrev pub Followed : World (Node Globals) → Type 0
  Followed w =
      (single k (jobs w.self.globals) ≡ true)
      × Progress abi big k (job_of k (jobs w.self.globals)) (server_world w)

  -- C took some first part of the body.
  abbrev pub Partial : World (Node Globals) → Type 0
  Partial w = IsPrefix abi big k (server_world w)

  -- Every turn came to its end.
  abbrev pub Running : Bool → World (Node Globals) → Type 0
  Running done w = (done ≡ true) × Followed w

  on_server-Ends :
      {A : Type 0} (Q : A → World Server → Type 0) (r : Outcome A) (v : World Server) (g : Globals)
      → Ends Q (IsPrefix abi big k) r v
      → Ends
          (λ a w. Q a (server_world w) × (w.self.globals ≡ g))
          Partial
          r
          (record { self = record { server = v.self; globals = g }; calls = v.calls })
  on_server-Ends Q (ok a) v g q = (q, refl)
  on_server-Ends Q (raise e) v g q = q

  on_server-Triple :
      {A : Type 0} (P : World Server → Type 0) (Q : A → World Server → Type 0) (m : Exec Server A)
      (g : Globals)
      → Triple P m Q (IsPrefix abi big k)
      → Triple
          (λ w. P (server_world w) × (w.self.globals ≡ g))
          (on_server m)
          (λ a w. Q a (server_world w) × (w.self.globals ≡ g))
          Partial
  unfolding on_server
  on_server-Triple P Q m g t w (p, e) = rw (← e) (
      on_server-Ends Q (m (server_world w)).0 (m (server_world w)).1 w.self.globals
        (t (server_world w) p))

  -- What is followed goes by the jobs and the calls.
  moved :
      (js js' : List Job) (w : World Server)
      → job_of k js' ≡ job_of k js
      → single k js' ≡ single k js
      → (single k js ≡ true) × Progress abi big k (job_of k js) w
      → (single k js' ≡ true) × Progress abi big k (job_of k js') w
  moved js js' w a b p = rw (a, b) p

  arrive-Triple :
      (keys : List Key)
      → no_key k keys ≡ true
      → Triple Followed (arrive keys) (λ _. Followed) Partial
  unfolding arrive
  arrive-Triple keys h w p =
      let g = w.self.globals in
      rw (jobs-arrived g.active g.pending keys) (
        moved (jobs g) (jobs g ++ map new_job keys) (server_world w)
          (job_of-append k (jobs g) (map new_job keys) (no_new k keys h))
          (single-append k (jobs g) (map new_job keys) (no_new k keys h)) p)

  keep_active-Triple :
      (o : Option (List Job)) (g : Globals)
      → g.pending ≡ []
      → Triple
          (λ w. Pumped abi big k o (server_world w) × (w.self.globals ≡ g))
          (keep_active abi big o)
          Running
          Partial
  unfolding ◌>>=◌ ◌>>◌
  keep_active-Triple none g h = λ w (p, e). absurd p
  keep_active-Triple (some still) g h = λ w (p, e).
      let none_left : still ++ map new_job w.self.globals.pending ≡ still =
        ap (λ q. still ++ map new_job q) (ap (λ q. q.pending) e ∙ h) ∙ append-nil still in
      (
        refl,
        moved still (still ++ map new_job w.self.globals.pending) (server_world w)
            (ap (job_of k) none_left) (ap (single k) none_left) (p.0, p.1),
      )

  pump_streams-Triple : Triple Followed (pump_streams abi big) Running Partial
  unfolding pump_streams
  pump_streams-Triple w (u, p) =
      let js = jobs w.self.globals in
      let g : Globals = record { pending = []; active = js } in
      bind-Triple (λ v. Progress abi big k (job_of k js) (server_world v) × (v.self.globals ≡ g))
        Partial (λ o v. Pumped abi big k o (server_world v) × (v.self.globals ≡ g)) Running
        (on_server (pump_jobs abi big js)) (keep_active abi big)
        (on_server-Triple _ _ (pump_jobs abi big js) g (pump_jobs-Triple abi big k js u))
        (λ o. keep_active-Triple o g refl) (record w { self = record w.self { globals = g } })
        (p, refl)

  abbrev all_rounds : List (List Key) → Bool
  all_rounds rounds = all (no_key k) rounds

  if_done-Triple :
      (done : Bool) (rest : Exec (Node Globals) Bool)
      → Triple Followed rest Running Partial
      → Triple (Running done) (if_done done rest) Running Partial
  if_done-Triple true rest t = λ w (d, p). t w p
  if_done-Triple false rest t = λ w (d, p). cc

  -- A stream that waits for its first turn, with nothing sent, or that is under way: over any turns
  -- before which only other streams are asked for, and whatever C answers, either a call raises, when C
  -- has taken a first part of the body on the stream; or every turn comes to its end, and C has taken
  -- as much of the body as the stream's job says, with no end sent, or has the whole body and one end.
  pub run-Followed :
      (rounds : List (List Key)) (w : World (Node Globals))
      → all_rounds rounds ≡ true
      → Followed w
      → Ends Running Partial (run abi big rounds w).0 (run abi big rounds w).1
  unfolding run
  run-Followed [] w h p = (refl, p)
  run-Followed (keys ∷ rounds) w h p =
      then-Triple Followed Partial (λ _. Followed) Running (arrive keys)
        (pump_streams abi big >>= λ done. if_done done (run abi big rounds))
        (arrive-Triple keys (ground arith))
        (λ _.
          bind-Triple Followed Partial Running Running (pump_streams abi big)
            (λ done. if_done done (run abi big rounds)) pump_streams-Triple
            (λ done.
              if_done-Triple done (run abi big rounds) (λ u. run-Followed rounds u (ground arith))))
        w p
