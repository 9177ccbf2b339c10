-- ===== src/Runtime/ServerOwner/Progress.antt =====
-- That the owner of a managed server of nwep/runtime.py comes to its end after a shutdown.
use mathlib.Core.Path.{subst}
use nwep_py.Prelude.{
  ℕ, ◌+◌, Bool, true, Option, none, some, List, [], ◌∷◌, ◌++◌, ◌≡◌, sym, refl, ap, ◌∙◌, map, arith,
}
use nwep_py.Errors.{Outcome, ok, raise}
use nwep_py.Sys.{Abi}
use nwep_py.Sys.Exec.{World}
use nwep_py.Sys.Gives.{Gives}
use nwep_py.Address.{Address}
use nwep_py.Identity.{NodeId}
use nwep_py.Runtime.Hosting.{Host, Readings, resolve_blocking}
use nwep_py.Runtime.Hosting.Lookup.{IsAddress, passes, resolve_blocking-IsAddress}
use nwep_py.Runtime.ServerOwner.{
  Command, resolve_command, metrics_command, Phase, servicing, ended, System, Action, serve, work,
  look, resolved, post, do_serve, do_work, after_turn, or_stay, after, run, Answer, turn,
}

-- What the clocks read in the owner's turn on a command: at its start, and in the loop of a resolve.
pub record Reading : Type 0 where
  pub start : Readings
  pub turns : List Readings

-- A reading for each command; that of a resolve gets to its deadline.
abbrev pub Enough : List Command → List Reading → Type 0
Enough [] [] = Unit
Enough (resolve_command id target timeout ∷ q) (r ∷ rs) =
    (passes (r.start.clock + timeout) r.turns ≡ true) × Enough q rs
Enough (metrics_command id ∷ q) (r ∷ rs) = Enough q rs
Enough _ _ = ⊥

abbrev pub serving : Reading → Action
serving r = serve r.start r.turns

-- The owner is in the loop of its commands, with these to serve; whether a shutdown was asked for, and how
-- many commands were asked.
pub record IsServicing (b : Bool) (n : ℕ) (q : List Command) (s : System) : Type 0 where
  pub last : ℕ
  pub phase : s.phase ≡ servicing last
  pub queue : s.queue ≡ q
  pub stop : s.stop ≡ b
  pub next : s.next ≡ n

module _ (abi : Abi) where
  post_next :
      (b : Bool) (n : ℕ) (id : ℕ) (r : Outcome Answer) (host : World Host) (q : List Command)
      (s : System) (last : ℕ)
      → s.phase ≡ servicing last
      → s.stop ≡ b
      → s.next ≡ n
      → IsServicing b n q (or_stay s (post id (some r) host q s))
  post_next b n id r host q s last f h m = record {
    last = last;
    phase = f;
    queue = refl;
    stop = h;
    next = m;
  }

  resolved_next :
      (b : Bool) (n : ℕ) (id : ℕ) (target : NodeId) (r : Outcome (Option Address))
      (host : World Host) (q : List Command) (s : System) (last : ℕ)
      → Gives (IsAddress abi target) r
      → s.phase ≡ servicing last
      → s.stop ≡ b
      → s.next ≡ n
      → IsServicing b n q (or_stay s (post id (resolved r) host q s))
  resolved_next b n id target (ok none) host q s last g f h m = absurd g
  resolved_next b n id target (ok (some a)) host q s last g f h m =
      post_next b n id _ host q s last f h m
  resolved_next b n id target (raise e) host q s last g f h m =
      post_next b n id _ host q s last f h m

  -- The owner's turn on a command leads to the next.
  command_next :
      (b : Bool) (n : ℕ) (c : Command) (q : List Command) (r : Reading) (rs : List Reading)
      (s : System) (last : ℕ)
      → Enough (c ∷ q) (r ∷ rs)
      → s.phase ≡ servicing last
      → s.stop ≡ b
      → s.next ≡ n
      → IsServicing b n q (or_stay s (do_serve abi r.start r.turns (servicing last) (c ∷ q) s))
        × Enough q rs
  command_next b n (resolve_command id target timeout) q r rs s last (p, e) f h m =
      let x = resolve_blocking abi target timeout r.start r.turns s.host in
      (
        resolved_next b n id target x.0 x.1 q s last
            (resolve_blocking-IsAddress abi target timeout r.start r.turns p s.host) f h m,
        e,
      )
  command_next b n (metrics_command id) q r rs s last e f h m =
      (post_next b n id _ _ q s last f h m, e)

  serve_next :
      (b : Bool) (n : ℕ) (c : Command) (q : List Command) (r : Reading) (rs : List Reading)
      (s : System)
      → Enough (c ∷ q) (r ∷ rs)
      → IsServicing b n (c ∷ q) s
      → IsServicing b n q (after abi (serving r) s) × Enough q rs
  unfolding after
  serve_next b n c q r rs s e i =
      let at = λ (f : Phase) (p : List Command). or_stay s (do_serve abi r.start r.turns f p s) in
      let (j, more) = command_next b n c q r rs s i.last e i.phase i.stop i.next in
      (
        subst (IsServicing b n q)
            (sym (ap (λ f. at f s.queue) i.phase ∙ ap (at (servicing i.last)) i.queue)) j,
        more,
      )

  -- The turn behind the commands, and the test of the loop.
  turned_ends :
      (r : Outcome ℕ) (host : World Host) (s : System)
      → s.stop ≡ true
      → (after abi look (or_stay s (after_turn abi r host s))).phase ≡ ended
  unfolding after
  turned_ends (ok last) host s h = ground arith
  turned_ends (raise e) host s h = ground arith

  work_ends :
      (n : ℕ) (t : Readings) (later_ms : ℕ) (s : System)
      → IsServicing true n [] s
      → (after abi look (after abi (work t later_ms) s)).phase ≡ ended
  unfolding after
  work_ends n t later_ms s i =
      let at = λ (f : Phase) (p : List Command). or_stay s (do_work abi t later_ms f p s) in
      let r = turn abi s.managed s.service t later_ms i.last s.host in
      subst (λ u. (after abi look u).phase ≡ ended)
        (sym (ap (λ f. at f s.queue) i.phase ∙ ap (at (servicing i.last)) i.queue))
        (turned_ends r.0 r.1 s i.stop)

  -- The owner serves its commands, a turn for each.
  pub run-IsServicing :
      (b : Bool) (n : ℕ) (q : List Command) (rs : List Reading) (s : System)
      → Enough q rs
      → IsServicing b n q s
      → IsServicing b n [] (run abi (map serving rs) s)
  unfolding run
  run-IsServicing b n [] [] s e i = i
  run-IsServicing b n [] (r ∷ rs) s e i = absurd e
  run-IsServicing b n (resolve_command id target timeout ∷ q) [] s e i = absurd e
  run-IsServicing b n (metrics_command id ∷ q) [] s e i = absurd e
  run-IsServicing b n (c ∷ q) (r ∷ rs) s e i =
      let (j, more) = serve_next b n c q r rs s e i in
      run-IsServicing b n q rs (after abi (serving r) s) more j

  pub run-append :
      (first more : List Action) (s : System)
      → run abi (first ++ more) s ≡ run abi more (run abi first s)
  unfolding run
  run-append [] more s = refl
  run-append (a ∷ first) more s = run-append first more (after abi a s)

  -- An owner in the loop of its commands, with a shutdown behind it: it is gone after a turn for each
  -- command, one more and the test of its loop, whatever C answers, if the clock gets to the deadline of
  -- each resolve.
  pub server_owner_ends :
      (n : ℕ) (q : List Command) (rs : List Reading) (t : Readings) (later_ms : ℕ) (s : System)
      → Enough q rs
      → IsServicing true n q s
      → (run abi (map serving rs ++ work t later_ms ∷ look ∷ []) s).phase ≡ ended
  unfolding run
  server_owner_ends n q rs t later_ms s e i =
      rw (run-append (map serving rs) (work t later_ms ∷ look ∷ []) s)
        (work_ends n t later_ms (run abi (map serving rs) s) (run-IsServicing true n q rs s e i))
