-- ===== src/Runtime/ServerOwner/Spacing.antt =====
-- Over a whole run, the announcements of a managed server are a minute apart.
use mathlib.Core.Path.{subst}
use nwep_py.Prelude.{ℕ, Bool, true, false, Option, none, some, List, [], ◌∷◌, ◌≡◌, arith, refl, sym}
use nwep_py.Errors.{Outcome, ok, raise}
use nwep_py.Sys.{Abi}
use nwep_py.Sys.Exec.{World}
use nwep_py.Address.{Address}
use nwep_py.Server.Loop
use nwep_py.Dht
use nwep_py.Runtime.Hosting.{Host, on_server, on_dht, Readings}
use nwep_py.Runtime.Hosting.Turns.{resolve_blocking-Keeps}
use nwep_py.Runtime.ServerOwner.{
  finish, Command, resolve_command, metrics_command, Phase, testing, servicing, ended, System, init,
  Action, serve, work, look, do_look, do_serve, do_work, post, after_turn, metered, or_stay, after,
  run, Answer,
}
use nwep_py.Runtime.ServerOwner.Announcing.{
  latest, spaced, IsSpaced, IsSpaced-Kept, metrics-IsSpaced, AfterTurn, turn-AfterTurn,
}

-- What the owner knows of the announcements.
abbrev Known : Phase → World Host → Type 0
Known (testing last) w = IsSpaced last w
Known (servicing last) w = IsSpaced last w
Known ended w = spaced w.calls ≡ true

abbrev IsKnown : System → Type 0
IsKnown s = Known s.phase s.host

module _ (abi : Abi) where
  finish-spaced :
      (managed : Bool) (w : World Host)
      → spaced w.calls ≡ true
      → spaced (finish abi managed w).1.calls ≡ true
  unfolding finish on_server on_dht Loop.close Dht.close spaced
  finish-spaced true w s = ground arith
  finish-spaced false w s = ground arith

  look-IsKnown :
      (stop : Bool) (f : Phase) (s : System)
      → s.phase ≡ f
      → IsKnown s
      → IsKnown (or_stay s (do_look abi stop f s))
  look-IsKnown true (testing last) s e k =
      let known : IsSpaced last s.host = subst (λ p. Known p s.host) e k in
      finish-spaced s.managed s.host known.apart
  look-IsKnown false (testing last) s e k = subst (λ p. Known p s.host) e k
  look-IsKnown _ _ s e k = k

  post-IsKnown :
      (id : ℕ) (r : Option (Outcome Answer)) (w : World Host) (rest : List Command) (last : ℕ)
      (s : System)
      → s.phase ≡ servicing last
      → IsSpaced last w
      → IsKnown s
      → IsKnown (or_stay s (post id r w rest s))
  post-IsKnown id none w rest last s e l k = k
  post-IsKnown id (some r) w rest last s e l k = subst (λ p. Known p w) (sym e) l

  serve-IsKnown :
      (t : Readings) (turns : List Readings) (f : Phase) (q : List Command) (s : System)
      → s.phase ≡ f
      → IsKnown s
      → IsKnown (or_stay s (do_serve abi t turns f q s))
  serve-IsKnown t turns (servicing last) (resolve_command id target timeout ∷ rest) s e k =
      post-IsKnown id _ _ rest last s e
        (resolve_blocking-Keeps abi (IsSpaced last) (IsSpaced-Kept abi last) target timeout t turns
          s.host (subst (λ p. Known p s.host) e k))
        k
  serve-IsKnown t turns (servicing last) (metrics_command id ∷ rest) s e k =
      post-IsKnown id (some (metered (on_dht (Dht.metrics abi) s.host).0)) _ rest last s e
        (metrics-IsSpaced abi last s.host (subst (λ p. Known p s.host) e k)) k
  serve-IsKnown t turns _ _ s e k = k

  after_turn-IsKnown :
      (r : Outcome ℕ) (w : World Host) (s : System)
      → AfterTurn (r, w)
      → IsKnown (or_stay s (after_turn abi r w s))
  after_turn-IsKnown (ok last) w s k = k
  after_turn-IsKnown (raise e) w s k = finish-spaced s.managed w k

  work-IsKnown :
      (t : Readings) (later_ms : ℕ) (f : Phase) (q : List Command) (s : System)
      → s.phase ≡ f
      → IsKnown s
      → IsKnown (or_stay s (do_work abi t later_ms f q s))
  work-IsKnown t later_ms (servicing last) [] s e k = after_turn-IsKnown _ _ s (
      turn-AfterTurn abi s.managed s.service t later_ms last s.host
        (subst (λ p. Known p s.host) e k))
  work-IsKnown t later_ms _ _ s e k = k

  after-IsKnown : (a : Action) (s : System) → IsKnown s → IsKnown (after abi a s)
  unfolding after
  after-IsKnown look s k = look-IsKnown s.stop s.phase s refl k
  after-IsKnown (serve t turns) s k = serve-IsKnown t turns s.phase s.queue s refl k
  after-IsKnown (work t later_ms) s k = work-IsKnown t later_ms s.phase s.queue s refl k
  after-IsKnown _ s k = ground arith

  run-IsKnown : (actions : List Action) (s : System) → IsKnown s → IsKnown (run abi actions s)
  unfolding run
  run-IsKnown [] s k = k
  run-IsKnown (a ∷ actions) s k = run-IsKnown actions (after abi a s) (after-IsKnown a s k)

  Known-spaced : (f : Phase) (w : World Host) → Known f w → spaced w.calls ≡ true
  Known-spaced (testing last) w k = k.apart
  Known-spaced (servicing last) w k = k.apart
  Known-spaced ended w k = k

  -- From a host that has announced nothing, under every schedule and whatever the clocks read, an
  -- announcement of the service address comes at least 60 seconds after the one before it.
  pub run-spaced :
      (actions : List Action) (managed : Bool) (service : Option Address) (w : World Host)
      → latest w.calls ≡ 0
      → spaced w.calls ≡ true
      → spaced (run abi actions (init managed service w)).host.calls ≡ true
  run-spaced actions managed service w l a =
      let s = run abi actions (init managed service w) in
      Known-spaced s.phase s.host
        (run-IsKnown actions (init managed service w) (record { remembered = l; apart = a }))
