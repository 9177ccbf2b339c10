-- ===== src/Runtime/ServerOwner/Closing.antt =====
-- A managed server with a DHT closes both at its end, the DHT first.
use mathlib.Core.Path.{subst}
use nwep_py.Prelude.{
  sym, ℕ, ◌+◌, leb, Bool, true, false, Option, none, some, List, [], ◌∷◌, ◌≡◌, refl, arith, ==_iff,
}
use nwep_py.Errors.{Outcome, ok, raise}
use nwep_py.Sys.{Ptr, Abi}
use nwep_py.Sys.Exec.{World, pure, ◌>>=◌, ◌>>◌}
use nwep_py.Sys.Keeps.{Keeps, pure-Keeps, bind-Keeps, then-Keeps}
use nwep_py.Sys.Handles.{server_handle, dht_handle, freed, use_after_free}
use nwep_py.Address.{Address}
use nwep_py.Server.Loop
use nwep_py.Dht
use nwep_py.Runtime.Hosting.{Host, on_server, on_dht, Readings}
use nwep_py.Runtime.Hosting.Turns.{resolve_blocking-Keeps}
use nwep_py.Runtime.Hosting.Live.{
  IsLive, outlives, is_dht_call, server_tick-IsLive, server_timeout-IsLive, dht_tick-IsLive,
  announce-IsLive, metrics-IsLive, IsLive-Kept,
}
use nwep_py.Runtime.ServerOwner.{
  announce_due, announce_if, tick_dht, turn, finish, Command, resolve_command, metrics_command,
  Phase, testing, servicing, ended, System, init, Action, serve, work, look, do_look, do_serve,
  do_work, post, after_turn, metered, end, or_stay, after, run, Answer,
}

-- The server and the DHT are freed, neither was misused, and the DHT was never called without its
-- server.
pub record IsGone (h d : Ptr) (w : World Host) : Type 0 where
  pub server_freed : freed (server_handle h) w.calls ≡ true
  pub dht_freed : freed (dht_handle d) w.calls ≡ true
  pub server_sound : use_after_free (server_handle h) w.calls ≡ false
  pub dht_sound : use_after_free (dht_handle d) w.calls ≡ false
  pub ordered : outlives h w.calls ≡ false

-- By the phase of the owner: both are open, or both are gone.
abbrev pub Held : Ptr → Ptr → Phase → World Host → Type 0
Held h d ended w = IsGone h d w
Held h d _ w = IsLive h d w

pub record IsHeld (h d : Ptr) (s : System) : Type 0 where
  pub managed : s.managed ≡ true
  pub held : Held h d s.phase s.host

module _ (abi : Abi) (h d : Ptr) where
  announce_due-IsLive :
      (b : Bool) (service : Address) (now last : ℕ)
      → Keeps (IsLive h d) (announce_due abi b service now last)
  announce_due-IsLive true service now last =
      then-Keeps (IsLive h d) _ _ (announce-IsLive abi h d service now)
        (pure-Keeps (IsLive h d) now)
  announce_due-IsLive false service now last = pure-Keeps (IsLive h d) last

  announce_if-IsLive :
      (service : Option Address) (now last : ℕ)
      → Keeps (IsLive h d) (announce_if abi service now last)
  announce_if-IsLive none now last = pure-Keeps (IsLive h d) last
  announce_if-IsLive (some service) now last =
      announce_due-IsLive (leb (last + 60) now) service now last

  tick_dht-IsLive :
      (service : Option Address) (now last : ℕ)
      → Keeps (IsLive h d) (tick_dht abi true service now last)
  tick_dht-IsLive service now last =
      then-Keeps (IsLive h d) (on_dht (Dht.tick abi now)) (announce_if abi service now last)
        (dht_tick-IsLive abi h d now) (announce_if-IsLive service now last)

  turn-IsLive :
      (service : Option Address) (t : Readings) (later_ms last : ℕ)
      → Keeps (IsLive h d) (turn abi true service t later_ms last)
  unfolding turn
  turn-IsLive service t later_ms last =
      then-Keeps (IsLive h d) (on_server (Loop.tick abi t.now_ms))
        (do
          announced ← tick_dht abi true service t.now_secs last
          on_server (Loop.next_timeout abi later_ms)
          pure announced)
        (server_tick-IsLive abi h d t.now_ms)
        (bind-Keeps (IsLive h d) (tick_dht abi true service t.now_secs last) _
          (tick_dht-IsLive service t.now_secs last)
          (λ announced.
            then-Keeps (IsLive h d) (on_server (Loop.next_timeout abi later_ms)) (pure announced)
              (server_timeout-IsLive abi h d later_ms) (pure-Keeps (IsLive h d) announced)))

  finish-IsGone : (w : World Host) → IsLive h d w → IsGone h d (finish abi true w).1
  unfolding finish on_server on_dht Loop.close Dht.close freed use_after_free outlives is_dht_call
  finish-IsGone w l = ground (arith, ==_iff h h, ==_iff d d)

  end-IsHeld :
      (w : World Host) (s : System)
      → s.managed ≡ true
      → IsLive h d w
      → IsHeld h d (or_stay s (end abi w s))
  end-IsHeld w s m l = record {
    managed = m;
    held = subst (λ b. IsGone h d (finish abi b w).1) (sym m) (finish-IsGone w l);
  }

  Held-phase : (f : Phase) (s : System) → s.phase ≡ f → IsHeld h d s → Held h d f s.host
  Held-phase f s e k = subst (λ p. Held h d p s.host) e k.held

  look-IsHeld :
      (stop : Bool) (f : Phase) (s : System)
      → s.phase ≡ f
      → IsHeld h d s
      → IsHeld h d (or_stay s (do_look abi stop f s))
  look-IsHeld true (testing last) s e k =
      end-IsHeld s.host s k.managed (Held-phase (testing last) s e k)
  look-IsHeld false (testing last) s e k = record {
    managed = k.managed;
    held = Held-phase (testing last) s e k;
  }
  look-IsHeld _ _ s e k = k

  post-IsHeld :
      (id : ℕ) (r : Option (Outcome Answer)) (w : World Host) (rest : List Command) (last : ℕ)
      (s : System)
      → s.phase ≡ servicing last
      → IsLive h d w
      → IsHeld h d s
      → IsHeld h d (or_stay s (post id r w rest s))
  post-IsHeld id none w rest last s e l k = k
  post-IsHeld id (some r) w rest last s e l k = record {
    managed = k.managed;
    held = subst (λ p. Held h d p w) (sym e) l;
  }

  serve-IsHeld :
      (t : Readings) (turns : List Readings) (f : Phase) (q : List Command) (s : System)
      → s.phase ≡ f
      → IsHeld h d s
      → IsHeld h d (or_stay s (do_serve abi t turns f q s))
  serve-IsHeld t turns (servicing last) (resolve_command id target timeout ∷ rest) s e k =
      post-IsHeld id _ _ rest last s e
        (resolve_blocking-Keeps abi (IsLive h d) (IsLive-Kept abi h d) target timeout t turns s.host
          (Held-phase (servicing last) s e k))
        k
  serve-IsHeld t turns (servicing last) (metrics_command id ∷ rest) s e k =
      post-IsHeld id (some (metered (on_dht (Dht.metrics abi) s.host).0)) _ rest last s e
        (metrics-IsLive abi h d s.host (Held-phase (servicing last) s e k)) k
  serve-IsHeld t turns _ _ s e k = k

  after_turn-IsHeld :
      (r : Outcome ℕ) (w : World Host) (s : System)
      → IsLive h d w
      → IsHeld h d s
      → IsHeld h d (or_stay s (after_turn abi r w s))
  after_turn-IsHeld (ok last) w s l k = record { managed = k.managed; held = l }
  after_turn-IsHeld (raise e) w s l k = end-IsHeld w s k.managed l

  work-IsHeld :
      (t : Readings) (later_ms : ℕ) (f : Phase) (q : List Command) (s : System)
      → s.phase ≡ f
      → IsHeld h d s
      → IsHeld h d (or_stay s (do_work abi t later_ms f q s))
  work-IsHeld t later_ms (servicing last) [] s e k =
      after_turn-IsHeld _ _ s
        (subst (λ b. IsLive h d (turn abi b s.service t later_ms last s.host).1) (sym k.managed)
          (turn-IsLive s.service t later_ms last s.host (Held-phase (servicing last) s e k)))
        k
  work-IsHeld t later_ms _ _ s e k = k

  after-IsHeld : (a : Action) (s : System) → IsHeld h d s → IsHeld h d (after abi a s)
  unfolding after
  after-IsHeld look s k = look-IsHeld s.stop s.phase s refl k
  after-IsHeld (serve t turns) s k = serve-IsHeld t turns s.phase s.queue s refl k
  after-IsHeld (work t later_ms) s k = work-IsHeld t later_ms s.phase s.queue s refl k
  after-IsHeld _ s k = ground arith

  run-IsHeld : (actions : List Action) (s : System) → IsHeld h d s → IsHeld h d (run abi actions s)
  unfolding run
  run-IsHeld [] s k = k
  run-IsHeld (a ∷ actions) s k = run-IsHeld actions (after abi a s) (after-IsHeld a s k)

  -- From a server and a DHT that are open, under every schedule: as long as the owner runs both are
  -- open, and once it is gone both are freed; no call touched either after it was freed, and no call
  -- of the DHT came after the server, whose socket it borrows, was freed.
  pub run-Held :
      (actions : List Action) (service : Option Address) (w : World Host)
      → IsLive h d w
      → Held h d
          (run abi actions (init true service w)).phase
          (run abi actions (init true service w)).host
  run-Held actions service w l =
      (run-IsHeld actions (init true service w) (record { managed = refl; held = l })).held
