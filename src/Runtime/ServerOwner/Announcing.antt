-- ===== src/Runtime/ServerOwner/Announcing.antt =====
-- A managed server announces its service address at most once a minute.
use nwep_py.Prelude.{
  ℕ, ◌+◌, leb, ◌&&◌, Bool, true, false, Option, none, some, List, [], ◌∷◌, ◌≡◌, arith, refl,
}
use nwep_py.Errors.{Outcome, ok, raise}
use nwep_py.Sys.{Abi, Call, dht, DhtCall}
use nwep_py.Sys.Exec.{Exec, World, pure, continue, ◌>>=◌, ◌>>◌}
use nwep_py.Sys.Keeps.{Keeps}
use nwep_py.Address.{Address}
use nwep_py.Server.Loop
use nwep_py.Dht
use nwep_py.Identity.{NodeId}
use nwep_py.Runtime.Hosting.{Host, on_server, on_dht, Readings}
use nwep_py.Runtime.ServerOwner.{announce_due, announce_if, tick_dht, turn}
use nwep_py.Runtime.Hosting.Turns.{Kept}

-- The time that an announcement carries.
announced_at : Call → Option ℕ
announced_at (dht (DhtCall.announce d addr now)) = some now
announced_at _ = none

or_older : Option ℕ → ℕ → ℕ
or_older none t = t
or_older (some now) t = now

-- The time of the latest announcement, 0 before the first.
unfoldable pub latest : List Call → ℕ
unfolding announced_at or_older
latest [] = 0
latest (c ∷ older) = or_older (announced_at c) (latest older)

due : Option ℕ → ℕ → Bool
due none t = true
due (some now) t = leb (t + 60) now

-- Every announcement comes at least 60 seconds after the one before it.
unfoldable pub spaced : List Call → Bool
unfolding announced_at due latest
spaced [] = true
spaced (c ∷ older) = due (announced_at c) (latest older) && spaced older

pub record IsSpaced (last : ℕ) (w : World Host) : Type 0 where
  pub remembered : latest w.calls ≡ last
  pub apart : spaced w.calls ≡ true

-- What an action of the owner leaves: the next `last_announce` is that of the latest announcement.
abbrev pub AfterTurn : Outcome ℕ × World Host → Type 0
AfterTurn (ok last, w) = IsSpaced last w
AfterTurn (raise e, w) = spaced w.calls ≡ true

continue-AfterTurn :
    {A : Type 0} (last : ℕ) (r : Outcome A) (f : A → Exec Host ℕ) (w : World Host)
    → IsSpaced last w
    → ((a : A) → AfterTurn (f a w))
    → AfterTurn (continue r f w)
continue-AfterTurn last (ok a) f w s h = h a
continue-AfterTurn last (raise e) f w s h = s.apart

then-AfterTurn :
    {A : Type 0} (last : ℕ) (m : Exec Host A) (n : Exec Host ℕ)
    → Keeps (IsSpaced last) m
    → ((w : World Host) → IsSpaced last w → AfterTurn (n w))
    → (w : World Host) → IsSpaced last w
    → AfterTurn ((m >> n) w)
unfolding ◌>>◌
then-AfterTurn last m n k h w s =
    continue-AfterTurn last (m w).0 (λ _. n) (m w).1 (k w s) (λ _. h (m w).1 (k w s))

resume-AfterTurn :
    (r : Outcome ℕ) (w : World Host) (f : ℕ → Exec Host ℕ)
    → AfterTurn (r, w)
    → ((l : ℕ) (v : World Host) → IsSpaced l v → AfterTurn (f l v))
    → AfterTurn (continue r f w)
resume-AfterTurn (ok l) w f s h = h l w s
resume-AfterTurn (raise e) w f s h = s

module _ (abi : Abi) (last : ℕ) where
  server_tick-IsSpaced : (now : ℕ) → Keeps (IsSpaced last) (on_server (Loop.tick abi now))
  unfolding on_server Loop.tick latest spaced
  server_tick-IsSpaced now w s = ground arith

  lookup_result-IsSpaced :
      (target : NodeId) → Keeps (IsSpaced last) (on_dht (Dht.lookup_result abi target))
  unfolding on_dht Dht.lookup_result latest spaced
  lookup_result-IsSpaced target w s = ground arith

  server_timeout-IsSpaced :
      (now : ℕ) → Keeps (IsSpaced last) (on_server (Loop.next_timeout abi now))
  unfolding on_server Loop.next_timeout latest spaced
  server_timeout-IsSpaced now w s = ground arith

  fileno-IsSpaced : Keeps (IsSpaced last) (on_server (Loop.fileno abi))
  unfolding on_server Loop.fileno latest spaced
  fileno-IsSpaced w s = ground arith

  dht_tick-IsSpaced : (now : ℕ) → Keeps (IsSpaced last) (on_dht (Dht.tick abi now))
  unfolding on_dht Dht.tick latest spaced
  dht_tick-IsSpaced now w s = ground arith

  dht_timeout-IsSpaced : (now : ℕ) → Keeps (IsSpaced last) (on_dht (Dht.next_timeout abi now))
  unfolding on_dht Dht.next_timeout latest spaced
  dht_timeout-IsSpaced now w s = ground arith

  pub metrics-IsSpaced : Keeps (IsSpaced last) (on_dht (Dht.metrics abi))
  unfolding on_dht Dht.metrics latest spaced
  metrics-IsSpaced w s = ground arith

  start_lookup-IsSpaced :
      (target : NodeId) (now : ℕ) → Keeps (IsSpaced last) (on_dht (Dht.start_lookup abi target now))
  unfolding on_dht Dht.start_lookup latest spaced
  start_lookup-IsSpaced target now w s = ground arith

  pub IsSpaced-Kept : Kept abi (IsSpaced last)
  IsSpaced-Kept = record {
    server_tick = server_tick-IsSpaced;
    server_timeout = server_timeout-IsSpaced;
    fileno = fileno-IsSpaced;
    dht_tick = dht_tick-IsSpaced;
    dht_timeout = dht_timeout-IsSpaced;
    metrics = metrics-IsSpaced;
    start_lookup = start_lookup-IsSpaced;
    lookup_result = lookup_result-IsSpaced;
  }

  announce_due-AfterTurn :
      (b : Bool) (service : Address) (now : ℕ) (w : World Host)
      → leb (last + 60) now ≡ b
      → IsSpaced last w
      → AfterTurn (announce_due abi b service now last w)
  unfolding on_dht Dht.announce latest spaced
  announce_due-AfterTurn true service now w e s = ground arith
  announce_due-AfterTurn false service now w e s = ground arith

  announce_if-AfterTurn :
      (service : Option Address) (now : ℕ) (w : World Host)
      → IsSpaced last w
      → AfterTurn (announce_if abi service now last w)
  unfolding pure
  announce_if-AfterTurn none now w s = s
  announce_if-AfterTurn (some service) now w s =
      announce_due-AfterTurn (leb (last + 60) now) service now w refl s

  tick_dht-AfterTurn :
      (managed : Bool) (service : Option Address) (now : ℕ) (w : World Host)
      → IsSpaced last w
      → AfterTurn (tick_dht abi managed service now last w)
  unfolding pure
  tick_dht-AfterTurn false service now w s = s
  tick_dht-AfterTurn true service now w s =
      then-AfterTurn last (on_dht (Dht.tick abi now)) (announce_if abi service now last)
        (dht_tick-IsSpaced now) (announce_if-AfterTurn service now) w s

module _ (abi : Abi) where
  wait-AfterTurn :
      (later_ms l : ℕ) (v : World Host)
      → IsSpaced l v
      → AfterTurn ((do on_server (Loop.next_timeout abi later_ms); pure l) v)
  wait-AfterTurn later_ms l v s =
      then-AfterTurn l (on_server (Loop.next_timeout abi later_ms)) (pure l)
        (server_timeout-IsSpaced abi l later_ms) (λ u k. unfold pure in k) v s

  pub turn-AfterTurn :
      (managed : Bool) (service : Option Address) (t : Readings) (later_ms last : ℕ)
      (w : World Host)
      → IsSpaced last w
      → AfterTurn (turn abi managed service t later_ms last w)
  unfolding turn
  turn-AfterTurn managed service t later_ms last w s =
      then-AfterTurn last (on_server (Loop.tick abi t.now_ms))
        (do
          announced ← tick_dht abi managed service t.now_secs last
          on_server (Loop.next_timeout abi later_ms)
          pure announced)
        (server_tick-IsSpaced abi last t.now_ms)
        (λ v k.
          unfold ◌>>=◌ in
          resume-AfterTurn _ _ _ (tick_dht-AfterTurn abi last managed service t.now_secs v k)
            (wait-AfterTurn later_ms))
        w s
