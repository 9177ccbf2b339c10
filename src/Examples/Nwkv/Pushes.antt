-- ===== src/Examples/Nwkv/Pushes.antt =====
-- `push` of examples/nwkv.py notifies the writers that wait, in the order of their writes.
use mathlib.Core.List.{append_assoc, append-nil}
use nwep_py.Prelude.{ℕ, suc, List, [], ◌∷◌, ◌++◌, ◌≡◌, refl, sym, ◌∙◌, take, none, arith}
use nwep_py.Errors.{Outcome, ok, raise}
use nwep_py.Sys.{Abi, Call, server, ServerCall}
use nwep_py.Sys.Exec.{World}
use nwep_py.Sys.Triple.{Triple, Ends, Ends-later, raise-Triple, then-Triple}
use nwep_py.Text.{codes, encode, encode_all, encode_char}
use nwep_py.Message.{encode_headers}
use nwep_py.Server.Loop
use nwep_py.Server.Loop.{Server}
use nwep_py.Examples.Node.{Node, on_server}
use nwep_py.Examples.Nwkv.{Globals, notify_all, push}

notified_by : ServerCall → List ℕ
notified_by (ServerCall.notify s c e h b) = c ∷ []
notified_by _ = []

-- The connections that were notified, in the order of the calls.
unfoldable pub notified : List Call → List ℕ
unfolding notified_by
notified [] = []
notified (server c ∷ older) = notified older ++ notified_by c
notified (_ ∷ older) = notified older

module _ (abi : Abi) where
  abbrev Notified : List ℕ → World Server → Type 0
  Notified conns w = notified w.calls ≡ conns

  -- The first so many of those that waited.
  abbrev SomeOf : List ℕ → List ℕ → World Server → Type 0
  SomeOf conns pending w = (n : ℕ) × (notified w.calls ≡ conns ++ take n pending)

  encode_event : encode (codes "kv.changed") ≡ ok (codes "kv.changed")
  unfolding encode encode_all encode_char
  encode_event = refl

  no_headers : encode_headers none ≡ ok none
  unfolding encode_headers
  no_headers = refl

  Notified-here :
      (conn : ℕ) (conns : List ℕ)
      → Triple
          (Notified conns)
          (Loop.notify abi conn (codes "kv.changed") [] none)
          (λ _. Notified (conns ++ conn ∷ []))
          (Notified (conns ++ conn ∷ []))
  unfolding Loop.notify notified
  Notified-here conn conns w e = ground (arith, encode_event, no_headers)

  later :
      (conn : ℕ) (conns pending : List ℕ) (w : World Server)
      → SomeOf (conns ++ conn ∷ []) pending w
      → SomeOf conns (conn ∷ pending) w
  later conn conns pending w (n, e) = (suc n, e ∙ append_assoc conns (conn ∷ []) (take n pending))

  notify_all-Triple :
      (pending conns : List ℕ)
      → Triple
          (Notified conns)
          (notify_all abi pending)
          (λ _. Notified (conns ++ pending))
          (SomeOf conns pending)
  unfolding notify_all
  notify_all-Triple [] conns = λ w e. e ∙ sym (append-nil conns)
  notify_all-Triple (conn ∷ pending) conns =
      let now = conns ++ conn ∷ [] in
      then-Triple (Notified conns) (SomeOf conns (conn ∷ pending)) (λ _. Notified now)
        (λ _. Notified (conns ++ conn ∷ pending))
        (Loop.notify abi conn (codes "kv.changed") [] none) (notify_all abi pending)
        (raise-Triple (λ _. Notified now) (Notified now) (SomeOf conns (conn ∷ pending))
          (Notified conns) (Loop.notify abi conn (codes "kv.changed") [] none)
          (Notified-here conn conns) (λ w e. (1, e)))
        (λ _ w e.
          Ends-later (λ _. Notified (now ++ pending)) (λ _. Notified (conns ++ conn ∷ pending))
            (SomeOf now pending) (SomeOf conns (conn ∷ pending)) (notify_all abi pending w).0
            (notify_all abi pending w).1 (λ _ v p. p ∙ append_assoc conns (conn ∷ []) pending)
            (later conn conns pending) (notify_all-Triple pending now w e))

  abbrev server_world : World (Node Globals) → World Server
  server_world w = record { self = w.self.server; calls = w.calls }

  -- These were notified, and none waits.
  abbrev pub Pushed : List ℕ → World (Node Globals) → Type 0
  Pushed conns u = (notified u.calls ≡ conns) × (u.self.globals.to_notify ≡ [])

  pushed :
      (pending conns : List ℕ) (r : Outcome (Unit {0})) (v : World Server) (g : Globals)
      → g.to_notify ≡ []
      → Ends (λ _. Notified (conns ++ pending)) (SomeOf conns pending) r v
      → Ends
          (λ _. Pushed (conns ++ pending))
          (λ u. (n : ℕ) × Pushed (conns ++ take n pending) u)
          r
          (record { self = record { server = v.self; globals = g }; calls = v.calls })
  pushed pending conns (ok _) v g e p = (p, e)
  pushed pending conns (raise x) v g e (n, p) = (n, (p, e))

  -- A push notifies every connection that waits, once for each of its writes and in their order, and
  -- leaves none waiting. If a notification raises, the first so many were tried, and still none waits.
  pub push-Ends :
      (conns : List ℕ) (w : World (Node Globals))
      → notified w.calls ≡ conns
      → Ends
          (λ _. Pushed (conns ++ w.self.globals.to_notify))
          (λ u. (n : ℕ) × Pushed (conns ++ take n w.self.globals.to_notify) u)
          (push abi w).0
          (push abi w).1
  unfolding push on_server
  push-Ends conns w e =
      let waiting = w.self.globals.to_notify in
      pushed waiting conns (notify_all abi waiting (server_world w)).0
        (notify_all abi waiting (server_world w)).1 (record w.self.globals { to_notify = [] }) refl
        (notify_all-Triple waiting conns (server_world w) e)
