-- ===== src/Examples/Nwkv/Service.antt =====
-- A request to the key-value service of examples/nwkv.py: what it does to the map, and how it is answered.
use mathlib.Core.Path.{subst}
use mathlib.Core.List.{append-nil}
use nwep_py.Prelude.{
  ℕ, Bool, true, false, Option, none, some, [], ◌∷◌, ◌++◌, ◌≡◌, refl, sym, ap, ◌∙◌, arith,
  if◌then◌else◌,
}
use nwep_py.Errors.{Outcome, ok}
use nwep_py.Sys.{Bytes, Abi}
use nwep_py.Sys.Exec.{Exec, World, ◌>>=◌, ◌>>◌}
use nwep_py.Text.{Text, same_text}
use nwep_py.Wire.{Method, created, no_content}
use nwep_py.Server.Request
use nwep_py.Server.Request.{Request}
use nwep_py.Server.Responder
use nwep_py.Server.Responder.{Reply, member}
use nwep_py.Examples.Node.{Site, on_responder}
use nwep_py.Examples.Nwkv.{
  Globals, lookup, insert, remove, handler, is_write, is_delete, or_empty, write_or_more,
  delete_or_read, gone_or_missing, value_or_missing, write_value, delete_value, read_value,
}
use nwep_py.Examples.Nwkv.Contents.{
  distinct, lookup-insert, lookup-remove, distinct-insert, distinct-remove,
}

-- What a request asks.
pub record Asked : Type 0 where
  pub method : Option Method
  pub path : Option Text
  pub body : Bytes

abbrev pub Contents : Type 0
Contents = Text → Option Bytes

abbrev pub update : Contents → Text → Option Bytes → Contents
update f path v q = if same_text path q then v else f q

-- The map after a request.
abbrev pub after : Asked → Contents → Contents
after a f =
    if is_write a.method
    then update f (or_empty a.path) (some a.body)
    else if is_delete a.method
    then update f (or_empty a.path) none
    else f

pub data Answer : Type 0 where
  made gone missing : Answer
  value : Bytes → Answer

abbrev pub deleted : Option Bytes → Answer
deleted none = missing
deleted (some b) = gone

abbrev pub found : Option Bytes → Answer
found none = missing
found (some b) = value b

-- How it is answered: a new value, a value that was removed or was not there, a value that was read.
abbrev pub answer_to : Asked → Contents → Answer
answer_to a f =
    if is_write a.method
    then made
    else if is_delete a.method
    then deleted (f (or_empty a.path))
    else found (f (or_empty a.path))

module _ (abi : Abi) where
  -- The call of the responder for an answer.
  unfoldable pub give : Answer → Exec (Site Globals) Reply
  give made = on_responder (Responder.status abi (member created) [])
  give gone = on_responder (Responder.status abi (member no_content) [])
  give missing = on_responder (Responder.not_found abi [])
  give (value b) = on_responder (Responder.ok abi b)

  -- C reads this of the request, whenever it is asked.
  pub record Carries (tokens : Method → Text) (req : Request) (a : Asked) : Type 0 where
    pub path : (w : World (Site Globals)) → (Request.path abi req w).0 ≡ ok a.path
    pub method : (w : World (Site Globals)) → (Request.method abi tokens req w).0 ≡ ok a.method
    pub body : (w : World (Site Globals)) → (Request.body abi req w).0 ≡ ok a.body

  path_keeps : (req : Request) (w : World (Site Globals)) → (Request.path abi req w).1.self ≡ w.self
  unfolding Request.path
  path_keeps req w = ground arith

  method_keeps :
      (tokens : Method → Text) (req : Request) (w : World (Site Globals))
      → (Request.method abi tokens req w).1.self ≡ w.self
  unfolding Request.method
  method_keeps tokens req w = ground arith

  body_keeps : (req : Request) (w : World (Site Globals)) → (Request.body abi req w).1.self ≡ w.self
  unfolding Request.body
  body_keeps req w = ground arith

  give_keeps : (x : Answer) (w : World (Site Globals)) → (give x w).1.self.globals ≡ w.self.globals
  unfolding give on_responder
  give_keeps made w = refl
  give_keeps gone w = refl
  give_keeps missing w = refl
  give_keeps (value b) w = refl

  -- A reader of the request that returns goes on.
  read_on :
      {A B : Type 0} (m : Exec (Site Globals) A) (f : A → Exec (Site Globals) B) (x : A)
      (w : World (Site Globals))
      → (m w).0 ≡ ok x
      → (m >>= f) w ≡ f x (m w).1
  unfolding ◌>>=◌
  read_on m f x w e = rw e refl

  -- The map of a service, by its dict.
  abbrev pub contents : Globals → Contents
  contents g q = lookup q g.store

  -- A request was answered as the map says, over a responder that was not touched before; the map and the
  -- queue of writers are those after it.
  pub record IsDone (a : Asked) (conn : ℕ) (s : Site Globals)
      (r : Outcome Reply × World (Site Globals)) : Type 0 where
    pub answered :
        (v : World (Site Globals)) × (r ≡ give (answer_to a (contents s.globals)) v)
        × (v.self.responder ≡ s.responder)
    pub distinct_keys : distinct r.1.self.globals.store ≡ true
    pub mapped : (q : Text) → contents r.1.self.globals q ≡ after a (contents s.globals) q
    pub queued :
        r.1.self.globals.to_notify
        ≡ s.globals.to_notify ++ (if is_write a.method then conn ∷ [] else [])

  IsDone-by :
      (a : Asked) (conn : ℕ) (s : Site Globals) (r : Outcome Reply × World (Site Globals))
      (v : World (Site Globals))
      → r ≡ give (answer_to a (contents s.globals)) v
      → v.self.responder ≡ s.responder
      → distinct v.self.globals.store ≡ true
      → ((q : Text) → contents v.self.globals q ≡ after a (contents s.globals) q)
      → v.self.globals.to_notify
        ≡ s.globals.to_notify ++ (if is_write a.method then conn ∷ [] else [])
      → IsDone a conn s r
  IsDone-by a conn s r v e u d m q =
      let g : r.1.self.globals ≡ v.self.globals =
        ap (λ t. t.1.self.globals) e ∙ give_keeps (answer_to a (contents s.globals)) v in
      record {
        answered = (v, e, u);
        distinct_keys = ap (λ t. distinct t.store) g ∙ d;
        mapped = λ x. ap (λ t. lookup x t.store) g ∙ m x;
        queued = ap (λ t. t.to_notify) g ∙ q;
      }

  gone_gives :
      (o : Option Bytes) (w : World (Site Globals)) → gone_or_missing abi o w ≡ give (deleted o) w
  unfolding give
  gone_gives none w = refl
  gone_gives (some b) w = refl

  value_gives :
      (o : Option Bytes) (w : World (Site Globals)) → value_or_missing abi o w ≡ give (found o) w
  unfolding give
  value_gives none w = refl
  value_gives (some b) w = refl

  module _ (tokens : Method → Text) (req : Request) (a : Asked) (c : Carries tokens req a) where
    write-IsDone :
        (w : World (Site Globals))
        → distinct w.self.globals.store ≡ true
        → is_write a.method ≡ true
        → IsDone a req.conn w.self (write_value abi req (or_empty a.path) w)
    unfolding ◌>>=◌ ◌>>◌ give
    write-IsDone w d e =
        let kept = body_keeps req w in
        let v : World (Site Globals) = (Request.body abi req w).1 in
        let s : Site Globals = record v.self {
          globals = record {
            store = insert (or_empty a.path) a.body v.self.globals.store;
            to_notify = v.self.globals.to_notify ++ req.conn ∷ [];
          };
        } in
        IsDone-by a req.conn w.self _ (record v { self = s }) (rw (c.body w, e) refl)
          (ap (λ t. t.responder) kept)
          (rw kept (distinct-insert (or_empty a.path) a.body w.self.globals.store d))
          (λ q. rw (kept, e) (lookup-insert (or_empty a.path) q a.body w.self.globals.store))
          (rw (kept, e) refl)

    delete-IsDone :
        (w : World (Site Globals))
        → distinct w.self.globals.store ≡ true
        → is_write a.method ≡ false
        → is_delete a.method ≡ true
        → IsDone a req.conn w.self (delete_value abi (or_empty a.path) w)
    unfolding ◌>>=◌ ◌>>◌ give
    delete-IsDone w d e f =
        let g : Globals = record w.self.globals {
          store = remove (or_empty a.path) w.self.globals.store;
        } in
        IsDone-by a req.conn w.self _ (record w { self = record w.self { globals = g } })
          (rw (e, f) (gone_gives (lookup (or_empty a.path) w.self.globals.store) _)) refl
          (distinct-remove (or_empty a.path) w.self.globals.store d)
          (λ q. rw (e, f) (lookup-remove (or_empty a.path) q w.self.globals.store d))
          (rw e (sym (append-nil w.self.globals.to_notify)))

    read-IsDone :
        (w : World (Site Globals))
        → distinct w.self.globals.store ≡ true
        → is_write a.method ≡ false
        → is_delete a.method ≡ false
        → IsDone a req.conn w.self (read_value abi (or_empty a.path) w)
    unfolding ◌>>=◌ ◌>>◌ give
    read-IsDone w d e f =
        IsDone-by a req.conn w.self _ w
          (rw (e, f) (value_gives (lookup (or_empty a.path) w.self.globals.store) w)) refl d
          (λ q. rw (e, f) refl) (rw e (sym (append-nil w.self.globals.to_notify)))

    -- The two tests of the method.
    delete_or_read-IsDone :
        (b : Bool) (w : World (Site Globals))
        → distinct w.self.globals.store ≡ true
        → is_write a.method ≡ false
        → is_delete a.method ≡ b
        → IsDone a req.conn w.self (delete_or_read abi b (or_empty a.path) w)
    delete_or_read-IsDone true w d e f = delete-IsDone w d e f
    delete_or_read-IsDone false w d e f = read-IsDone w d e f

    write_or_more-IsDone :
        (b : Bool) (w : World (Site Globals))
        → distinct w.self.globals.store ≡ true
        → is_write a.method ≡ b
        → IsDone a req.conn w.self (write_or_more abi tokens b req (or_empty a.path) w)
    write_or_more-IsDone true w d e = write-IsDone w d e
    write_or_more-IsDone false w d e =
        let v : World (Site Globals) = (Request.method abi tokens req w).1 in
        let kept = method_keeps tokens req w in
        rw
          (read_on (Request.method abi tokens req)
            (λ m. delete_or_read abi (is_delete m) (or_empty a.path)) a.method w (c.method w))
          (subst
            (λ s. IsDone a req.conn s (delete_or_read abi (is_delete a.method) (or_empty a.path) v))
            kept (delete_or_read-IsDone (is_delete a.method) v (rw kept d) e refl))

    abbrev routed : Option Text → Option Method → Exec (Site Globals) Reply
    routed path method = write_or_more abi tokens (is_write method) req (or_empty path)

    handler_routes :
        (w : World (Site Globals))
        → handler abi tokens req w
          ≡ routed a.path a.method (Request.method abi tokens req (Request.path abi req w).1).1
    unfolding handler
    handler_routes w =
        let v : World (Site Globals) = (Request.path abi req w).1 in
        read_on (Request.path abi req)
          (λ path. Request.method abi tokens req >>= λ method. routed path method) a.path w
          (c.path w)
        ∙ read_on (Request.method abi tokens req) (routed a.path) a.method v (c.method v)

    -- Whatever C answers to its responses, and where it reads one method, path and body of the request: a
    -- request leaves the service with the map that the request asks for, by path; a write puts its
    -- connection into the queue once, behind the others; and it is answered once, over the responder as it
    -- was, as the map before says: a new value, a value gone, a value read, or none there.
    pub handler_refines :
        (w : World (Site Globals))
        → distinct w.self.globals.store ≡ true
        → IsDone a req.conn w.self (handler abi tokens req w)
    handler_refines w d =
        let v : World (Site Globals) = (Request.path abi req w).1 in
        let u : World (Site Globals) = (Request.method abi tokens req v).1 in
        let kept : u.self ≡ w.self = method_keeps tokens req v ∙ path_keeps req w in
        rw (handler_routes w) (
          subst (λ s. IsDone a req.conn s (routed a.path a.method u)) kept
            (write_or_more-IsDone (is_write a.method) u (rw kept d) refl))
