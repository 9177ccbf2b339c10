-- ===== src/Examples/Nwkv.antt =====
-- examples/nwkv.py: a key-value service that notifies its writers from its loop.
pub mod Contents
pub mod Service
pub mod Pushes
use nwep_py.Prelude.{ℕ, Bool, true, false, Option, none, some, List, [], ◌∷◌, ◌++◌, if◌then◌else◌}
use nwep_py.Sys.{Bytes, Abi}
use nwep_py.Sys.Exec.{Exec, pure, get, put, ◌>>=◌, ◌>>◌}
use nwep_py.Text.{Text, codes, same_text}
use nwep_py.Wire
use nwep_py.Wire.{Method, created, no_content}
use nwep_py.Server.Request
use nwep_py.Server.Request.{Request}
use nwep_py.Server.Responder
use nwep_py.Server.Responder.{Reply, member}
use nwep_py.Server.Loop
use nwep_py.Server.Loop.{Server}
use nwep_py.Examples.Node.{Site, Node, on_responder, on_server}

-- `store`, a dict by its items, and `to_notify`.
pub record Globals : Type 0 where
  pub store : List (Text × Bytes)
  pub to_notify : List ℕ

-- `store.get(path)`, `store[path] = value` and `store.pop(path, None)`
pub lookup : Text → List (Text × Bytes) → Option Bytes
lookup path [] = none
lookup path ((p, b) ∷ store) = if same_text p path then some b else lookup path store

pub insert : Text → Bytes → List (Text × Bytes) → List (Text × Bytes)
insert path body [] = (path, body) ∷ []
insert path body ((p, b) ∷ store) =
    if same_text p path then (p, body) ∷ store else (p, b) ∷ insert path body store

pub remove : Text → List (Text × Bytes) → List (Text × Bytes)
remove path [] = []
remove path ((p, b) ∷ store) = if same_text p path then store else (p, b) ∷ remove path store

-- `req.path or ""`
abbrev pub or_empty : Option Text → Text
or_empty none = []
or_empty (some path) = path

-- `req.method is Method.WRITE` and `is Method.DELETE`
abbrev pub is_write : Option Method → Bool
is_write (some Wire.write) = true
is_write _ = false

abbrev pub is_delete : Option Method → Bool
is_delete (some Wire.delete) = true
is_delete _ = false

module _ (abi : Abi) where
  abbrev pub write_value : Request → Text → Exec (Site Globals) Reply
  write_value req path = do
    body ← Request.body abi req
    s ← get
    put (record s {
      globals = record {
        store = insert path body s.globals.store;
        to_notify = s.globals.to_notify ++ req.conn ∷ [];
      };
    })
    on_responder (Responder.status abi (member created) [])

  abbrev gone_or_missing : Option Bytes → Exec (Site Globals) Reply
  gone_or_missing none = on_responder (Responder.not_found abi [])
  gone_or_missing (some b) = on_responder (Responder.status abi (member no_content) [])

  abbrev pub delete_value : Text → Exec (Site Globals) Reply
  delete_value path = do
    s ← get
    put (record s { globals = record s.globals { store = remove path s.globals.store } })
    gone_or_missing (lookup path s.globals.store)

  abbrev value_or_missing : Option Bytes → Exec (Site Globals) Reply
  value_or_missing none = on_responder (Responder.not_found abi [])
  value_or_missing (some b) = on_responder (Responder.ok abi b)

  abbrev pub read_value : Text → Exec (Site Globals) Reply
  read_value path = do s ← get; value_or_missing (lookup path s.globals.store)

  abbrev pub delete_or_read : Bool → Text → Exec (Site Globals) Reply
  delete_or_read true path = delete_value path
  delete_or_read false path = read_value path

  abbrev pub write_or_more : (Method → Text) → Bool → Request → Text → Exec (Site Globals) Reply
  write_or_more tokens true req path = write_value req path
  write_or_more tokens false req path = do
    method ← Request.method abi tokens req
    delete_or_read (is_delete method) path

  -- `handler`; each test of `req.method` reads it again.
  unfoldable pub handler : (Method → Text) → Request → Exec (Site Globals) Reply
  unfolding ◌>>=◌ ◌>>◌ on_responder Request.path Request.method Request.body Responder.status
      Responder.not_found Responder.ok insert remove lookup
  handler tokens req = do
    path ← Request.path abi req
    method ← Request.method abi tokens req
    write_or_more tokens (is_write method) req (or_empty path)

  -- The `for` of `push`.
  unfoldable pub notify_all : List ℕ → Exec Server (Unit {0})
  unfolding ◌>>◌ Loop.notify
  notify_all [] = pure tt
  notify_all (conn ∷ pending) = do
    Loop.notify abi conn (codes "kv.changed") [] none
    notify_all pending

  -- `push`
  unfoldable pub push : Exec (Node Globals) (Unit {0})
  unfolding ◌>>=◌ ◌>>◌ on_server notify_all
  push = do
    n ← get
    put (record n { globals = record n.globals { to_notify = [] } })
    on_server (notify_all n.globals.to_notify)
