-- ===== src/Examples/Node.antt =====
-- What the programs under examples share: a handler that answers through its responder and changes the
-- program's globals, and the work of a turn of the loop, over the server and the globals.
use nwep_py.Prelude.{Bool, false, Option, none, some}
use nwep_py.Sys.Exec.{Exec}
use nwep_py.Text.{Text, same_text}
use nwep_py.Server.Responder.{Responder}
use nwep_py.Server.Loop.{Server}

pub record Site (G : Type 0) : Type 0 where
  pub responder : Responder
  pub globals : G

pub record Node (G : Type 0) : Type 0 where
  pub server : Server
  pub globals : G

module _ {G A : Type 0} where
  unfoldable pub on_responder : Exec Responder A → Exec (Site G) A
  on_responder m w =
      let (r, v) = m (record { self = w.self.responder; calls = w.calls }) in
      (r, record { self = record w.self { responder = v.self }; calls = v.calls })

  unfoldable pub on_server : Exec Server A → Exec (Node G) A
  on_server m w =
      let (r, v) = m (record { self = w.self.server; calls = w.calls }) in
      (r, record { self = record w.self { server = v.self }; calls = v.calls })

-- `req.path == text`
abbrev pub is_path : Option Text → Text → Bool
is_path none text = false
is_path (some path) text = same_text path text
