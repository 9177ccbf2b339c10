-- ===== src/Examples/Nwcurl.antt =====
-- examples/nwcurl.py: a server that streams a large body from its loop, as much in each turn as C takes.
pub mod Trace
pub mod Sending
pub mod Delivery
pub mod Rounds
use nwep_py.Prelude.{
  ℕ, zero, suc, ◌+◌, ◌==◌, Bool, true, false, Option, none, some, List, [], ◌∷◌, ◌++◌, ltb, length,
  drop, map,
}
use nwep_py.Sys.{Bytes, Abi}
use nwep_py.Sys.Exec.{Exec, pure, get, put, ◌>>=◌, ◌>>◌}
use nwep_py.Text.{codes, same_text}
use nwep_py.Wire
use nwep_py.Server.Request
use nwep_py.Server.Request.{Request}
use nwep_py.Server.Responder
use nwep_py.Server.Responder.{Reply, member}
use nwep_py.Server.Loop
use nwep_py.Server.Loop.{Server}
use nwep_py.Examples.Node.{Site, Node, on_responder, on_server, is_path}

-- A connection and one of its streams.
pub record Key : Type 0 where
  pub conn : ℕ
  pub stream : ℕ

-- A row of `active`, and how much of the body C took.
pub record Job : Type 0 where
  pub key : Key
  pub sent : ℕ

pub record Globals : Type 0 where
  pub pending : List Key
  pub active : List Job

abbrev pub new_job : Key → Job
new_job k = record { key = k; sent = 0 }

module _ (abi : Abi) where
  abbrev greet : Exec (Site Globals) Reply
  greet = do
    on_responder (Responder.header abi (codes "content-type") (codes "text/plain"))
    on_responder (Responder.header abi (codes "x-demo") (codes "1"))
    on_responder (Responder.ok abi (codes "hi from web/1"))

  -- The stream is queued before it is started.
  abbrev start_stream : Request → Exec (Site Globals) Reply
  start_stream req = do
    s ← get
    put (record s {
      globals = record s.globals {
        pending = s.globals.pending ++ record { conn = req.conn; stream = req.stream_id } ∷ [];
      };
    })
    on_responder (
        Responder.stream abi (codes "/big") (member Wire.ok)
          (some ((codes "content-type", codes "application/octet-stream") ∷ [])))

  abbrev big_or_missing : Bool → Request → Exec (Site Globals) Reply
  big_or_missing true req = start_stream req
  big_or_missing false req = on_responder (Responder.not_found abi [])

  abbrev route : Bool → Request → Exec (Site Globals) Reply
  route true req = greet
  route false req = do path ← Request.path abi req; big_or_missing (is_path path (codes "/big")) req

  -- `handler`; each test of `req.path` reads it again.
  unfoldable pub handler : Request → Exec (Site Globals) Reply
  unfolding ◌>>=◌ ◌>>◌ on_responder Request.path Responder.header Responder.ok Responder.stream
      Responder.not_found same_text
  handler req = do path ← Request.path abi req; route (is_path path (codes "/hello")) req

abbrev pub with_job : Job → Option (List Job) → Option (List Job)
with_job j none = none
with_job j (some still) = some (j ∷ still)

module _ (abi : Abi) (big : Bytes) where
  -- `sent += took`, and the `break` where nothing was taken.
  abbrev pub stop_or : Bool → ℕ → Exec Server (Option ℕ) → Exec Server (Option ℕ)
  stop_or true sent next = pure (some sent)
  stop_or false sent next = next

  abbrev pub send_if : Bool → Key → ℕ → (ℕ → Exec Server (Option ℕ)) → Exec Server (Option ℕ)
  send_if false k sent next = pure (some sent)
  send_if true k sent next = do
    took ← Loop.stream_send abi k.conn k.stream (drop sent big)
    stop_or (took == 0) (sent + took) (next (sent + took))

  -- The `while` of `pump_streams` over `sent`. None means that the fuel ran out.
  unfoldable pub send_some : ℕ → Key → ℕ → Exec Server (Option ℕ)
  unfolding ◌>>=◌ Loop.stream_send
  send_some zero k sent = pure none
  send_some (suc fuel) k sent = send_if (ltb sent (length big)) k sent (send_some fuel k)

  -- What follows that `while`: the job stays, or its stream ends.
  abbrev pub keep_if :
      Bool → Job → Exec Server (Option (List Job)) → Exec Server (Option (List Job))
  keep_if true j rest = do still ← rest; pure (with_job j still)
  keep_if false j rest = do Loop.stream_end abi j.key.conn j.key.stream; rest

  abbrev pub keep_or_end :
      Key → Option ℕ → Exec Server (Option (List Job)) → Exec Server (Option (List Job))
  keep_or_end k none rest = pure none
  keep_or_end k (some sent) rest =
      keep_if (ltb sent (length big)) (record { key = k; sent = sent }) rest

  -- The `for` over `active`, with the jobs that stay.
  unfoldable pub pump_jobs : List Job → Exec Server (Option (List Job))
  unfolding ◌>>=◌ ◌>>◌ send_some Loop.stream_end
  pump_jobs [] = pure (some [])
  pump_jobs (j ∷ js) = do
    sent ← send_some (suc (length big)) j.key j.sent
    keep_or_end j.key sent (pump_jobs js)

  abbrev pub keep_active : Option (List Job) → Exec (Node Globals) Bool
  keep_active none = pure false
  keep_active (some still) = do
    n ← get
    put (record n { globals = record n.globals { active = still } })
    pure true

  -- `pump_streams`. False means that the fuel ran out.
  unfoldable pub pump_streams : Exec (Node Globals) Bool
  unfolding ◌>>=◌ ◌>>◌ on_server pump_jobs
  pump_streams = do
    n ← get
    let jobs = n.globals.active ++ map new_job n.globals.pending
    put (record n { globals = record { pending = []; active = jobs } })
    still ← on_server (pump_jobs jobs)
    keep_active still
