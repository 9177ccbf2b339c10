-- ===== src/Examples/Nwproxy.antt =====
-- examples/nwproxy.py: a proxy that parks each request and answers it from its loop, from a cache or from
-- the origin.
pub mod Ledger
pub mod Served
use nwep_py.Prelude.{ℕ, Option, none, some, List, [], ◌∷◌, ◌++◌}
use nwep_py.Errors.{Outcome, ok, raise}
use nwep_py.Sys.{Bytes, Abi, Call}
use nwep_py.Sys.Exec.{Exec, World, pure, get, put, ◌>>=◌, ◌>>◌}
use nwep_py.Text.{Text, codes}
use nwep_py.Wire
use nwep_py.Server.Request.{Request}
use nwep_py.Server.Responder
use nwep_py.Server.Responder.{Reply}
use nwep_py.Server.Loop
use nwep_py.Server.Loop.{Server}
use nwep_py.Client.Driven
use nwep_py.Client.Driven.{Client}
use nwep_py.Client.Response
use nwep_py.Client.Response.{Response}
use nwep_py.Cache
use nwep_py.Cache.{Cache}
use nwep_py.Examples.Node.{Site, on_responder}

-- A parked request: its connection and its stream.
pub record Parked : Type 0 where
  pub conn : ℕ
  pub stream : ℕ

pub record Proxy : Type 0 where
  pub server : Server
  pub client : Client
  pub cache : Cache
  pub parked : List Parked

module _ {A : Type 0} where
  unfoldable pub on_server : Exec Server A → Exec Proxy A
  on_server m w =
      let (r, v) = m (record { self = w.self.server; calls = w.calls }) in
      (r, record { self = record w.self { server = v.self }; calls = v.calls })

  unfoldable pub on_client : Exec Client A → Exec Proxy A
  on_client m w =
      let (r, v) = m (record { self = w.self.client; calls = w.calls }) in
      (r, record { self = record w.self { client = v.self }; calls = v.calls })

  unfoldable pub on_cache : Exec Cache A → Exec Proxy A
  on_cache m w =
      let (r, v) = m (record { self = w.self.cache; calls = w.calls }) in
      (r, record { self = record w.self { cache = v.self }; calls = v.calls })

-- A method of a response that the proxy holds in a variable.
unfoldable pub on_response : {A : Type 0} → Response → Exec Response A → Exec Proxy A
on_response m f w =
    let (r, v) = f (record { self = m; calls = w.calls }) in (r, record w { calls = v.calls })

-- `with`: the second runs however the first ends. It does not raise here.
abbrev after_all : {A B : Type 0} → Exec Proxy A → Exec Proxy B → Exec Proxy A
after_all m close w = let (r, v) = m w in (r, (close v).1)

abbrev pub page : Text
page = codes "/page"

module _ (abi : Abi) where
  -- `proxy_handler`
  unfoldable pub proxy_handler : Request → Exec (Site (List Parked)) Reply
  unfolding ◌>>=◌ ◌>>◌ on_responder Responder.defer
  proxy_handler req = do
    s ← get
    put (record s {
      globals = s.globals ++ record { conn = req.conn; stream = req.stream_id } ∷ [];
    })
    on_responder (Responder.defer abi)

-- `clock` is what `now_secs()` reads, after the calls made so far.
module _ (abi : Abi) (clock : List Call → ℕ) (origin_pubkey : Bytes) where
  abbrev pub now_secs : Exec Proxy ℕ
  now_secs w = (ok (clock w.calls), w)

  abbrev pub relay : Parked → Response → Exec Proxy (Unit {0})
  relay p m = on_server (Loop.relay abi p.conn p.stream m)

  -- The two ways of a turn.
  abbrev pub from_cache : Parked → Response → Exec Proxy (Unit {0})
  from_cache p hit = after_all (relay p hit) (on_response hit (Response.close abi))

  -- What follows the fetch.
  abbrev pub store : Response → ℕ → Exec Proxy (Unit {0})
  store fetched now = do
    on_cache (Cache.put_signed abi (Cache.VerbArg.member Wire.read) page fetched origin_pubkey now)
    on_response fetched (Response.close abi)

  abbrev pub relay_and_store : Parked → Response → Exec Proxy (Unit {0})
  relay_and_store p fetched = do relay p fetched; now ← now_secs; store fetched now

  abbrev pub from_origin : Parked → Exec Proxy (Unit {0})
  from_origin p = do
    fetched ← on_client (Driven.send abi (Driven.MethodArg.member Wire.read) page [] none)
    relay_and_store p fetched

  abbrev pub hit_or_miss : Parked → Option Response → Exec Proxy (Unit {0})
  hit_or_miss p (some hit) = from_cache p hit
  hit_or_miss p none = from_origin p

  unfoldable pub serve_one : Parked → Exec Proxy (Unit {0})
  unfolding ◌>>=◌ ◌>>◌ on_server on_client on_cache on_response Loop.relay Driven.send
      Cache.get_signed Cache.put_signed Response.close
  serve_one p = do
    now ← now_secs
    hit ← on_cache (Cache.get_signed abi (Cache.VerbArg.member Wire.read) page origin_pubkey now)
    hit_or_miss p hit

  -- The `for` of `serve_parked`.
  unfoldable pub serve_jobs : List Parked → Exec Proxy (Unit {0})
  unfolding ◌>>◌ serve_one
  serve_jobs [] = pure tt
  serve_jobs (p ∷ ps) = do serve_one p; serve_jobs ps

  unfoldable pub serve_parked : Exec Proxy (Unit {0})
  unfolding ◌>>=◌ ◌>>◌ serve_jobs
  serve_parked = do x ← get; put (record x { parked = [] }); serve_jobs x.parked
