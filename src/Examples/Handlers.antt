-- ===== src/Examples/Handlers.antt =====
-- The handlers of examples/nwserve.py, examples/nwdrop.py and examples/nwlog.py, which change nothing but
-- their responder.
pub mod Answers
use nwep_py.Prelude.{ℕ, Bool, true, false, Option, none, some, [], length}
use nwep_py.Sys.{Bytes, Abi}
use nwep_py.Sys.Exec.{Exec, pure, ◌>>=◌, ◌>>◌}
use nwep_py.Text.{Text, codes, same_text}
use nwep_py.Server.Request
use nwep_py.Server.Request.{Request, RangeOutcome, full, ranges, unsatisfiable}
use nwep_py.Server.Responder
use nwep_py.Server.Responder.{Responder, Reply}
use nwep_py.Log.Serving
use nwep_py.Log.Serving.{LogServer}
use nwep_py.Examples.Node.{is_path}

abbrev octets : Text
octets = codes "application/octet-stream"

module _ (abi : Abi) where
  -- What nwserve answers to an outcome of `req.range`: the ranges, or the whole resource, with its tag.
  abbrev pub tagged : Bytes → Text → RangeOutcome → Exec Responder Reply
  tagged resource etag (ranges rs) = do
    Responder.header abi (codes "etag") etag
    Responder.partial abi resource rs octets
  tagged resource etag unsatisfiable = Responder.range_not_satisfiable abi (length resource)
  tagged resource etag full = do Responder.header abi (codes "etag") etag; Responder.ok abi resource

  abbrev pub unless_fresh : Bytes → Text → Request → Bool → Exec Responder Reply
  unless_fresh resource etag req true = Responder.not_modified abi etag
  unless_fresh resource etag req false = do
    outcome ← Request.range abi req (length resource) (some etag)
    tagged resource etag outcome

  abbrev pub at_doc : Bytes → Text → Request → Bool → Exec Responder Reply
  at_doc resource etag req false = Responder.not_found abi []
  at_doc resource etag req true = do
    fresh ← Request.is_fresh abi req etag
    unless_fresh resource etag req fresh

  -- `handler` of nwserve
  unfoldable pub handler : Bytes → Text → Request → Exec Responder Reply
  unfolding ◌>>=◌ ◌>>◌ Request.path Request.is_fresh Request.range Responder.header
      Responder.partial Responder.range_not_satisfiable Responder.ok Responder.not_modified
      Responder.not_found same_text
  handler resource etag req = do
    path ← Request.path abi req
    at_doc resource etag req (is_path path (codes "/doc"))

  -- `file_handler` of nwdrop; a range that cannot be satisfied gets the whole file.
  abbrev pub part_or_whole : Bytes → RangeOutcome → Exec Responder Reply
  part_or_whole file (ranges rs) = Responder.partial abi file rs octets
  part_or_whole file _ = Responder.ok abi file

  abbrev pub at_file : Bytes → Request → Bool → Exec Responder Reply
  at_file file req false = Responder.not_found abi []
  at_file file req true = do
    outcome ← Request.range abi req (length file) none
    part_or_whole file outcome

  unfoldable pub file_handler : Bytes → Request → Exec Responder Reply
  unfolding ◌>>=◌ Request.path Request.range Responder.partial Responder.ok Responder.not_found
      same_text
  file_handler file req = do
    path ← Request.path abi req
    at_file file req (is_path path (codes "/file"))

  -- `handler` of nwlog
  abbrev pub or_missing : Option Reply → Exec Responder Reply
  or_missing none = Responder.not_found abi []
  or_missing (some reply) = pure reply

  unfoldable pub log_handler : LogServer → ℕ → Request → Exec Responder Reply
  unfolding ◌>>=◌ Serving.dispatch Responder.not_found
  log_handler s now_secs req = do reply ← Serving.dispatch abi s req now_secs; or_missing reply
