-- ===== src/Examples/Handlers/Answers.antt =====
-- Each of the handlers answers once.
use nwep_py.Prelude.{ℕ, suc, Bool, true, false, Option, none, some, [], ◌≡◌, length, arith}
use nwep_py.Sys.{Bytes, Abi}
use nwep_py.Sys.Exec.{World, Exec, ◌>>=◌}
use nwep_py.Sys.Triple.{Triple, bind-Triple}
use nwep_py.Text.{Text, codes}
use nwep_py.Server.Request
use nwep_py.Server.Request.{Request, RangeOutcome, full, ranges, unsatisfiable}
use nwep_py.Server.Responder
use nwep_py.Server.Responder.{Responder, Reply}
use nwep_py.Server.Handler.Trampoline.{answers}
use nwep_py.Examples.Handlers.{
  handler, file_handler, tagged, part_or_whole, at_doc, at_file, unless_fresh,
}
use nwep_py.Examples.Node.{is_path}

module _ (abi : Abi) (n : ℕ) where
  pub record IsFresh (w : World Responder) : Type 0 where
    pub unused : w.self.used ≡ false
    pub none_written : answers abi w.calls ≡ n

  -- One answer was written, and the responder takes no other.
  pub record IsAnswered (w : World Responder) : Type 0 where
    pub used : w.self.used ≡ true
    pub written : answers abi w.calls ≡ suc n

  tagged-Triple :
      (resource : Bytes) (etag : Text) (o : RangeOutcome)
      → Triple IsFresh (tagged abi resource etag o) (λ _. IsAnswered) (λ _. Unit {0})
  unfolding answers Responder.header Responder.ok Responder.partial Responder.range_not_satisfiable
  tagged-Triple resource etag full w f = ground arith
  tagged-Triple resource etag unsatisfiable w f = ground arith
  tagged-Triple resource etag (ranges rs) w f = ground arith

  part-Triple :
      (file : Bytes) (o : RangeOutcome)
      → Triple IsFresh (part_or_whole abi file o) (λ _. IsAnswered) (λ _. Unit {0})
  unfolding answers Responder.ok Responder.partial
  part-Triple file full w f = ground arith
  part-Triple file unsatisfiable w f = ground arith
  part-Triple file (ranges rs) w f = ground arith

  not_found-Triple : Triple IsFresh (Responder.not_found abi []) (λ _. IsAnswered) (λ _. Unit {0})
  unfolding answers Responder.not_found
  not_found-Triple w f = ground arith

  not_modified-Triple :
      (etag : Text)
      → Triple IsFresh (Responder.not_modified abi etag) (λ _. IsAnswered) (λ _. Unit {0})
  unfolding answers Responder.not_modified
  not_modified-Triple etag w f = ground arith

  path-Triple :
      (req : Request) → Triple IsFresh (Request.path abi req) (λ _. IsFresh) (λ _. Unit {0})
  unfolding answers Request.path
  path-Triple req w f = ground arith

  is_fresh-Triple :
      (req : Request) (etag : Text)
      → Triple IsFresh (Request.is_fresh abi req etag) (λ _. IsFresh) (λ _. Unit {0})
  unfolding answers Request.is_fresh
  is_fresh-Triple req etag w f = ground arith

  range-Triple :
      (req : Request) (total : ℕ) (etag : Option Text)
      → Triple IsFresh (Request.range abi req total etag) (λ _. IsFresh) (λ _. Unit {0})
  unfolding answers Request.range
  range-Triple req total etag w f = ground arith

  -- A read that leaves the responder fresh, and an answer.
  read_then :
      {A : Type 0} (m : Exec Responder A) (f : A → Exec Responder Reply)
      → Triple IsFresh m (λ _. IsFresh) (λ _. Unit {0})
      → ((a : A) → Triple IsFresh (f a) (λ _. IsAnswered) (λ _. Unit {0}))
      → Triple IsFresh (m >>= f) (λ _. IsAnswered) (λ _. Unit {0})
  read_then m f t u = bind-Triple IsFresh (λ _. Unit {0}) (λ _. IsFresh) (λ _. IsAnswered) m f t u

  unless_fresh-Triple :
      (resource : Bytes) (etag : Text) (req : Request) (b : Bool)
      → Triple IsFresh (unless_fresh abi resource etag req b) (λ _. IsAnswered) (λ _. Unit {0})
  unless_fresh-Triple resource etag req true = not_modified-Triple etag
  unless_fresh-Triple resource etag req false =
      read_then (Request.range abi req (length resource) (some etag)) (tagged abi resource etag)
        (range-Triple req (length resource) (some etag)) (tagged-Triple resource etag)

  at_doc-Triple :
      (resource : Bytes) (etag : Text) (req : Request) (b : Bool)
      → Triple IsFresh (at_doc abi resource etag req b) (λ _. IsAnswered) (λ _. Unit {0})
  at_doc-Triple resource etag req false = not_found-Triple
  at_doc-Triple resource etag req true =
      read_then (Request.is_fresh abi req etag) (unless_fresh abi resource etag req)
        (is_fresh-Triple req etag) (unless_fresh-Triple resource etag req)

  at_file-Triple :
      (file : Bytes) (req : Request) (b : Bool)
      → Triple IsFresh (at_file abi file req b) (λ _. IsAnswered) (λ _. Unit {0})
  at_file-Triple file req false = not_found-Triple
  at_file-Triple file req true =
      read_then (Request.range abi req (length file) none) (part_or_whole abi file)
        (range-Triple req (length file) none) (part-Triple file)

  -- On a fresh responder, whatever C answers, a handler of nwserve or of nwdrop that returns has made
  -- one call that answers, and the responder takes no other.
  pub handlers_answer :
      (resource : Bytes) (etag : Text) (req : Request)
      → Triple IsFresh (handler abi resource etag req) (λ _. IsAnswered) (λ _. Unit {0})
        × Triple IsFresh (file_handler abi resource req) (λ _. IsAnswered) (λ _. Unit {0})
  unfolding handler file_handler
  handlers_answer resource etag req = (
    read_then (Request.path abi req)
        (λ path. at_doc abi resource etag req (is_path path (codes "/doc"))) (path-Triple req)
        (λ path. at_doc-Triple resource etag req (is_path path (codes "/doc"))),
    read_then (Request.path abi req)
        (λ path. at_file abi resource req (is_path path (codes "/file"))) (path-Triple req)
        (λ path. at_file-Triple resource req (is_path path (codes "/file"))),
  )
