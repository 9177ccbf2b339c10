-- ===== src/Server/Request.antt =====
-- `Request` of nwep/server.py, and how a range header resolves. A request never changes.
pub mod Ranges
use nwep_py.Prelude.{
  ℕ, zero, suc, Bool, Option, none, some, List, [], ◌∷◌, ℤ, pos, negsuc, eq_ℤ, not, get_elem?,
}
use nwep_py.Errors.{Outcome, ok, raise, index_error}
use nwep_py.Sys.{
  read_buffer, nodeid_size, Bytes, Ptr, ByteRange, Abi, response, server, ResponseCall, ServerCall,
}
use nwep_py.Sys.Exec.{Exec, pure, lift, ◌>>=◌, ◌>>◌, checked, ccall}
use nwep_py.Text.{Text, codes}
use nwep_py.Wire.{Method, all_methods, by_token, Compression, none_codec, zstd, unknown}
use nwep_py.Message
use nwep_py.Message.{encoded}

pub record Request : Type 0 where
  pub msg : Ptr
  pub server_ptr : Ptr
  pub conn : ℕ
  pub stream_id : ℕ

-- `RangeOutcome`, with its `RangeKind` as the constructor.
pub data RangeOutcome : Type 0 where
  full unsatisfiable : RangeOutcome
  ranges : List ByteRange → RangeOutcome

abbrev pub max_ranges : ℕ
max_ranges = 16

-- `_to_compression`
unfoldable pub to_compression : ℤ → Compression
to_compression (pos zero) = none_codec
to_compression (pos (suc zero)) = zstd
to_compression _ = unknown

-- `_METHOD_BY_TOKEN.get(token)`, over the tokens at the time of import
abbrev pub method_of_token : (Method → Text) → Option Text → Option Method
method_of_token tokens none = none
method_of_token tokens (some t) = by_token tokens all_methods t

-- `tuple(out[i] for i in range(count))`; cffi raises for an index outside the array.
unfoldable pub read_ranges : List ByteRange → ℕ → Outcome (List ByteRange)
read_ranges out zero = ok []
read_ranges [] (suc count) = raise index_error
read_ranges (r ∷ out) (suc count) = elim (read_ranges out count) [
  | raise e ↦ raise e
  | ok rest ↦ ok (r ∷ rest)
]

abbrev ranges_of : Outcome (List ByteRange) → Outcome RangeOutcome
ranges_of (raise e) = raise e
ranges_of (ok rs) = ok (ranges rs)

-- The tests on the code that `check` let through.
unfoldable pub range_outcome : ℕ → List ByteRange → ℕ → Outcome RangeOutcome
unfolding read_ranges
range_outcome zero out count = ranges_of (read_ranges out count)
range_outcome (suc zero) out count = ok full
range_outcome (suc (suc zero)) out count = ok unsatisfiable
range_outcome (suc (suc (suc rc))) out count = ok full

module _ (abi : Abi) {S : Type 0} where
  unfoldable pub header : Request → Text → Exec S (Option Text)
  unfolding Message.header
  header req name = Message.header abi req.msg name

  unfoldable pub method : (Method → Text) → Request → Exec S (Option Method)
  unfolding ◌>>=◌ header
  method tokens req = do token ← header req (codes ":method"); pure (method_of_token tokens token)

  unfoldable pub path : Request → Exec S (Option Text)
  unfolding header
  path req = header req (codes ":path")

  unfoldable pub body : Request → Exec S Bytes
  unfolding Message.body
  body req = Message.body abi req.msg

  unfoldable pub is_fresh : Request → Text → Exec S Bool
  unfolding ◌>>=◌ encoded ccall
  is_fresh req etag = do
    raw ← encoded etag
    rc ← ccall abi (response (ResponseCall.is_fresh req.msg raw))
    pure (not (eq_ℤ rc (pos 0)))

  -- `etag.encode("utf-8") if etag is not None else NULL`
  encoded_or_null : Option Text → Exec S (Option Bytes)
  unfolding ◌>>=◌ encoded
  encoded_or_null none = pure none
  encoded_or_null (some etag) = do raw ← encoded etag; pure (some raw)

  unfoldable pub range : Request → ℕ → Option Text → Exec S RangeOutcome
  unfolding ◌>>=◌ encoded_or_null ccall checked range_outcome
  range req total_len etag = do
    etag_c ← encoded_or_null etag
    (code, out, count) ←
        ccall abi (response (ResponseCall.range req.msg total_len etag_c max_ranges))
    rc ← checked code
    lift (range_outcome rc out count)

  unfoldable pub compression : Request → Exec S Compression
  unfolding ◌>>=◌ ccall to_compression
  compression req = do
    code ← ccall abi (server (ServerCall.conn_compression req.server_ptr req.conn))
    pure (to_compression code)

  unfoldable pub peer_node_id : Request → Exec S Bytes
  unfolding ◌>>=◌ ◌>>◌ ccall checked
  peer_node_id req = do
    (rc, raw) ← ccall abi (server (ServerCall.peer_nodeid req.server_ptr req.conn))
    checked rc
    pure (read_buffer nodeid_size raw)
