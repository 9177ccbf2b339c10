-- ===== src/Uri.antt =====
-- nwep/uri.py: a parsed `web://` name.
use nwep_py.Prelude.{ℕ, zero, suc, Bool, ◌&&◌, ◌==◌, Option, none, some, ◌++◌, []}
use nwep_py.Sys.{Bytes, Abi, identity, IdentityCall, nodeid_size, read_buffer}
use nwep_py.Sys.Exec.{Exec, pure, ◌>>=◌, ◌>>◌, checked, ccall}
use nwep_py.Text.{Text, codes, same_text}
use nwep_py.Message.{encoded, decoded}
use nwep_py.Identity.{NodeId, new_node_id, same_node_id, base58, c_string}

pub record Uri : Type 0 where
  pub node_id : NodeId
  pub port : ℕ
  pub path : Text

-- `__eq__`
unfoldable pub same_uri : Uri → Uri → Bool
unfolding same_node_id same_text
same_uri a b = same_node_id a.node_id b.node_id && a.port == b.port && same_text a.path b.path

-- `ffi.string(out.path, out.path_len).decode("utf-8")`, empty for NULL
unfoldable pub path_text : {S : Type 0} → Option Bytes → Exec S Text
unfolding pure decoded
path_text none = pure []
path_text (some raw) = decoded (c_string raw)

-- `host` or `host:port`, by the truth value of the port; `digits` is `str` on an `int`.
unfoldable pub authority : (ℕ → Text) → Text → ℕ → Text
authority digits host zero = host
authority digits host (suc n) = host ++ codes ":" ++ digits (suc n)

module _ (abi : Abi) {S : Type 0} where
  unfoldable pub parse : Text → Exec S Uri
  unfolding ◌>>=◌ ◌>>◌ encoded ccall checked new_node_id path_text pure
  parse text = do
    raw ← encoded text
    (rc, id, port, p) ← ccall abi (identity (IdentityCall.uri_parse raw))
    checked rc
    node_id ← new_node_id (read_buffer nodeid_size id)
    path ← path_text p
    pure (record { node_id = node_id; port = port; path = path })

  -- `__str__`
  unfoldable pub show : (ℕ → Text) → Uri → Exec S Text
  unfolding ◌>>=◌ base58 authority pure
  show digits uri = do
    host ← base58 abi uri.node_id
    pure (codes "web://" ++ authority digits host uri.port ++ uri.path)
