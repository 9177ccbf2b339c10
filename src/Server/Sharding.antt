-- ===== src/Server/Sharding.antt =====
-- `reuse_port_supported` and `cid_shard_id` of nwep/server.py, which need no server.
use nwep_py.Prelude.{ℕ, Bool, Option, none, some, ℤ, pos, negsuc, eq_ℤ}
use nwep_py.Sys.{Bytes, Abi, server, ServerCall}
use nwep_py.Sys.Exec.{Exec, pure, ◌>>=◌, ccall}

abbrev shard : ℤ → Option ℕ
shard (pos id) = some id
shard (negsuc n) = none

module _ (abi : Abi) {S : Type 0} where
  reuse_port_supported : Exec S Bool
  unfolding ◌>>=◌ ccall pure
  reuse_port_supported = do
    rc ← ccall abi (server ServerCall.reuse_port_supported)
    pure (eq_ℤ rc (pos 1))

  cid_shard_id : Bytes → Exec S (Option ℕ)
  unfolding ◌>>=◌ ccall pure
  cid_shard_id cid = do rc ← ccall abi (server (ServerCall.cid_shard_id cid)); pure (shard rc)
