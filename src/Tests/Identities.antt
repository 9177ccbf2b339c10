-- ===== src/Tests/Identities.antt =====
-- An identity, a builder with it, and the log's endpoints.
use nwep_py.Identity.{new_node_id, finalize}
use nwep_py.Prelude.{◌≡◌, ◌≢◌, length, ◌⊎◌, refl, true, false, some, List, [], ◌∷◌, pos}
use nwep_py.Errors.{Exc, ok, raise, value_error}
use nwep_py.Sys.Exec.{World}
use nwep_py.Sys.{Bytes, nodeid_size}
use nwep_py.Sys.Gives.{Gives}
use nwep_py.Sys.Handles.{secret_handle, log_handle, log_server_handle, freed, use_after_free}
use nwep_py.Text.{encode, encode_all, encode_char}
use nwep_py.Identity.{Identity, NodeId, new_identity, from_pubkey, from_base58, generate, from_pem}
use nwep_py.Identity.Lifetime as Life
use nwep_py.Identity.Names.{IsNodeId, IsNamed, makers-IsNodeId, from_pem_keeps_or_wipes}
use nwep_py.Address.{Address}
use nwep_py.Client.Building.{ClientBuilder}
use nwep_py.Log.Serving.Borrowing.{
  Endpoints, careful, size_op, append_op, on_append_op, dispatch_op, close_log_op, close_server_op,
  IsSound, step, run, EndpointsOp, nested_blocks_free, stale, holds_hook,
}
use nwep_py.Log.Serving.{LogServer}
use nwep_py.Server.Request.{Request}
use nwep_py.Server.Responder.{Responder}
use nwep_py.Tests.Quiet.{quiet}

abbrev someone : Identity
someone = new_identity 13 [] (record { raw = [] })

abbrev alone : World Identity
alone = record { self = someone; calls = [] }

abbrev signing : List Life.IdentityOp
signing = Life.sign_op (1 ∷ []) ∷ Life.to_pem_op ∷ []

identity_block_wipes_example :
    (freed (secret_handle 13) (Life.step quiet Life.close_op (Life.run quiet signing alone)).calls
      ≡ true)
    × (use_after_free
          (secret_handle 13)
          (Life.step quiet Life.close_op (Life.run quiet signing alone)).calls
        ≡ false)
    × ((finalize quiet (Life.run quiet signing alone)).1
        ≡ Life.step quiet Life.close_op (Life.run quiet signing alone))
    × ((finalize quiet (Life.step quiet Life.close_op (Life.run quiet signing alone))).1
        ≡ Life.step quiet Life.close_op (Life.run quiet signing alone))
unfolding freed use_after_free
identity_block_wipes_example =
    Life.identity_block_wipes quiet 13 signing alone
      (record { handle = refl; flagged = refl; sound = refl })

abbrev one_byte : Bytes
one_byte = 1 ∷ []

makers-IsNodeId_example :
    ((length one_byte ≡ nodeid_size
        × new_node_id one_byte alone ≡ (ok (record { raw = one_byte }), alone))
      ⊎ (length one_byte ≢ nodeid_size × new_node_id one_byte alone ≡ (raise value_error, alone)))
    × Gives IsNodeId (from_pubkey quiet [] alone).0
    × Gives IsNodeId (from_base58 quiet (97 ∷ []) alone).0
    × Gives IsNamed (generate quiet alone).0
    × Gives IsNamed (from_pem quiet [] alone).0
makers-IsNodeId_example = makers-IsNodeId quiet one_byte [] (97 ∷ []) [] alone

from_pem_keeps_or_wipes_example :
    ((i : Identity) × ((from_pem quiet (97 ∷ []) alone).0 ≡ ok i)
      × (i.kp ≡ 13)
      × (i.closed ≡ false)
      × (freed (secret_handle 13) (from_pem quiet (97 ∷ []) alone).1.calls ≡ false))
    ⊎ ((e : Exc) × ((from_pem quiet (97 ∷ []) alone).0 ≡ raise e)
        × (freed (secret_handle 13) (from_pem quiet (97 ∷ []) alone).1.calls ≡ true))
unfolding encode encode_all encode_char freed
from_pem_keeps_or_wipes_example =
    from_pem_keeps_or_wipes quiet (97 ∷ []) alone {raw = 97 ∷ []} {out = []} {key = []} {n = 0}
      {kp = 13} {rc = pos 0} refl refl refl refl

abbrev ready : World ClientBuilder
ready = record { self = record { owner = some someone }; calls = [] }

abbrev there : Address
there = record { raw = [] }

abbrev peer : NodeId
peer = record { raw = [] }

abbrev request : Request
request = record { msg = 1; server_ptr = 2; conn = 3; stream_id = 4 }

abbrev responder : Responder
responder = record { buf = 5; server_ptr = 2; conn = 3; stream_id = 4; used = false }

abbrev log_server : LogServer
log_server = record { handle = 23; tree = 19; append_cb = false; closed = false }

abbrev endpoints : World Endpoints
endpoints = record {
  self = record { tree = record { handle = 19; closed = false }; served = log_server };
  calls = [];
}

abbrev body : List EndpointsOp
body =
    append_op (1 ∷ [])
    ∷ on_append_op true
    ∷ dispatch_op request responder 0
    ∷ close_server_op
    ∷ close_log_op
    ∷ size_op
    ∷ []

nested_blocks_free_example :
    IsSound 19 23 (run quiet body endpoints)
    × IsSound 19 23
        (step quiet close_log_op (step quiet close_server_op (run quiet body endpoints)))
    × (freed
          (log_handle 19)
          (step quiet close_log_op (step quiet close_server_op (run quiet body endpoints))).calls
        ≡ true)
    × (freed
          (log_server_handle 23)
          (step quiet close_log_op (step quiet close_server_op (run quiet body endpoints))).calls
        ≡ true)
unfolding freed use_after_free stale holds_hook careful
nested_blocks_free_example = nested_blocks_free quiet 19 23 body endpoints refl (record {
  log_ptr = refl;
  server_ptr = refl;
  log_flag = refl;
  server_flag = refl;
  log_sound = refl;
  server_sound = refl;
  fresh = refl;
  kept = refl;
})

abbrev handling : World Responder
handling = record { self = responder; calls = [] }
