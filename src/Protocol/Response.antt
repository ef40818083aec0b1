-- ===== src/Protocol/Response.antt =====
-- The response decoders of internal/protocol/response.go. They are generated from one template, whose
-- head is `decode`.
use go_dqlite.Prelude.{ℕ, List, ◌==◌, if◌then◌else◌}
use go_dqlite.Node.{NodeInfo}
use go_dqlite.Message.State.{ok, Action, ◌>>=◌, pure}
use go_dqlite.Message.Get.{get_uint32, get_uint64, get_string, get_nodes, Result, get_result}
use go_dqlite.Message.Rows.{Rows, get_rows, get_files}
use go_dqlite.Protocol.Constants.{
  response_failure, response_node, response_node_legacy, response_welcome, response_nodes,
  response_db, response_stmt, response_result, response_rows, response_empty, response_files,
  response_metadata, version_legacy,
}

-- The errors of a decoder: ErrRequest, and a type that is not the expected one.
pub data DecodeError : Type 0 where
  request : ℕ → List ℕ → DecodeError
  unexpected_type : ℕ → ℕ → DecodeError

pub data Reply (A : Type 0) : Type 0 where
  value : A → Reply A
  error : DecodeError → Reply A

-- Message.getHeader
abbrev pub get_header : Action (ℕ × ℕ)
get_header m = ok ((m.mtype, m.schema), m)

get_failure : {A : Type 0} → Action (Reply A)
get_failure = do
  code ← get_uint64
  description ← get_string
  pure (error (request code description))

unfoldable pub decode : {A : Type 0} → ℕ → Action A → Action (Reply A)
unfolding get_failure
decode expected get = do
  (mtype, _) ← get_header
  if mtype == response_failure
      then get_failure
      else if mtype == expected
      then (do a ← get; pure (value a))
      else pure (error (unexpected_type expected mtype))

unfoldable pub decode_failure : Action (Reply (ℕ × List ℕ))
decode_failure =
    decode response_failure (do code ← get_uint64; message ← get_string; pure (code, message))

unfoldable pub decode_welcome : Action (Reply ℕ)
decode_welcome = decode response_welcome get_uint64

unfoldable pub decode_node_legacy : Action (Reply (List ℕ))
decode_node_legacy = decode response_node_legacy get_string

unfoldable pub decode_node : Action (Reply (ℕ × List ℕ))
decode_node = decode response_node (do id ← get_uint64; address ← get_string; pure (id, address))

unfoldable pub decode_nodes : Action (Reply (List NodeInfo))
decode_nodes = decode response_nodes get_nodes

unfoldable pub decode_db : Action (Reply ℕ)
decode_db = decode response_db (do id ← get_uint32; _ ← get_uint32; pure id)

unfoldable pub decode_stmt : Action (Reply (ℕ × ℕ × ℕ))
decode_stmt =
    decode response_stmt
      (do db ← get_uint32; id ← get_uint32; params ← get_uint64; pure (db, id, params))

unfoldable pub decode_empty : Action (Reply (Unit {0}))
decode_empty = decode response_empty (do _ ← get_uint64; pure tt)

unfoldable pub decode_result : Action (Reply Result)
decode_result = decode response_result get_result

unfoldable pub decode_rows : Action (Reply Rows)
decode_rows = decode response_rows get_rows

-- The number of files; the files are read by Files.Next.
unfoldable pub decode_files : Action (Reply ℕ)
decode_files = decode response_files get_files

unfoldable pub decode_metadata : Action (Reply (ℕ × ℕ))
decode_metadata =
    decode response_metadata (do domain ← get_uint64; weight ← get_uint64; pure (domain, weight))

legacy_node : Reply (List ℕ) → Reply (ℕ × List ℕ)
legacy_node (value address) = value (0, address)
legacy_node (error e) = error e

-- DecodeNodeCompat of internal/protocol/protocol.go, for a protocol of this version.
unfoldable pub decode_node_compat : ℕ → Action (Reply (ℕ × List ℕ))
unfolding legacy_node
decode_node_compat version =
    if version == version_legacy
    then (do r ← decode_node_legacy; pure (legacy_node r))
    else decode_node
