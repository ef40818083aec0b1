-- ===== src/Examples/Replies.antt =====
-- The decoders of internal/protocol/response.go on small replies.
use go_dqlite.Prelude.{ℕ, ◌≡◌, ◌≢◌, refl, arith}
use go_dqlite.Prelude.{List, [], ◌∷◌, ◌++◌, length}
use go_dqlite.Node.{NodeInfo, voter, spare}
use go_dqlite.Message.State.{Message, ok, advance}
use go_dqlite.Message.Bytes.{from_le, le_bytes, padding}
use go_dqlite.Message.Text.{string_bytes}
use go_dqlite.Message.Get.{get_nodes, get_uint64, buffer_for_get}
use go_dqlite.Message.ReadText.{nodes_bytes, node_list_bytes}
use go_dqlite.Protocol.Response.{
  decode, request, value, error, decode_failure, decode_node, decode_nodes, decode_db, decode_stmt,
  decode_result, decode_metadata,
}
use go_dqlite.Protocol.Decoding.{
  decode_of_failure, decode_of_value, decode_nodes_lem, decode_node_lem, decode_stmt_lem,
  decode_db_lem, decode_result_lem, decode_metadata_lem, decode_failure-ne-value,
}
use go_dqlite.Examples.Wire.{reply}

decode_of_failure_example :
    decode_nodes (reply 0 (le_bytes 8 5 ++ string_bytes (111 ∷ [])))
    ≡ ok (
      error (request 5 (111 ∷ [])),
      advance
          (length (le_bytes 8 5 ++ string_bytes (111 ∷ [])))
          (reply 0 (le_bytes 8 5 ++ string_bytes (111 ∷ []))),
    )
unfolding decode_nodes string_bytes padding le_bytes
decode_of_failure_example =
    decode_of_failure 3 get_nodes 5 (111 ∷ []) (reply 0 (le_bytes 8 5 ++ string_bytes (111 ∷ [])))
      (omega arith) (omega arith, tt)
      (record { rest = []; mtype_is = refl; bytes = refl; fits = omega arith })

abbrev welcome : Message
welcome = reply 2 (le_bytes 8 15)

welcome_decoded : decode 2 get_uint64 welcome ≡ ok (value 15, advance 8 welcome)
unfolding decode get_uint64 buffer_for_get le_bytes from_le advance
welcome_decoded = refl

decode_of_value_example :
    (welcome.mtype ≢ 0) × (welcome.mtype ≡ 2) × (get_uint64 welcome ≡ ok (15, advance 8 welcome))
decode_of_value_example =
    decode_of_value 2 get_uint64 welcome (advance 8 welcome) 15 welcome_decoded

abbrev nodes : List NodeInfo
nodes =
    record { id = 1; address = 64 ∷ 49 ∷ []; role = voter }
    ∷ record { id = 2; address = 64 ∷ 50 ∷ []; role = spare }
    ∷ []

decode_nodes_lem_example :
    decode_nodes (reply 3 (nodes_bytes nodes))
    ≡ ok (value nodes, advance (length (nodes_bytes nodes)) (reply 3 (nodes_bytes nodes)))
unfolding nodes_bytes node_list_bytes string_bytes padding le_bytes
decode_nodes_lem_example =
    decode_nodes_lem nodes (reply 3 (nodes_bytes nodes))
      (
        record { id = omega arith; address = (omega arith, (omega arith, tt)); role = omega arith },
        (
          record {
            id = omega arith;
            address = (omega arith, (omega arith, tt));
            role = omega arith;
          },
          tt,
        ),
      )
      (omega arith) (record { rest = []; mtype_is = refl; bytes = refl; fits = omega arith })

abbrev node_reply : List ℕ
node_reply = le_bytes 8 7 ++ string_bytes (64 ∷ [])

decode_node_lem_example :
    decode_node (reply 1 node_reply)
    ≡ ok (value (7, 64 ∷ []), advance (length node_reply) (reply 1 node_reply))
unfolding string_bytes padding le_bytes
decode_node_lem_example =
    decode_node_lem 7 (64 ∷ []) (reply 1 node_reply) (omega arith) (omega arith, tt)
      (record { rest = []; mtype_is = refl; bytes = refl; fits = omega arith })

abbrev stmt_reply : List ℕ
stmt_reply = le_bytes 4 1 ++ (le_bytes 4 2 ++ le_bytes 8 3)

decode_stmt_lem_example :
    decode_stmt (reply 5 stmt_reply)
    ≡ ok (value (1, 2, 3), advance (length stmt_reply) (reply 5 stmt_reply))
unfolding le_bytes
decode_stmt_lem_example =
    decode_stmt_lem 1 2 3 (reply 5 stmt_reply) (omega arith) (omega arith) (omega arith)
      (record { rest = []; mtype_is = refl; bytes = refl; fits = omega arith })

abbrev db_reply : List ℕ
db_reply = le_bytes 4 9 ++ le_bytes 4 0

decode_db_lem_example :
    decode_db (reply 4 db_reply) ≡ ok (value 9, advance (length db_reply) (reply 4 db_reply))
unfolding le_bytes
decode_db_lem_example =
    decode_db_lem 9 0 (reply 4 db_reply) (omega arith) (omega arith)
      (record { rest = []; mtype_is = refl; bytes = refl; fits = omega arith })

abbrev pair_reply : List ℕ
pair_reply = le_bytes 8 12 ++ le_bytes 8 1

decode_result_lem_example :
    decode_result (reply 6 pair_reply)
    ≡ ok (
      value (record { last_insert_id = 12; rows_affected = 1 }),
      advance (length pair_reply) (reply 6 pair_reply),
    )
unfolding le_bytes
decode_result_lem_example =
    decode_result_lem 12 1 (reply 6 pair_reply) (omega arith) (omega arith)
      (record { rest = []; mtype_is = refl; bytes = refl; fits = omega arith })

decode_metadata_lem_example :
    decode_metadata (reply 10 pair_reply)
    ≡ ok (value (12, 1), advance (length pair_reply) (reply 10 pair_reply))
unfolding le_bytes
decode_metadata_lem_example =
    decode_metadata_lem 12 1 (reply 10 pair_reply) (omega arith) (omega arith)
      (record { rest = []; mtype_is = refl; bytes = refl; fits = omega arith })

decode_failure-ne-value_example :
    decode_failure (reply 0 pair_reply) ≢ ok (value (12, []), advance 16 (reply 0 pair_reply))
decode_failure-ne-value_example =
    decode_failure-ne-value (reply 0 pair_reply) (advance 16 (reply 0 pair_reply)) (12, [])
