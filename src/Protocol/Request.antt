-- ===== src/Protocol/Request.antt =====
-- The request encoders of internal/protocol/request.go.
use go_dqlite.Prelude.{ℕ, List}
use go_dqlite.Message.State.{Action, reset, ◌>>◌}
use go_dqlite.Message.Put.{put_uint32, put_uint64, put_string, put_header}
use go_dqlite.Message.Values.{NamedValue, put_named_values, put_named_values32}
use go_dqlite.Protocol.Constants.{
  request_leader, request_client, request_heartbeat, request_open, request_prepare, request_exec,
  request_query, request_finalize, request_exec_sql, request_query_sql, request_interrupt,
  request_add, request_assign, request_remove, request_dump, request_cluster, request_transfer,
  request_describe, request_weight,
}

unfoldable pub encode_leader : Action (Unit {0})
encode_leader = do reset; put_uint64 0; put_header request_leader 0

unfoldable pub encode_client : ℕ → Action (Unit {0})
encode_client id = do reset; put_uint64 id; put_header request_client 0

unfoldable pub encode_heartbeat : ℕ → Action (Unit {0})
encode_heartbeat timestamp = do reset; put_uint64 timestamp; put_header request_heartbeat 0

unfoldable pub encode_open : List ℕ → ℕ → List ℕ → Action (Unit {0})
encode_open name flags vfs = do
  reset
  put_string name
  put_uint64 flags
  put_string vfs
  put_header request_open 0

unfoldable pub encode_prepare : ℕ → List ℕ → Action (Unit {0})
encode_prepare db sql = do reset; put_uint64 db; put_string sql; put_header request_prepare 0

unfoldable pub encode_finalize : ℕ → ℕ → Action (Unit {0})
encode_finalize db stmt = do reset; put_uint32 db; put_uint32 stmt; put_header request_finalize 0

unfoldable pub encode_interrupt : ℕ → Action (Unit {0})
encode_interrupt db = do reset; put_uint64 db; put_header request_interrupt 0

unfoldable pub encode_add : ℕ → List ℕ → Action (Unit {0})
encode_add id address = do reset; put_uint64 id; put_string address; put_header request_add 0

unfoldable pub encode_assign : ℕ → ℕ → Action (Unit {0})
encode_assign id role = do reset; put_uint64 id; put_uint64 role; put_header request_assign 0

unfoldable pub encode_remove : ℕ → Action (Unit {0})
encode_remove id = do reset; put_uint64 id; put_header request_remove 0

unfoldable pub encode_dump : List ℕ → Action (Unit {0})
encode_dump name = do reset; put_string name; put_header request_dump 0

unfoldable pub encode_cluster : ℕ → Action (Unit {0})
encode_cluster format_code = do reset; put_uint64 format_code; put_header request_cluster 0

unfoldable pub encode_transfer : ℕ → Action (Unit {0})
encode_transfer id = do reset; put_uint64 id; put_header request_transfer 0

unfoldable pub encode_describe : ℕ → Action (Unit {0})
encode_describe format_code = do reset; put_uint64 format_code; put_header request_describe 0

unfoldable pub encode_weight : ℕ → Action (Unit {0})
encode_weight weight = do reset; put_uint64 weight; put_header request_weight 0

-- `format` is time.Time.Format at the first of iso8601Formats.
module _ {Time : Type 0} (format : Time → List ℕ) where
  unfoldable pub encode_exec_v0 : ℕ → ℕ → List (NamedValue Time) → Action (Unit {0})
  encode_exec_v0 db stmt values = do
    reset
    put_uint32 db
    put_uint32 stmt
    put_named_values format values
    put_header request_exec 0

  unfoldable pub encode_exec_v1 : ℕ → ℕ → List (NamedValue Time) → Action (Unit {0})
  encode_exec_v1 db stmt values = do
    reset
    put_uint32 db
    put_uint32 stmt
    put_named_values32 format values
    put_header request_exec 1

  unfoldable pub encode_query_v0 : ℕ → ℕ → List (NamedValue Time) → Action (Unit {0})
  encode_query_v0 db stmt values = do
    reset
    put_uint32 db
    put_uint32 stmt
    put_named_values format values
    put_header request_query 0

  unfoldable pub encode_query_v1 : ℕ → ℕ → List (NamedValue Time) → Action (Unit {0})
  encode_query_v1 db stmt values = do
    reset
    put_uint32 db
    put_uint32 stmt
    put_named_values32 format values
    put_header request_query 1

  unfoldable pub encode_exec_sql_v0 : ℕ → List ℕ → List (NamedValue Time) → Action (Unit {0})
  encode_exec_sql_v0 db sql values = do
    reset
    put_uint64 db
    put_string sql
    put_named_values format values
    put_header request_exec_sql 0

  unfoldable pub encode_exec_sql_v1 : ℕ → List ℕ → List (NamedValue Time) → Action (Unit {0})
  encode_exec_sql_v1 db sql values = do
    reset
    put_uint64 db
    put_string sql
    put_named_values32 format values
    put_header request_exec_sql 1

  unfoldable pub encode_query_sql_v0 : ℕ → List ℕ → List (NamedValue Time) → Action (Unit {0})
  encode_query_sql_v0 db sql values = do
    reset
    put_uint64 db
    put_string sql
    put_named_values format values
    put_header request_query_sql 0

  unfoldable pub encode_query_sql_v1 : ℕ → List ℕ → List (NamedValue Time) → Action (Unit {0})
  encode_query_sql_v1 db sql values = do
    reset
    put_uint64 db
    put_string sql
    put_named_values32 format values
    put_header request_query_sql 1
