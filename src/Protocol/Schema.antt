-- ===== src/Protocol/Schema.antt =====
-- The wire schema of the requests, as the go:generate lines of internal/protocol/schema.go declare it:
-- each request's type,
-- schema version and fields.
use go_dqlite.Prelude.{ℕ, List, [], ◌∷◌}
use go_dqlite.Message.State.{Action}
use go_dqlite.Message.Values.{NamedValue}
use go_dqlite.Message.Fields.{Field, uint64, uint32, string, params}
use go_dqlite.Protocol.Constants.{
  request_leader, request_client, request_heartbeat, request_open, request_prepare, request_exec,
  request_query, request_finalize, request_exec_sql, request_query_sql, request_interrupt,
  request_add, request_assign, request_remove, request_dump, request_cluster, request_transfer,
  request_describe, request_weight,
}
use go_dqlite.Protocol.Request

-- A call of one of the encoders, with its arguments.
pub data Call (Time : Type 0) : Type 0 where
  leader : Call Time
  client : ℕ → Call Time
  heartbeat : ℕ → Call Time
  open_db : List ℕ → ℕ → List ℕ → Call Time
  prepare : ℕ → List ℕ → Call Time
  exec_v0 : ℕ → ℕ → List (NamedValue Time) → Call Time
  exec_v1 : ℕ → ℕ → List (NamedValue Time) → Call Time
  query_v0 : ℕ → ℕ → List (NamedValue Time) → Call Time
  query_v1 : ℕ → ℕ → List (NamedValue Time) → Call Time
  finalize : ℕ → ℕ → Call Time
  exec_sql_v0 : ℕ → List ℕ → List (NamedValue Time) → Call Time
  exec_sql_v1 : ℕ → List ℕ → List (NamedValue Time) → Call Time
  query_sql_v0 : ℕ → List ℕ → List (NamedValue Time) → Call Time
  query_sql_v1 : ℕ → List ℕ → List (NamedValue Time) → Call Time
  interrupt : ℕ → Call Time
  add : ℕ → List ℕ → Call Time
  assign : ℕ → ℕ → Call Time
  remove : ℕ → Call Time
  dump : List ℕ → Call Time
  cluster : ℕ → Call Time
  transfer : ℕ → Call Time
  describe : ℕ → Call Time
  weight : ℕ → Call Time

pub record Kind : Type 0 where
  pub mtype : ℕ
  pub schema : ℕ

abbrev pub kind : {Time : Type 0} → Call Time → Kind
kind leader = record { mtype = request_leader; schema = 0 }
kind (client _) = record { mtype = request_client; schema = 0 }
kind (heartbeat _) = record { mtype = request_heartbeat; schema = 0 }
kind (open_db _ _ _) = record { mtype = request_open; schema = 0 }
kind (prepare _ _) = record { mtype = request_prepare; schema = 0 }
kind (exec_v0 _ _ _) = record { mtype = request_exec; schema = 0 }
kind (exec_v1 _ _ _) = record { mtype = request_exec; schema = 1 }
kind (query_v0 _ _ _) = record { mtype = request_query; schema = 0 }
kind (query_v1 _ _ _) = record { mtype = request_query; schema = 1 }
kind (finalize _ _) = record { mtype = request_finalize; schema = 0 }
kind (exec_sql_v0 _ _ _) = record { mtype = request_exec_sql; schema = 0 }
kind (exec_sql_v1 _ _ _) = record { mtype = request_exec_sql; schema = 1 }
kind (query_sql_v0 _ _ _) = record { mtype = request_query_sql; schema = 0 }
kind (query_sql_v1 _ _ _) = record { mtype = request_query_sql; schema = 1 }
kind (interrupt _) = record { mtype = request_interrupt; schema = 0 }
kind (add _ _) = record { mtype = request_add; schema = 0 }
kind (assign _ _) = record { mtype = request_assign; schema = 0 }
kind (remove _) = record { mtype = request_remove; schema = 0 }
kind (dump _) = record { mtype = request_dump; schema = 0 }
kind (cluster _) = record { mtype = request_cluster; schema = 0 }
kind (transfer _) = record { mtype = request_transfer; schema = 0 }
kind (describe _) = record { mtype = request_describe; schema = 0 }
kind (weight _) = record { mtype = request_weight; schema = 0 }

abbrev pub fields : {Time : Type 0} → Call Time → List (Field Time)
fields leader = uint64 0 ∷ []
fields (client id) = uint64 id ∷ []
fields (heartbeat timestamp) = uint64 timestamp ∷ []
fields (open_db name flags vfs) = string name ∷ uint64 flags ∷ string vfs ∷ []
fields (prepare db sql) = uint64 db ∷ string sql ∷ []
fields (exec_v0 db stmt values) = uint32 db ∷ uint32 stmt ∷ params 1 values ∷ []
fields (exec_v1 db stmt values) = uint32 db ∷ uint32 stmt ∷ params 4 values ∷ []
fields (query_v0 db stmt values) = uint32 db ∷ uint32 stmt ∷ params 1 values ∷ []
fields (query_v1 db stmt values) = uint32 db ∷ uint32 stmt ∷ params 4 values ∷ []
fields (finalize db stmt) = uint32 db ∷ uint32 stmt ∷ []
fields (exec_sql_v0 db sql values) = uint64 db ∷ string sql ∷ params 1 values ∷ []
fields (exec_sql_v1 db sql values) = uint64 db ∷ string sql ∷ params 4 values ∷ []
fields (query_sql_v0 db sql values) = uint64 db ∷ string sql ∷ params 1 values ∷ []
fields (query_sql_v1 db sql values) = uint64 db ∷ string sql ∷ params 4 values ∷ []
fields (interrupt db) = uint64 db ∷ []
fields (add id address) = uint64 id ∷ string address ∷ []
fields (assign id role) = uint64 id ∷ uint64 role ∷ []
fields (remove id) = uint64 id ∷ []
fields (dump name) = string name ∷ []
fields (cluster format_code) = uint64 format_code ∷ []
fields (transfer id) = uint64 id ∷ []
fields (describe format_code) = uint64 format_code ∷ []
fields (weight w) = uint64 w ∷ []

-- The encoder that a call names.
unfoldable pub encode : {Time : Type 0} → (Time → List ℕ) → Call Time → Action (Unit {0})
unfolding Request.encode_leader Request.encode_client Request.encode_heartbeat Request.encode_open
    Request.encode_prepare Request.encode_exec_v0 Request.encode_exec_v1 Request.encode_query_v0
    Request.encode_query_v1 Request.encode_finalize Request.encode_exec_sql_v0
    Request.encode_exec_sql_v1 Request.encode_query_sql_v0 Request.encode_query_sql_v1
    Request.encode_interrupt Request.encode_add Request.encode_assign Request.encode_remove
    Request.encode_dump Request.encode_cluster Request.encode_transfer Request.encode_describe
    Request.encode_weight
encode format leader = Request.encode_leader
encode format (client id) = Request.encode_client id
encode format (heartbeat timestamp) = Request.encode_heartbeat timestamp
encode format (open_db name flags vfs) = Request.encode_open name flags vfs
encode format (prepare db sql) = Request.encode_prepare db sql
encode format (exec_v0 db stmt values) = Request.encode_exec_v0 format db stmt values
encode format (exec_v1 db stmt values) = Request.encode_exec_v1 format db stmt values
encode format (query_v0 db stmt values) = Request.encode_query_v0 format db stmt values
encode format (query_v1 db stmt values) = Request.encode_query_v1 format db stmt values
encode format (finalize db stmt) = Request.encode_finalize db stmt
encode format (exec_sql_v0 db sql values) = Request.encode_exec_sql_v0 format db sql values
encode format (exec_sql_v1 db sql values) = Request.encode_exec_sql_v1 format db sql values
encode format (query_sql_v0 db sql values) = Request.encode_query_sql_v0 format db sql values
encode format (query_sql_v1 db sql values) = Request.encode_query_sql_v1 format db sql values
encode format (interrupt db) = Request.encode_interrupt db
encode format (add id address) = Request.encode_add id address
encode format (assign id role) = Request.encode_assign id role
encode format (remove id) = Request.encode_remove id
encode format (dump name) = Request.encode_dump name
encode format (cluster format_code) = Request.encode_cluster format_code
encode format (transfer id) = Request.encode_transfer id
encode format (describe format_code) = Request.encode_describe format_code
encode format (weight w) = Request.encode_weight w
