-- ===== src/Driver/Conn.antt =====
-- Connections, transactions and statements of driver/driver.go. A call takes the deadline of its
-- context, or none. The messages and the protocol of a Conn are the session, which its statements and
-- rows point to; logging is left out but for the panic of a nil log function.
use go_dqlite.Prelude.{
  ℕ, ◌+◌, ◌-◌, ◌^◌, Bool, false, Option, List, [], ◌∷◌, length, ltb, if◌then◌else◌,
}
use go_dqlite.Prelude.Int.{ℤ, to_int64}
use go_dqlite.Message.State.{Action}
use go_dqlite.Message.Values.{Value, NamedValue}
use go_dqlite.Message.Get.{Result}
use go_dqlite.Message.Rows.{Rows}
use go_dqlite.Protocol.Request
use go_dqlite.Protocol.Response.{decode_stmt, decode_result, decode_rows, decode_empty}
use go_dqlite.Protocol.Connection.{Connection}
use go_dqlite.Protocol.Session.{
  Io, ◌>>=◌, ◌>>◌, done, throw, encode_into, decode_from, do_call, too_many,
}
use go_dqlite.Driver.Errors.{converting}

-- Conn: the ID of its database, and whether its log function is not nil.
pub record Conn : Type 0 where
  pub id : ℕ
  pub log : Bool

-- Stmt: its database, its ID and its number of parameters.
pub record Stmt : Type 0 where
  pub db : ℕ
  pub id : ℕ
  pub params : ℕ
  pub log : Bool

-- Rows of the driver.
pub record Cursor : Type 0 where
  pub rows : Rows
  pub consumed : Bool
  pub log : Bool
  pub types : Option (List (List ℕ))

-- valuesToNamedValues, from index `i` on.
unfoldable pub name_values : {Time : Type 0} → ℕ → List (Value Time) → List (NamedValue Time)
name_values i [] = []
name_values i (v ∷ vs) = record { ordinal = i + 1; value = v } ∷ name_values (i + 1) vs

abbrev pub values_to_named_values : {Time : Type 0} → List (Value Time) → List (NamedValue Time)
values_to_named_values vs = name_values 0 vs

-- The choice of the encoder by the number of parameters: version 0 of the schema counts them in a byte.
unfoldable pub encode_sized :
    {Net Err : Type 0} → ℕ → Action (Unit {0}) → Action (Unit {0}) → Io Net Err (Unit {0})
encode_sized n v0 v1 =
    if ltb (2 ^ 32 - 1) n
    then throw (too_many n)
    else if ltb 255 n
    then encode_into v1
    else encode_into v0

-- The methods of Result.
abbrev pub last_insert_id : Result → ℤ
last_insert_id r = to_int64 r.last_insert_id

abbrev pub rows_affected : Result → ℤ
rows_affected r = to_int64 r.rows_affected

-- Stmt.NumInput
abbrev pub num_input : Stmt → ℤ
num_input s = to_int64 s.params

abbrev pub new_cursor : Bool → Rows → Cursor
new_cursor log rows = record { rows = rows; consumed = false; log = log; types = Option.none }

module _ {Net Err Time : Type 0} (format : Time → List ℕ) where
  -- The request of Conn.ExecContext.
  unfoldable pub encode_exec_sql : ℕ → List ℕ → List (NamedValue Time) → Io Net Err (Unit {0})
  unfolding encode_sized
  encode_exec_sql id query args =
      encode_sized (length args) (Request.encode_exec_sql_v0 format id query args)
        (Request.encode_exec_sql_v1 format id query args)

  -- The request of Conn.QueryContext.
  unfoldable pub encode_query_sql : ℕ → List ℕ → List (NamedValue Time) → Io Net Err (Unit {0})
  unfolding encode_sized
  encode_query_sql id query args =
      encode_sized (length args) (Request.encode_query_sql_v0 format id query args)
        (Request.encode_query_sql_v1 format id query args)

  -- The request of Stmt.ExecContext.
  unfoldable pub encode_exec : Stmt → List (NamedValue Time) → Io Net Err (Unit {0})
  unfolding encode_sized
  encode_exec s args =
      encode_sized (length args) (Request.encode_exec_v0 format s.db s.id args)
        (Request.encode_exec_v1 format s.db s.id args)

  -- The request of Stmt.QueryContext.
  unfoldable pub encode_query : Stmt → List (NamedValue Time) → Io Net Err (Unit {0})
  unfolding encode_sized
  encode_query s args =
      encode_sized (length args) (Request.encode_query_v0 format s.db s.id args)
        (Request.encode_query_v1 format s.db s.id args)

module _ {Net Err Time : Type 0} (conn : Connection Net Err) (format : Time → List ℕ) where
  -- Conn.PrepareContext
  unfoldable pub prepare_context : Conn → Option ℕ → List ℕ → Io Net Err Stmt
  prepare_context c deadline query = converting conn c.log (do
    encode_into (Request.encode_prepare c.id query)
    do_call conn deadline
    (db, id, params) ← decode_from decode_stmt
    done (record { db = db; id = id; params = params; log = c.log }))

  -- Conn.ExecContext
  unfoldable pub exec_context :
      Conn → Option ℕ → List ℕ → List (NamedValue Time) → Io Net Err Result
  exec_context c deadline query args =
      converting conn c.log (do
        encode_exec_sql format c.id query args
        do_call conn deadline
        decode_from decode_result)

  -- Conn.QueryContext
  unfoldable pub query_context :
      Conn → Option ℕ → List ℕ → List (NamedValue Time) → Io Net Err Cursor
  query_context c deadline query args = converting conn c.log (do
    encode_query_sql format c.id query args
    do_call conn deadline
    rows ← decode_from decode_rows
    done (new_cursor c.log rows))

  -- Conn.BeginTx. The transaction is the connection itself.
  unfoldable pub begin_tx : Conn → Option ℕ → Io Net Err Conn
  begin_tx c deadline = do
    _ ← exec_context c deadline (b'B' ∷ b'E' ∷ b'G' ∷ b'I' ∷ b'N' ∷ []) []
    done c

  -- Tx.Commit, which converts an error a second time.
  unfoldable pub commit : Conn → Io Net Err (Unit {0})
  commit c = do
    _ ←
        converting conn c.log
          (exec_context c Option.none (b'C' ∷ b'O' ∷ b'M' ∷ b'M' ∷ b'I' ∷ b'T' ∷ []) [])
    done tt

  -- Tx.Rollback
  unfoldable pub rollback : Conn → Io Net Err (Unit {0})
  rollback c = do
    _ ←
        converting conn c.log (
          exec_context c Option.none (b'R' ∷ b'O' ∷ b'L' ∷ b'L' ∷ b'B' ∷ b'A' ∷ b'C' ∷ b'K' ∷ [])
            [])
    done tt

  -- Stmt.Close
  unfoldable pub close_stmt : Stmt → Io Net Err (Unit {0})
  close_stmt s = converting conn s.log (do
    encode_into (Request.encode_finalize s.db s.id)
    do_call conn Option.none
    decode_from decode_empty)

  -- Stmt.ExecContext
  unfoldable pub exec_stmt : Stmt → Option ℕ → List (NamedValue Time) → Io Net Err Result
  exec_stmt s deadline args =
      converting conn s.log
        (do encode_exec format s args; do_call conn deadline; decode_from decode_result)

  -- Stmt.QueryContext. The rows get no log function.
  unfoldable pub query_stmt : Stmt → Option ℕ → List (NamedValue Time) → Io Net Err Cursor
  query_stmt s deadline args = converting conn s.log (do
    encode_query format s args
    do_call conn deadline
    rows ← decode_from decode_rows
    done (new_cursor false rows))
