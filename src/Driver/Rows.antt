-- ===== src/Driver/Rows.antt =====
-- Rows of driver/driver.go: a result set that may come in several responses.
use go_dqlite.Prelude.{
  ℕ, Bool, true, false, Option, none, some, List, [], get_elem?, length, leb, if◌then◌else◌,
}
use go_dqlite.Prelude.Int.{ℤ}
use go_dqlite.Message.State.{ok, panic, index}
use go_dqlite.Outcome.{nil_pointer}
use go_dqlite.Message.Rows.{
  Rows, more, rows_part, eof, Next, row, ended, bad_time, next, close, CloseError, consumed,
  closed_part, closed_eof, unexpected_end,
}
use go_dqlite.Message.Columns.{ColumnNames, names, unknown, column_names}
use go_dqlite.Protocol.Response.{decode_rows}
use go_dqlite.Protocol.Connection.{Connection}
use go_dqlite.Protocol.Session.{
  Fault, Try, Io, ◌>>=◌, ◌>>◌, done, attempt, read_from, decode_from, do_more, do_interrupt, raise,
  return,
}
use go_dqlite.Driver.Errors.{converting}
use go_dqlite.Driver.Conn.{Cursor}

-- What Rows.Next returns: a row or an error of Next on the response, or a converted error.
pub data Fetched (Time Err : Type 0) : Type 0 where
  fetched : Next Time → Fetched Time Err
  failed : Fault Err → Fetched Time Err

-- The next response of a result set.
unfoldable pub more_rows : {Net Err : Type 0} → Connection Net Err → Bool → Io Net Err Rows
more_rows conn log = converting conn log (do_more conn >> decode_from decode_rows)

module _ {Net Err Time : Type 0} (conn : Connection Net Err) (parse : ℕ → List ℕ → Option Time)
    (unix : ℤ → Time) where
  -- Rows.Next with the next response, or without one. The result of the second call of Next is
  -- returned as it is.
  unfoldable pub with_part : Cursor → Try Err Rows → Io Net Err (Fetched Time Err × Cursor)
  with_part r (raise e) = done (failed e, r)
  with_part r (return rows) = do
    (x, rows') ← read_from (next parse unix rows)
    done (fetched x, record r { rows = rows' })

  -- What Rows.Next makes of the result of Next on the response.
  unfoldable pub after_next : Cursor → Next Time × Rows → Io Net Err (Fetched Time Err × Cursor)
  unfolding with_part more_rows
  after_next r (row vs, rows) = done (fetched (row vs), record r { rows = rows })
  after_next r (ended rows_part, rows) = do
    _ ← read_from close
    t ← attempt (more_rows conn r.log)
    with_part (record r { rows = rows }) t
  after_next r (ended eof, rows) =
      done (fetched (ended eof), record r { rows = rows; consumed = true })
  after_next r (ended more, rows) = done (fetched (ended more), record r { rows = rows })
  after_next r (bad_time, rows) = done (fetched bad_time, record r { rows = rows })

  -- Rows.Next
  unfoldable pub next_row : Cursor → Io Net Err (Fetched Time Err × Cursor)
  unfolding after_next
  next_row r = read_from (next parse unix r.rows) >>= after_next r

-- r.types[i]
type_at : {Net Err : Type 0} → ℕ → Cursor → List (List ℕ) → Io Net Err (List ℕ × Cursor)
type_at i r ts s = elim (get_elem? ts i) [ none ↦ panic index | some t ↦ ok (return (t, r), s) ]

-- A line for the log, which may be nil, and the empty name.
no_type : {Net Err : Type 0} → Cursor → Io Net Err (List ℕ × Cursor)
no_type r s = if r.log then ok (return ([], r), s) else panic nil_pointer

-- ColumnTypeDatabaseTypeName behind a call of ColumnTypes.
unfoldable pub after_types :
    {Net Err : Type 0} → ℕ → Cursor → ColumnNames × Rows → Io Net Err (List ℕ × Cursor)
unfolding type_at no_type
after_types i r (names ns more, rows) = type_at i (record r { rows = rows; types = some ns }) ns
after_types i r (names ns rows_part, rows) =
    let r' = record r { rows = rows; types = some ns } in
    if leb (length ns) i then no_type r' else type_at i r' ns
after_types i r (names ns eof, rows) =
    let r' = record r { rows = rows; types = some ns } in
    if leb (length ns) i then no_type r' else type_at i r' ns
after_types i r (unknown t, rows) = no_type (record r { rows = rows; types = none })

-- Rows.ColumnTypeDatabaseTypeName
unfoldable pub column_type_name : {Net Err : Type 0} → ℕ → Cursor → Io Net Err (List ℕ × Cursor)
unfolding after_types type_at
column_type_name i r = elim r.types [
  | some ts ↦ type_at i r ts
  | none ↦ read_from (column_names r.rows) >>= after_types i r
]

module _ {Net Err : Type 0} (conn : Connection Net Err) where
  -- Rows.Close behind the close of the response, in the context of the query.
  unfoldable pub after_close : ℕ → Option ℕ → Cursor → CloseError → Io Net Err (Unit {0})
  after_close fuel deadline r e = elim r.consumed [
    | true ↦ done tt
    | false ↦ elim e [
      | closed_eof ↦ done tt
      | consumed ↦ converting conn r.log (do_interrupt conn fuel deadline)
      | closed_part ↦ converting conn r.log (do_interrupt conn fuel deadline)
      | unexpected_end ↦ converting conn r.log (do_interrupt conn fuel deadline)
    ]
  ]

  -- Rows.Close
  unfoldable pub close_rows : ℕ → Option ℕ → Cursor → Io Net Err (Unit {0})
  unfolding after_close
  close_rows fuel deadline r = read_from close >>= after_close fuel deadline r
