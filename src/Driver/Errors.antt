-- ===== src/Driver/Errors.antt =====
-- driverError of driver/driver.go: which errors make a connection bad.
use go_dqlite.Prelude.{ℕ, ◌+◌, ◌*◌, Bool, true, false, ◌||◌, none, some, ◌==◌, if◌then◌else◌}
use go_dqlite.Prelude.Int.{to_int64}
use go_dqlite.Message.State.{Outcome, ok, panic, stuck}
use go_dqlite.Outcome.{nil_pointer}
use go_dqlite.Protocol.Response.{request}
use go_dqlite.Protocol.Connection.{Connection, connection}
use go_dqlite.Protocol.Session.{Fault, cause, decoding, sqlite, bad_conn, return, raise, Io}

-- The codes of SQLite; an extended code has its number above the primary code of eight bits.
abbrev pub io_error : ℕ
io_error = 10

abbrev pub not_leader : ℕ
not_leader = io_error + 40 * 256

abbrev pub leadership_lost : ℕ
leadership_lost = io_error + 41 * 256

abbrev pub not_leader_legacy : ℕ
not_leader_legacy = io_error + 32 * 256

abbrev pub leadership_lost_legacy : ℕ
leadership_lost_legacy = io_error + 33 * 256

abbrev pub not_found : ℕ
not_found = 12

module _ {Net Err : Type 0} (conn : Connection Net Err) where
  -- A line for the log, which may be nil, and driver.ErrBadConn.
  abbrev pub lost : Bool → Outcome (Fault Err)
  lost true = ok bad_conn
  lost false = panic nil_pointer

  -- The default of the outer switch and the test for io.EOF behind it, on an error of the network.
  unfoldable pub unwrapped_error : Bool → Err → Outcome (Fault Err)
  unwrapped_error log e =
      let last : Outcome (Fault Err) =
        if conn.is_eof e then lost log else ok (cause (connection e)) in
      elim (conn.unwrap e) [
        | none ↦ last
        | some root ↦ if conn.is_op_error root then lost log else last
      ]

  unfoldable pub driver_error : Bool → Fault Err → Outcome (Fault Err)
  unfolding unwrapped_error
  driver_error log (cause (connection e)) =
      if conn.is_errno e
      then lost log
      else if conn.is_op_error e
      then lost log
      else unwrapped_error log e
  driver_error log (decoding (request code description)) =
      if code == not_leader_legacy
        || (code == leadership_lost_legacy || (code == not_leader || code == leadership_lost))
      then lost log
      else if code == not_found
      then lost log
      else if code == 0
      then lost log
      else ok (sqlite (to_int64 code) description)
  driver_error log e = ok e

  -- A step of the driver, whose error is converted.
  unfoldable pub converting : {A : Type 0} → Bool → Io Net Err A → Io Net Err A
  unfolding driver_error
  converting log m s = elim (m s) [
    | ok (r, t) ↦ elim r [
      | return a ↦ ok (return a, t)
      | raise e ↦ elim (driver_error log e) [
        | ok f ↦ ok (raise f, t)
        | panic p ↦ panic p
        | stuck ↦ stuck
      ]
    ]
    | panic p ↦ panic p
    | stuck ↦ stuck
  ]
