-- ===== src/Examples/Driver.antt =====
-- driver/driver.go and internal/protocol/connector.go on connections that fail.
use go_dqlite.Prelude.{
  ℕ, ◌≡◌, ◌⊎◌, ◌-◌, refl, Bool, true, false, Option, none, some, List, [], length, replicate,
  if◌then◌else◌,
}
use go_dqlite.Prelude.Int.{ℤ, pos}
use go_dqlite.Message.State.{ok, panic}
use go_dqlite.Outcome.{nil_pointer}
use go_dqlite.Protocol.Response.{request}
use go_dqlite.Protocol.Connection.{Connection, connection}
use go_dqlite.Protocol.Session.{Fault, Session, cause, decoding, bad_conn, sqlite}
use go_dqlite.Protocol.Total.{Ends, call-total}
use go_dqlite.Protocol.Connection.{call}
use go_dqlite.Prelude.{arith, ◌<◌}
use go_dqlite.Driver.Errors.{driver_error}
use go_dqlite.Driver.Verdicts.{IsLost, IsKept, driver_error_lem, driver_error-driver_error}
use go_dqlite.Examples.Wire.{reply}

-- A connection whose reads fail.
abbrev failing : Connection ℕ ℕ
failing = record {
  write = λ bs net. ((length bs, none), net);
  read = λ size net. ((some [], some 104), net);
  set_deadline = λ d net. net;
  close = λ net. (none, net - 1);
  is_op_error = λ e. true;
  is_timeout = λ e. false;
  is_errno = λ e. false;
  unwrap = λ e. none;
  is_eof = λ e. false;
  equals_eof = λ e. false;
}

abbrev parse : ℕ → List ℕ → Option ℕ
parse i bs = none

abbrev unix : ℤ → ℕ
unix v = 0

driver_error_lem_example :
    (IsLost failing (cause (connection 104))
      × ((log : Bool)
          → driver_error failing log (cause (connection 104))
            ≡ (if log then ok bad_conn else panic nil_pointer)))
    ⊎ ((f : Fault ℕ) × IsKept failing (cause (connection 104)) f
        × ((log : Bool) → driver_error failing log (cause (connection 104)) ≡ ok f))
driver_error_lem_example = driver_error_lem failing (cause (connection 104))

driver_error-driver_error_example :
    driver_error failing false (sqlite (pos 1) []) ≡ ok (sqlite (pos 1) [])
unfolding driver_error
driver_error-driver_error_example =
    driver_error-driver_error failing true false (decoding (request 1 [])) (sqlite (pos 1) []) refl

abbrev waiting : Session ℕ ℕ
waiting = record {
  protocol = record { version = 1; closed = false; net_err = none };
  request = reply 0 (replicate 16 0);
  response = reply 7 (replicate 8 238);
  net = 1;
}

call-total_example :
    Ends failing
      (λ r. 0 < length (r.1).body.bytes)
      (call failing none (reply 0 (replicate 8 0)) (reply 0 (replicate 8 0)) waiting.protocol 1)
call-total_example =
    call-total failing none (reply 0 (replicate 8 0)) (reply 0 (replicate 8 0)) waiting.protocol 1
      (omega arith) (omega arith)
