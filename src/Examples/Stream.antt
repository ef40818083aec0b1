-- ===== src/Examples/Stream.antt =====
-- internal/protocol/protocol.go on a connection that delivers one byte in each read.
use go_dqlite.Prelude.{
  ℕ, ◌≡◌, refl, arith, ◌≤◌, ◌<◌, true, false, Option, none, some, List, [], ◌∷◌, ◌++◌, length,
  replicate,
}
use go_dqlite.Message.State.{Message, ok}
use go_dqlite.Message.Bytes.{le_bytes}
use go_dqlite.Message.Header.{wire_header}
use go_dqlite.Protocol.Connection.{
  Connection, connection, Protocol, recv, call, call_unless, after_write, after_header, exchange,
  send, write_all, after_exchange, keep_error, with_deadline,
}
use go_dqlite.Protocol.Failing.{call_after_error}
use go_dqlite.Protocol.Delivery.{IsStream, IsReceived, recv_lem}
use go_dqlite.Examples.Wire.{reply}

read_byte : ℕ → List ℕ → (Option (List ℕ) × Option ℕ) × List ℕ
read_byte size [] = ((some [], none), [])
read_byte size (b ∷ bs) = ((some (b ∷ []), none), bs)

abbrev byte_by_byte : Connection (List ℕ) ℕ
byte_by_byte = record {
  write = λ bs net. ((length bs, none), net);
  read = read_byte;
  set_deadline = λ d net. net;
  close = λ net. (none, net);
  is_op_error = λ e. true;
  is_timeout = λ e. false;
  is_errno = λ e. false;
  unwrap = λ e. none;
  is_eof = λ e. false;
  equals_eof = λ e. false;
}

byte_by_byte-IsStream : IsStream byte_by_byte (λ net. net)
unfolding read_byte
byte_by_byte-IsStream = record { reads = λ size net h k. one size net h k }
  where
    one :
        (size : ℕ) (net : List ℕ)
        → 0 < size
        → 0 < length net
        → (bs : List ℕ) × (net' : List ℕ) × (read_byte size net ≡ ((some bs, none), net'))
          × (0 < length bs)
          × (length bs ≤ size)
          × (net ≡ bs ++ net')
    one size [] h k = absurd (omega arith)
    one size (b ∷ bs) h k = (b ∷ [], bs, refl, omega arith, omega arith, refl)

abbrev pending_bytes : List ℕ
pending_bytes = wire_header 1 8 0 ++ (le_bytes 8 0 ++ (1 ∷ []))

recv_lem_example :
    (m' : Message) × (net' : List ℕ) × (recv byte_by_byte (reply 0 (replicate 16 7)) pending_bytes
      ≡ ok (none, m', net'))
    × (net' ≡ 1 ∷ [])
    × IsReceived 1 8 0 (le_bytes 8 0) m'
unfolding le_bytes
recv_lem_example =
    recv_lem byte_by_byte (λ net. net) byte_by_byte-IsStream 1 8 0 (le_bytes 8 0) (1 ∷ [])
      (reply 0 (replicate 16 7)) pending_bytes (omega arith) (omega arith) refl refl

-- A connection on which nothing can be written.
abbrev broken : Connection (List ℕ) ℕ
broken = record {
  write = λ bs net. ((0, some 32), net);
  read = read_byte;
  set_deadline = λ d net. net;
  close = λ net. (none, net);
  is_op_error = λ e. true;
  is_timeout = λ e. false;
  is_errno = λ e. false;
  unwrap = λ e. none;
  is_eof = λ e. false;
  equals_eof = λ e. false;
}

abbrev fine : Protocol ℕ
fine = record { version = 1; closed = false; net_err = none }

abbrev gone : Protocol ℕ
gone = record { version = 1; closed = false; net_err = some (connection 32) }

broken-call :
    call broken none (reply 0 []) (reply 0 []) fine []
    ≡ ok (some (connection 32), reply 0 [], gone, [])
unfolding call call_unless exchange send write_all after_write after_header after_exchange
    keep_error with_deadline
broken-call = refl

call_after_error_example :
    call broken none (reply 3 []) (reply 4 []) gone (1 ∷ [])
    ≡ ok (some (connection 32), reply 4 [], gone, 1 ∷ [])
call_after_error_example =
    call_after_error broken none none (reply 0 []) (reply 0 []) (reply 3 []) (reply 4 [])
      (reply 0 []) fine gone 32 [] [] (1 ∷ []) refl broken-call refl
