-- ===== src/Examples/Server.antt =====
-- Calls against a server that gives the same answer to every request and delivers it byte by byte:
-- internal/protocol/protocol.go, client/client.go and driver/driver.go from end to end.
use go_dqlite.Prelude.{
  ℕ, ◌≤◌, ◌<◌, ◌≡◌, refl, arith, ◌-◌, true, false, Option, none, some, List, [], ◌∷◌, ◌++◌, length,
  replicate, ◌==◌, if◌then◌else◌,
}
use go_dqlite.Prelude.Int.{pos}
use go_dqlite.Node.{NodeInfo, voter}
use go_dqlite.Message.State.{Message, ok}
use go_dqlite.Message.Bytes.{le_bytes, padding}
use go_dqlite.Message.Header.{wire_header, size}
use go_dqlite.Message.Fields.{value_bytes, values_bytes}
use go_dqlite.Message.Text.{string_bytes}
use go_dqlite.Message.Values.{Value, integer, text}
use go_dqlite.Message.ReadText.{nodes_bytes, node_list_bytes}
use go_dqlite.Protocol.Encoding.{IsEncoded}
use go_dqlite.Protocol.Connection.{Connection, call}
use go_dqlite.Protocol.Delivery.{IsStream, IsReceived}
use go_dqlite.Protocol.Exchange.{IsServer, call_lem}
use go_dqlite.Protocol.Keeping.{IsCounted}
use go_dqlite.Protocol.Session.{Session, return, raise, decoding}
use go_dqlite.Client.{cluster, add}
use go_dqlite.Client.Served.{cluster_lem, add_lem, Verdict, accepted, refused, verdict_bytes}
use go_dqlite.Protocol.Response.{request}
use go_dqlite.Examples.Teller.{Desk, type_of, telling, telling-IsServer}
use go_dqlite.Driver.Conn.{name_values, exec_context, encode_exec_sql}
use go_dqlite.Driver.Exec.{exec_call, encode_exec_sql_lem, exec_context_lem}
use go_dqlite.Examples.Wire.{reply}

-- How many connections are open, the bytes that are waiting, and the last write.
pub record Net : Type 0 where
  pub opened : ℕ
  pub waiting : List ℕ

pub read_byte : ℕ → Net → (Option (List ℕ) × Option ℕ) × Net
read_byte size net = elim net.waiting [
  | [] ↦ ((some [], none), net)
  | b ∷ bs ↦ ((some (b ∷ []), none), record net { waiting = bs })
]

-- The answer is waiting behind each write.
abbrev pub answering : List ℕ → Connection Net ℕ
answering bytes = record {
  write = λ bs net. ((length bs, none), record net { waiting = bytes });
  read = read_byte;
  set_deadline = λ d net. net;
  close = λ net. (none, record net { opened = net.opened - 1 });
  is_op_error = λ e. true;
  is_timeout = λ e. false;
  is_errno = λ e. false;
  unwrap = λ e. none;
  is_eof = λ e. false;
  equals_eof = λ e. false;
}

answering-IsStream : (bytes : List ℕ) → IsStream (answering bytes) (λ net. net.waiting)
unfolding read_byte
answering-IsStream bytes = record {
  reads = λ size net h k. one size (net.opened) (net.waiting) h k;
}
  where
    one :
        (size opened : ℕ) (waiting : List ℕ)
        → 0 < size
        → 0 < length waiting
        → (let net : Net = record { opened = opened; waiting = waiting } in
            (bs : List ℕ) × (net' : Net) × (read_byte size net ≡ ((some bs, none), net'))
            × (0 < length bs)
            × (length bs ≤ size)
            × (waiting ≡ bs ++ net'.waiting))
    one size opened [] h k = absurd (omega arith)
    one size opened (b ∷ bs) h k =
        (b ∷ [], record { opened = opened; waiting = bs }, refl, omega arith, omega arith, refl)

answering-IsServer :
    (bytes : List ℕ) → IsServer (answering bytes) (λ net. net.waiting) (λ header body. bytes)
answering-IsServer bytes = record {
  stream = answering-IsStream bytes;
  deadlines = λ d net. refl;
  answers = λ header body net e.
      (record net { waiting = bytes }, record net { waiting = bytes }, refl, refl, refl);
}

pub answering-IsCounted : (bytes : List ℕ) → IsCounted (answering bytes) (λ net. net.opened)
unfolding read_byte
answering-IsCounted bytes = record {
  writes = λ bs net. refl;
  reads = λ size net. same (net.opened) (net.waiting) size;
  deadlines = λ d net. refl;
  closes = λ net. refl;
}
  where
    same :
        (opened : ℕ) (waiting : List ℕ) (size : ℕ)
        → (let net : Net = record { opened = opened; waiting = waiting } in
            (read_byte size net).1.opened ≡ opened)
    same opened [] size = refl
    same opened (b ∷ bs) size = refl

abbrev idle : Net
idle = record { opened = 1; waiting = [] }

abbrev empty_reply : List ℕ
empty_reply = wire_header 1 8 0 ++ le_bytes 8 0

abbrev session : Session Net ℕ
session = record {
  protocol = record { version = 1; closed = false; net_err = none };
  request = reply 0 (replicate 16 0);
  response = reply 0 (replicate 16 0);
  net = idle;
}

call_lem_example :
    (m : Message) × (net' : Net) × (call
        (answering empty_reply)
        none
        (reply 0 (replicate 16 0))
        (reply 0 (replicate 16 0))
        session.protocol
        idle
      ≡ ok (none, m, session.protocol, net'))
    × (net'.waiting ≡ [])
    × IsReceived 1 8 0 (le_bytes 8 0) m
unfolding le_bytes
call_lem_example =
    call_lem (answering empty_reply) (λ net. net.waiting) (λ header body. empty_reply)
      (answering-IsServer empty_reply) none (reply 0 (replicate 16 0)) (reply 0 (replicate 16 0))
      session.protocol idle 1 8 0 (le_bytes 8 0) refl refl (omega arith) (omega arith) (omega arith)
      refl refl

abbrev node : NodeInfo
node = record { id = 7; address = b'a' ∷ b':' ∷ b'1' ∷ []; role = voter }

abbrev nodes_reply : List ℕ
nodes_reply = wire_header 4 3 0 ++ nodes_bytes (node ∷ [])

cluster_lem_example :
    (t : Session Net ℕ) × (cluster (answering nodes_reply) none session
      ≡ ok (return (node ∷ []), t))
    × (t.protocol ≡ session.protocol)
    × (t.net.waiting ≡ [])
unfolding nodes_bytes node_list_bytes string_bytes padding le_bytes
cluster_lem_example =
    cluster_lem (answering nodes_reply) (λ net. net.waiting) (λ header body. nodes_reply)
      (answering-IsServer nodes_reply) none (node ∷ []) 4 session
      (
        record {
          id = omega arith;
          address = (omega arith, (omega arith, (omega arith, tt)));
          role = omega arith;
        },
        tt,
      )
      (omega arith) (omega arith) refl refl refl (λ t d. refl)

-- A server that accepts every request but the one to assign a role.
abbrev refusal : Verdict
refusal = refused 2 5 (b'n' ∷ b'o' ∷ [])

abbrev by_type : ℕ → List ℕ
by_type t = if t == 13 then verdict_bytes refusal else verdict_bytes accepted

abbrev at_desk : Session Desk ℕ
at_desk = record {
  protocol = record { version = 1; closed = false; net_err = none };
  request = reply 0 (replicate 16 0);
  response = reply 0 (replicate 16 0);
  net = record { opened = 1; waiting = []; last = [] };
}

add_lem_example :
    (t : Session Desk ℕ) × (add (telling by_type) none node at_desk
      ≡ ok (raise (decoding (request 5 (b'n' ∷ b'o' ∷ []))), t))
    × (t.protocol ≡ at_desk.protocol)
    × (t.net.waiting ≡ [])
unfolding string_bytes padding le_bytes
add_lem_example =
    add_lem (telling by_type) (λ net. net.waiting) (λ header body. by_type (type_of header))
      (telling-IsServer by_type) none node refusal at_desk (omega arith)
      (omega arith, refl, omega arith, (omega arith, (omega arith, tt))) refl refl
      (λ t d. rw (d.header) refl) (λ t d. rw (d.header) refl)

abbrev no_times : Unit {0} → List ℕ
no_times t = []

abbrev values : List (Value (Unit {0}))
values = integer (pos 7) ∷ text (b'x' ∷ []) ∷ []

abbrev query : List ℕ
query = b'Q' ∷ []

encode_exec_sql_lem_example :
    (t : Message) × (encode_exec_sql no_times 1 query (name_values 0 values) session
      ≡ ok (return tt, record session { request = t }))
    × IsEncoded no_times (exec_call 1 query (name_values 0 values)) t
unfolding name_values value_bytes values_bytes string_bytes padding le_bytes
encode_exec_sql_lem_example =
    encode_exec_sql_lem no_times 1 query values session (tt, (tt, tt)) (omega arith) (omega arith)
      refl (omega arith) (omega arith)

abbrev result_reply : List ℕ
result_reply = wire_header 2 6 0 ++ (le_bytes 8 5 ++ le_bytes 8 1)

exec_context_lem_example :
    (t : Session Net ℕ) × (exec_context
        (answering result_reply)
        no_times
        (record { id = 1; log = true })
        none
        query
        (name_values 0 values)
        session
      ≡ ok (return (record { last_insert_id = 5; rows_affected = 1 }), t))
    × (t.protocol ≡ session.protocol)
    × (t.net.waiting ≡ [])
unfolding name_values value_bytes values_bytes string_bytes padding le_bytes
exec_context_lem_example =
    exec_context_lem (answering result_reply) no_times (λ net. net.waiting)
      (λ header body. result_reply) (answering-IsServer result_reply)
      (record { id = 1; log = true }) none query values session 5 1 (tt, (tt, tt)) (omega arith)
      (omega arith) refl (omega arith) (omega arith) (omega arith) refl refl (omega arith)
      (omega arith) (λ t d. refl)
