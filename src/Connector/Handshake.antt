-- ===== src/Connector/Handshake.antt =====
-- Handshake of internal/protocol/connector.go, and what connectAttemptOne asks a server.
use go_dqlite.Prelude.{ℕ, false, not, ◌&&◌, ◌||◌, Option, none, some, List, [], ◌∷◌, if◌then◌else◌}
use go_dqlite.App.Roles.{bytes_eq}
use go_dqlite.Message.State.{reset}
use go_dqlite.Message.Bytes.{le_bytes}
use go_dqlite.Protocol.Request
use go_dqlite.Protocol.Response.{decode_node_compat, decode_welcome}
use go_dqlite.Protocol.Connection.{
  Connection, Failure, Protocol, connection, write_all, with_deadline,
}
use go_dqlite.Protocol.Session.{
  Fault, Try, Io, return, raise, cause, bad_protocol, ◌>>=◌, ◌>>◌, done, throw, attempt,
  encode_into, read_from, decode_from, do_call, do_close, with_messages,
}

abbrev pub new_protocol : {Err : Type 0} → ℕ → Protocol Err
new_protocol version = record { version = version; closed = false; net_err = none }

-- What a server says of itself.
pub data Answer : Type 0 where
  leads no_leader_known : Answer
  reports : List ℕ → Answer

module _ {Net Err : Type 0} (conn : Connection Net Err) where
  -- Handshake behind its write: the deferred call, and the result.
  unfoldable pub after_hello :
      Option ℕ → ℕ → Option (Failure Err) × Net → Try Err (Protocol Err) × Net
  unfolding with_deadline
  after_hello deadline version (some e, net) =
      (raise (cause e), with_deadline conn deadline none net)
  after_hello deadline version (none, net) =
      (return (new_protocol version), with_deadline conn deadline none net)

  -- Handshake, which writes the version as a word of 64 bits.
  unfoldable pub handshake : Option ℕ → ℕ → Net → Try Err (Protocol Err) × Net
  unfolding after_hello write_all
  handshake deadline version net =
      after_hello deadline version
        (write_all conn (le_bytes 8 version) (with_deadline conn deadline deadline net))

  -- The error of the first call of connectAttemptOne: where the server seems to have closed the
  -- connection, it does not know the protocol.
  unfoldable pub as_bad_protocol : Fault Err → Fault Err
  as_bad_protocol (cause (connection e)) =
      if (conn.is_op_error e && not (conn.is_timeout e)) || conn.equals_eof e
      then bad_protocol
      else cause (connection e)
  as_bad_protocol e = e

  -- An error closes the protocol, whose own error is dropped.
  unfoldable pub after_step :
      {A B : Type 0} → (Fault Err → Fault Err) → (A → Io Net Err B) → Try Err A → Io Net Err B
  unfolding do_close
  after_step convert f (return a) = f a
  after_step convert f (raise e) = do_close conn >>= λ _. throw (convert e)

  unfoldable pub or_close :
      {A B : Type 0} → (Fault Err → Fault Err) → Io Net Err A → (A → Io Net Err B) → Io Net Err B
  unfolding after_step
  or_close convert m f = attempt m >>= after_step convert f

  -- The registration of the client with the leader, on the messages after a reset.
  unfoldable pub register : Option ℕ → ℕ → Io Net Err Answer
  unfolding or_close
  register deadline id = do
    encode_into reset
    read_from reset
    encode_into (Request.encode_client id)
    or_close (λ e. e) (do_call conn deadline)
        (λ _. or_close (λ e. e) (decode_from decode_welcome) (λ _. done leads))

  -- The switch on the address of the leader.
  unfoldable pub route : Option ℕ → ℕ → List ℕ → List ℕ → Io Net Err Answer
  unfolding register do_close
  route deadline id address [] = do _ ← do_close conn; done no_leader_known
  route deadline id address (b ∷ bs) =
      if bytes_eq (b ∷ bs) address
      then register deadline id
      else (do_close conn >>= λ _. done (reports (b ∷ bs)))

  -- What connectAttemptOne does behind the handshake.
  unfoldable pub ask : Option ℕ → ℕ → List ℕ → ℕ → Io Net Err Answer
  unfolding with_messages or_close route
  ask deadline id address version = with_messages 16 512 (do
    encode_into Request.encode_leader
    or_close as_bad_protocol (do_call conn deadline) (λ _.
        or_close (λ e. e) (decode_from (decode_node_compat version))
          (λ r. route deadline id address (r.1))))
