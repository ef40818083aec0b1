-- ===== src/Protocol/Session.antt =====
-- One connection with the two messages that its requests and responses go through: what client.go,
-- driver.go and connector.go build on protocol.go. A step returns, raises an error, panics or never
-- returns.
use go_dqlite.Prelude.{ℕ, ◌≡◌, refl, Option, none, some, List, []}
use go_dqlite.Prelude.Int.{ℤ}
use go_dqlite.Message.State.{Outcome, Panic, ok, panic, stuck, Message, Action, init}
use go_dqlite.Protocol.Response.{DecodeError, Reply, value, error}
use go_dqlite.Protocol.Connection.{Connection, Failure, Protocol, call, recv, interrupt, close}

-- The errors, without the texts wrapped around them. `cause` is an error of Call, Interrupt or More,
-- `decoding` one of a decoder, `bad_conn` is driver.ErrBadConn, `sqlite` is Error with its code and
-- message, and `too_many` is the error of a list of parameters that is too long.
pub data Fault (Err : Type 0) : Type 0 where
  cause : Failure Err → Fault Err
  decoding : DecodeError → Fault Err
  sqlite : ℤ → List ℕ → Fault Err
  too_many : ℕ → Fault Err
  bad_conn bad_protocol no_leader : Fault Err

pub data Try (Err A : Type 0) : Type 0 where
  return : A → Try Err A
  raise : Fault Err → Try Err A

abbrev pub unless : {Err : Type 0} → Option (Failure Err) → Try Err (Unit {0})
unless none = return tt
unless (some e) = raise (cause e)

abbrev pub accept : {Err A : Type 0} → Reply A → Try Err A
accept (value a) = return a
accept (error e) = raise (decoding e)

pub record Session (Net Err : Type 0) : Type 0 where
  pub protocol : Protocol Err
  pub request : Message
  pub response : Message
  pub net : Net

abbrev pub Io : Type 0 → Type 0 → Type 0 → Type 0
Io Net Err A = Session Net Err → Outcome (Try Err A × Session Net Err)

module _ {Net Err : Type 0} where
  infixl 5 ◌>>=◌ ◌>>◌
  abbrev pub ◌>>=◌ : {A B : Type 0} → Io Net Err A → (A → Io Net Err B) → Io Net Err B
  ◌>>=◌ m f s = elim (m s) [
    | ok (r, t) ↦ elim r [ return a ↦ f a t | raise e ↦ ok (raise e, t) ]
    | panic p ↦ panic p
    | stuck ↦ stuck
  ]

  abbrev pub ◌>>◌ : {B : Type 0} → Io Net Err (Unit {0}) → Io Net Err B → Io Net Err B
  m >> k = m >>= λ _. k

  abbrev pub done : {A : Type 0} → A → Io Net Err A
  done a s = ok (return a, s)

  abbrev pub throw : {A : Type 0} → Fault Err → Io Net Err A
  throw e s = ok (raise e, s)

  -- A step whose error is a result.
  abbrev pub attempt : {A : Type 0} → Io Net Err A → Io Net Err (Try Err A)
  attempt m s = elim (m s) [ ok (r, t) ↦ ok (return r, t) | panic p ↦ panic p | stuck ↦ stuck ]

  -- An encoder, on the request.
  abbrev pub encode_into : Action (Unit {0}) → Io Net Err (Unit {0})
  encode_into put s = elim (put s.request) [
    | ok (_, m) ↦ ok (return tt, record s { request = m })
    | panic p ↦ panic p
    | stuck ↦ stuck
  ]

  -- A reader, on the response.
  abbrev pub read_from : {A : Type 0} → Action A → Io Net Err A
  read_from get s = elim (get s.response) [
    | ok (a, m) ↦ ok (return a, record s { response = m })
    | panic p ↦ panic p
    | stuck ↦ stuck
  ]

  -- A decoder, on the response.
  abbrev pub decode_from : {A : Type 0} → Action (Reply A) → Io Net Err A
  decode_from get s = elim (get s.response) [
    | ok (r, m) ↦ ok (accept r, record s { response = m })
    | panic p ↦ panic p
    | stuck ↦ stuck
  ]

-- Message{}
abbrev pub blank : Message
blank = record {
  words = 0;
  mtype = 0;
  schema = 0;
  extra = 0;
  header = [];
  body = record { bytes = []; offset = 0 };
}

-- A step on two new messages, of `q` and `r` bytes.
unfoldable pub with_messages : {Net Err A : Type 0} → ℕ → ℕ → Io Net Err A → Io Net Err A
with_messages q r m = do encode_into (λ _. init q blank); read_from (λ _. init r blank); m

module _ {Net Err : Type 0} (conn : Connection Net Err) where
  -- Protocol.Call on the two messages.
  unfoldable pub do_call : Option ℕ → Io Net Err (Unit {0})
  do_call deadline s = elim (call conn deadline s.request s.response s.protocol s.net) [
    | ok (e, m, p, net) ↦ ok (unless e, record s { response = m; protocol = p; net = net })
    | panic p ↦ panic p
    | stuck ↦ stuck
  ]

  -- Protocol.More on the response.
  unfoldable pub do_more : Io Net Err (Unit {0})
  do_more s = elim (recv conn s.response s.net) [
    | ok (e, m, net) ↦ ok (unless e, record s { response = m; net = net })
    | panic p ↦ panic p
    | stuck ↦ stuck
  ]

  -- Protocol.Interrupt on the two messages, with `fuel` responses at most.
  unfoldable pub do_interrupt : ℕ → Option ℕ → Io Net Err (Unit {0})
  do_interrupt fuel deadline s = elim (interrupt conn fuel deadline s.request s.response s.net) [
    | ok (e, q, m, net) ↦ ok (unless e, record s { request = q; response = m; net = net })
    | panic p ↦ panic p
    | stuck ↦ stuck
  ]

  -- Protocol.Close; its error is returned, and no caller of a handshake looks at it.
  unfoldable pub do_close : Io Net Err (Option Err)
  do_close s = elim (close conn s.protocol s.net) [
    | ok (e, p, net) ↦ ok (return e, record s { protocol = p; net = net })
    | panic p ↦ panic p
    | stuck ↦ stuck
  ]

-- How a sequence of steps runs.
module _ {Net Err A B : Type 0} (m : Io Net Err A) (f : A → Io Net Err B)
    {s t : Session Net Err} where
  pub bind_return : {a : A} → m s ≡ ok (return a, t) → (m >>= f) s ≡ f a t
  bind_return e = rw (e, ◌>>=◌)

  pub bind_raise : {e : Fault Err} → m s ≡ ok (raise e, t) → (m >>= f) s ≡ ok (raise e, t)
  bind_raise e = rw (e, ◌>>=◌)

-- What the steps on a message return.
module _ {Net Err : Type 0} (s : Session Net Err) where
  pub encode_into-return :
      (put : Action (Unit {0})) {t : Message}
      → put s.request ≡ ok (tt, t)
      → encode_into put s ≡ ok (return tt, record s { request = t })
  encode_into-return put e = rw (e, encode_into) refl

  pub read_from-return :
      {A : Type 0} (get : Action A) {a : A} {t : Message}
      → get s.response ≡ ok (a, t)
      → read_from get s ≡ ok (return a, record s { response = t })
  read_from-return get e = rw (e, read_from) refl

  pub decode_from-return :
      {A : Type 0} (get : Action (Reply A)) {r : Reply A} {t : Message}
      → get s.response ≡ ok (r, t)
      → decode_from get s ≡ ok (accept r, record s { response = t })
  decode_from-return get e = rw (e, decode_from) refl

  pub attempt-return :
      {A : Type 0} (m : Io Net Err A) {r : Try Err A} {t : Session Net Err}
      → m s ≡ ok (r, t)
      → attempt m s ≡ ok (return r, t)
  attempt-return m e = rw (e, attempt) refl

  pub attempt-panic :
      {A : Type 0} (m : Io Net Err A) {p : Panic} → m s ≡ panic p → attempt m s ≡ panic p
  attempt-panic m e = rw (e, attempt) refl

  pub bind_panic :
      {A B : Type 0} (m : Io Net Err A) (f : A → Io Net Err B) {p : Panic}
      → m s ≡ panic p
      → (m >>= f) s ≡ panic p
  bind_panic m f e = rw (e, ◌>>=◌)

-- A call without an error, which leaves the protocol as it is.
pub do_call-return :
    {Net Err : Type 0} (conn : Connection Net Err) (deadline : Option ℕ) (s : Session Net Err)
    {m : Message} {net : Net}
    → call conn deadline s.request s.response s.protocol s.net ≡ ok (none, m, s.protocol, net)
    → do_call conn deadline s ≡ ok (return tt, record s { response = m; net = net })
unfolding do_call
do_call-return conn deadline s e = rw (e, do_call) refl
