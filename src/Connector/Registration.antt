-- ===== src/Connector/Registration.antt =====
-- The registration of a client with a leader in connectAttemptOne, internal/protocol/connector.go.
use go_dqlite.Prelude.{
  ℕ, ◌*◌, ◌^◌, ◌<◌, ◌≡◌, refl, ap, ◌∙◌, arith, Option, none, some, List, [], ◌∷◌, ◌++◌, length,
}
use go_dqlite.Outcome.{ok}
use go_dqlite.Message.State.{Message, advance, reset}
use go_dqlite.Message.Bytes.{le_bytes, length-le_bytes}
use go_dqlite.Message.Header.{wire_header}
use go_dqlite.Message.Writes.{IsReady, content}
use go_dqlite.Message.Get.{get_uint64}
use go_dqlite.Message.ReadText.{HasNoNul}
use go_dqlite.Protocol.Schema
use go_dqlite.Protocol.Schema.{encode}
use go_dqlite.Protocol.Encoding.{IsEncoded, encode_lem}
use go_dqlite.Protocol.Constants.{version_one, response_welcome}
use go_dqlite.Protocol.Response.{request, decode, decode_welcome}
use go_dqlite.Protocol.Decoding.{decode_welcome_lem, decode_of_failure}
use go_dqlite.Protocol.Connection.{Protocol, Connection}
use go_dqlite.Protocol.Exchange.{IsServer, call_lem, IsReceived-Received}
use go_dqlite.Protocol.Session.{
  Io, Session, Try, return, raise, decoding, ◌>>◌, done, encode_into, read_from, decode_from,
  do_call, do_call-return, bind_return, encode_into-return, read_from-return, decode_from-return,
}
use go_dqlite.Client.Served.{failure_bytes}
use go_dqlite.Client.Answered.{IsAnswered}
use go_dqlite.Connector.Handshake.{
  leads, no_leader_known, reports, Answer, or_close, register, new_protocol,
}
use go_dqlite.Connector.Attempt.{Probe, failing}
use go_dqlite.Connector.Steps.{shut, or_close-return, or_close-raise}

abbrev pub no_times : Unit {0} → List ℕ
no_times t = []

-- What a leader answers to a client that registers: its heartbeat timeout, or a failure.
pub data Admission : Type 0 where
  welcome : ℕ → Admission
  turned_away : (words code : ℕ) (description : List ℕ) → Admission

abbrev pub admission_bytes : Admission → List ℕ
admission_bytes (welcome timeout) = wire_header 1 2 0 ++ le_bytes 8 timeout
admission_bytes (turned_away words code description) =
    wire_header words 0 0 ++ failure_bytes code description

abbrev pub IsSendable : Admission → Type 0
IsSendable (welcome timeout) = timeout < 2 ^ 64
IsSendable (turned_away words code description) =
    (words < 2 ^ 29)
    × (length (failure_bytes code description) ≡ words * 8)
    × (code < 2 ^ 64)
    × HasNoNul description

-- The results of connectAttemptOne on the leader itself.
abbrev pub admitted : {Handle Err : Type 0} → Handle → Admission → Probe Handle Err
admitted h (welcome timeout) = record {
  link = some (h, new_protocol version_one);
  leader = [];
  err = none;
}
admitted h (turned_away words code description) = failing (decoding (request code description))

-- The results of connectAttemptOne by what the server says and the protocol that is left.
abbrev pub outcome :
    {Handle Err : Type 0} → Handle → Try Err Answer → Protocol Err → Probe Handle Err
outcome h (return leads) p = record { link = some (h, p); leader = []; err = none }
outcome h (return no_leader_known) p = record { link = none; leader = []; err = none }
outcome h (return (reports a)) p = record { link = none; leader = a; err = none }
outcome h (raise e) p = failing e

decode_welcome-clauses : (m : Message) → decode_welcome m ≡ decode response_welcome get_uint64 m
unfolding decode_welcome
decode_welcome-clauses m = refl

module _ {Net Err : Type 0} (conn : Connection Net Err) where
  module _ (pending : Net → List ℕ) (answer : List ℕ → List ℕ → List ℕ)
      (sv : IsServer conn pending answer) where
    -- The call by which a client registers.
    register_call :
        (deadline : Option ℕ) (id : ℕ) (s : Session Net Err) (words mtype : ℕ) (body : List ℕ)
        → IsReady s.request
        → 0 < length s.response.body.bytes
        → s.protocol.net_err ≡ none
        → pending s.net ≡ []
        → words < 2 ^ 32
        → length body ≡ words * 8
        → ((t : Message)
            → IsEncoded no_times (Schema.client id) t
            → answer t.header (content t) ≡ wire_header words mtype 0 ++ body)
        → (t : Session Net Err) × (register conn deadline id s
            ≡ or_close conn (λ e. e) (decode_from decode_welcome) (λ _. done leads) t)
          × IsAnswered conn pending answer sv words mtype body s t
    unfolding register encode reset
    register_call deadline id s words mtype body ready positive n p w l served =
        let fresh : Message → Message = λ m. record {
          words = 0;
          mtype = 0;
          schema = 0;
          extra = 0;
          header = 0 ∷ 0 ∷ 0 ∷ 0 ∷ 0 ∷ 0 ∷ 0 ∷ 0 ∷ [];
          body = record { bytes = m.body.bytes; offset = 0 };
        } in
        let s1 = record s { request = fresh s.request } in
        let s2 = record s1 { response = fresh s.response } in
        let (t, e, d) =
          encode_lem no_times (Schema.client id) (fresh s.request) tt ready.positive ready.aligned
            (omega arith) in
        let s3 = record s2 { request = t } in
        let (m, net, f, rest, is) =
          call_lem conn pending answer sv deadline t (fresh s.response) s.protocol s.net words mtype
            0 body n p d.ready.within positive w l (served t d) in
        let s4 = record s3 { response = m; net = net } in
        let last : Io Net Err Answer =
          or_close conn (λ e. e) (do_call conn deadline)
            (λ _. or_close conn (λ e. e) (decode_from decode_welcome) (λ _. done leads)) in
        let third : Io Net Err Answer = encode_into (encode no_times (Schema.client id)) >> last in
        let second : Io Net Err Answer = read_from reset >> third in
        (
          s4,
          bind_return (encode_into reset) (λ _. second) {s = s} (encode_into-return s reset refl)
              ∙ bind_return (read_from reset) (λ _. third) {s = s1} (read_from-return s1 reset refl)
              ∙ bind_return (encode_into (encode no_times (Schema.client id))) (λ _. last) {s = s2}
                  (encode_into-return s2 (encode no_times (Schema.client id)) e)
              ∙ or_close-return conn (λ e. e) (do_call conn deadline)
                  (λ _. or_close conn (λ e. e) (decode_from decode_welcome) (λ _. done leads)) s3 s4
                  tt (do_call-return conn deadline s3 f),
          record { kept = refl; drained = rest; received = is; request = d.ready },
        )

    -- The registration with a leader, by its answer.
    pub register_lem :
        {Handle : Type 0} (h : Handle) (deadline : Option ℕ) (id : ℕ) (a : Admission)
        (s : Session Net Err)
        → IsSendable a
        → IsReady s.request
        → 0 < length s.response.body.bytes
        → s.protocol ≡ new_protocol version_one
        → pending s.net ≡ []
        → ((t : Message)
            → IsEncoded no_times (Schema.client id) t
            → answer t.header (content t) ≡ admission_bytes a)
        → (r : Try Err Answer) × (t : Session Net Err) × (register conn deadline id s ≡ ok (r, t))
          × (outcome h r t.protocol ≡ admitted h a)
    register_lem h deadline id (welcome timeout) s small ready positive k p served =
        let (t, e, a) =
          register_call deadline id s 1 2 (le_bytes 8 timeout) ready positive
            (ap (λ p. p.net_err) k) p (omega arith) (length-le_bytes 8 timeout) served in
        let g = decode_welcome_lem timeout t.response small (
          IsReceived-Received 1 2 0 (le_bytes 8 timeout) t.response (omega arith)
            (length-le_bytes 8 timeout) a.received) in
        let t' = record t { response = advance (length (le_bytes 8 timeout)) t.response } in
        (
          return leads,
          t',
          e
              ∙ or_close-return conn (λ e. e) (decode_from decode_welcome) (λ _. done leads) t t'
                  timeout (decode_from-return t decode_welcome g),
          ap (λ p. record { link = some (h, p); leader = []; err = none }) (a.kept ∙ k),
        )
    register_lem h deadline id (turned_away words code description) s (w, l, u, nul) ready positive
          k p served =
        let body = failure_bytes code description in
        let (t, e, a) =
          register_call deadline id s words 0 body ready positive (ap (λ p. p.net_err) k) p
            (omega arith) l served in
        let g =
          decode_of_failure response_welcome get_uint64 code description t.response u nul
            (IsReceived-Received words 0 0 body t.response (omega arith) l a.received) in
        let t' = record t { response = advance (length body) t.response } in
        let f : decode_from decode_welcome t
            ≡ ok (raise (decoding (request code description)), t') =
          decode_from-return t decode_welcome (decode_welcome-clauses t.response ∙ g) in
        (
          raise (decoding (request code description)),
          shut conn t',
          e
              ∙ or_close-raise conn (λ e. e) (decode_from decode_welcome) (λ _. done leads) t t'
                  (decoding (request code description)) f (ap (λ p. p.closed) (a.kept ∙ k)),
          refl,
        )
