-- ===== src/Client/Answered.antt =====
-- Requests on new messages against a server that answers them: the steps of every request of client/client.go.
use go_dqlite.Prelude.{ℕ, zero, ◌*◌, ◌%◌, ◌^◌, ◌<◌, ◌≡◌, refl, ◌∙◌, arith, Option, none}
use go_dqlite.Prelude.{List, [], ◌∷◌, ◌++◌, length, replicate, length-replicate, ==_of_eq}
use go_dqlite.Message.State.{ok, Message, init, reset}
use go_dqlite.Message.Header.{wire_header, size}
use go_dqlite.Message.Writes.{IsReady, content}
use go_dqlite.Protocol.Schema.{Call, fields, encode}
use go_dqlite.Protocol.Encoding.{IsValid, IsEncoded, encode_lem}
use go_dqlite.Protocol.Connection.{Connection}
use go_dqlite.Protocol.Delivery.{IsReceived}
use go_dqlite.Protocol.Exchange.{IsServer, call_lem}
use go_dqlite.Protocol.Session.{
  Session, Io, blank, with_messages, return, encode_into, read_from, do_call, do_call-return, ◌>>◌,
  bind_return, encode_into-return, read_from-return,
}

abbrev pub no_times : Unit {0} → List ℕ
no_times t = []

abbrev new : ℕ → Message
new q = record {
  words = 0;
  mtype = 0;
  schema = 0;
  extra = 0;
  header = 0 ∷ 0 ∷ 0 ∷ 0 ∷ 0 ∷ 0 ∷ 0 ∷ 0 ∷ [];
  body = record { bytes = replicate q 0; offset = 0 };
}

init-new : (q : ℕ) → q % 8 ≡ 0 → init q blank ≡ ok (tt, new q)
unfolding init reset
init-new q e = rw (==_of_eq (q % 8) 0 e) refl

module _ {Net Err : Type 0} (conn : Connection Net Err) (pending : Net → List ℕ)
    (answer : List ℕ → List ℕ → List ℕ) (sv : IsServer conn pending answer) where
  -- Where a request of new messages has been sent and answered.
  pub record IsAnswered (words mtype : ℕ) (body : List ℕ) (s t : Session Net Err) : Type 0 where
    pub kept : t.protocol ≡ s.protocol
    pub drained : pending t.net ≡ []
    pub received : IsReceived words mtype 0 body t.response
    pub request : IsReady t.request

  -- A request on new messages runs what follows it on the messages before its call, which succeeds.
  pub sent_lem :
      {B : Type 0} (deadline : Option ℕ) (q r : ℕ) (c : Call (Unit {0})) (k : Io Net Err B)
      (s : Session Net Err) (words mtype : ℕ) (body : List ℕ)
      → IsValid c
      → 0 < q
      → q % 8 ≡ 0
      → 0 < r
      → r % 8 ≡ 0
      → size no_times 0 (fields c) < 2 ^ 32
      → s.protocol.net_err ≡ none
      → pending s.net ≡ []
      → words < 2 ^ 32
      → length body ≡ words * 8
      → ((t : Message)
          → IsEncoded no_times c t
          → answer t.header (content t) ≡ wire_header words mtype 0 ++ body)
      → (u : Session Net Err) × (t : Session Net Err) × (with_messages q r
            (encode_into (encode no_times c) >> k)
            s
          ≡ k u)
        × (do_call conn deadline u ≡ ok (return tt, t))
        × IsAnswered words mtype body s t
  unfolding with_messages
  sent_lem deadline q r c k s words mtype body v q0 q8 r0 r8 small n p w l served =
      let lq = length-replicate q zero in
      let lr = length-replicate r zero in
      let (t, e, d) =
        encode_lem no_times c (new q) v (omega (arith, lq)) (omega (arith, lq)) small in
      let s1 = record s { request = new q } in
      let s2 = record s1 { response = new r } in
      let s3 = record s2 { request = t } in
      let (m, net, f, rest, is) =
        call_lem conn pending answer sv deadline t (new r) s.protocol s.net words mtype 0 body n p
          d.ready.within (omega (arith, lr)) w l (served t d) in
      (
        s3,
        record s3 { response = m; net = net },
        bind_return (encode_into (λ _. init q blank)) _ {s = s}
              (encode_into-return s (λ _. init q blank) (init-new q q8))
            ∙ bind_return (read_from (λ _. init r blank)) _ {s = s1}
                (read_from-return s1 (λ _. init r blank) (init-new r r8))
            ∙ bind_return (encode_into (encode no_times c)) _ {s = s2}
                (encode_into-return s2 (encode no_times c) e),
        do_call-return conn deadline s3 f,
        record { kept = refl; drained = rest; received = is; request = d.ready },
      )

  -- A request on new messages, with what follows its call, runs what follows on the answer.
  pub with_messages_lem :
      {B : Type 0} (deadline : Option ℕ) (q r : ℕ) (c : Call (Unit {0})) (k : Io Net Err B)
      (s : Session Net Err) (words mtype : ℕ) (body : List ℕ)
      → IsValid c
      → 0 < q
      → q % 8 ≡ 0
      → 0 < r
      → r % 8 ≡ 0
      → size no_times 0 (fields c) < 2 ^ 32
      → s.protocol.net_err ≡ none
      → pending s.net ≡ []
      → words < 2 ^ 32
      → length body ≡ words * 8
      → ((t : Message)
          → IsEncoded no_times c t
          → answer t.header (content t) ≡ wire_header words mtype 0 ++ body)
      → (t : Session Net Err) × (with_messages q r
            (encode_into (encode no_times c) >> (do_call conn deadline >> k))
            s
          ≡ k t)
        × IsAnswered words mtype body s t
  with_messages_lem deadline q r c k s words mtype body v q0 q8 r0 r8 small n p w l served =
      let (u, t, e, f, a) =
        sent_lem deadline q r c (do_call conn deadline >> k) s words mtype body v q0 q8 r0 r8 small
          n p w l served in
      (t, e ∙ bind_return (do_call conn deadline) (λ _. k) f, a)
