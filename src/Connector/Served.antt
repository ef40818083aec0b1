-- ===== src/Connector/Served.antt =====
-- connectAttemptOne of internal/protocol/connector.go against a server that answers.
use go_dqlite.Prelude.{
  ℕ, suc, ◌*◌, ◌^◌, ◌<◌, ◌≡◌, ◌≢◌, refl, ap, sym, ◌∙◌, arith, inl, inr, Bool-cases, Option, none,
  some, List, [], ◌∷◌, ◌++◌, length, length-append,
}
use go_dqlite.Prelude.Int.{ℤ}
use go_dqlite.App.Roles.{bytes_eq}
use go_dqlite.App.Roles.Members.{bytes_eq_sound, bytes_eq_refl}
use go_dqlite.Outcome.{ok}
use go_dqlite.Message.State.{Message, advance}
use go_dqlite.Message.Bytes.{le_bytes, length-le_bytes}
use go_dqlite.Message.Header.{wire_header}
use go_dqlite.Message.Text.{string_bytes}
use go_dqlite.Message.Writes.{IsReady, content}
use go_dqlite.Message.ReadText.{HasNoNul}
use go_dqlite.Protocol.Schema
use go_dqlite.Protocol.Schema.{encode}
use go_dqlite.Protocol.Encoding.{IsEncoded}
use go_dqlite.Protocol.Constants.{version_one}
use go_dqlite.Protocol.Response.{decode_node, decode_node_compat}
use go_dqlite.Protocol.Decoding.{decode_node_lem}
use go_dqlite.Protocol.Connection.{Protocol, Connection, with_deadline}
use go_dqlite.Protocol.Exchange.{
  IsServer, IsReceived-Received, write_all_lem, with_deadline-pending,
}
use go_dqlite.Protocol.Session.{
  Io, Session, Try, return, raise, done, blank, decode_from, do_call, do_close, bind_return,
  decode_from-return,
}
use go_dqlite.Client.Answered.{sent_lem}
use go_dqlite.Connector.Config.{Connector}
use go_dqlite.Connector.Handshake.{
  leads, no_leader_known, reports, Answer, or_close, route, ask, handshake, after_hello,
  new_protocol, as_bad_protocol,
}
use go_dqlite.Connector.Attempt.{
  dialed, DialFunc, Probe, to_probe, after_handshake, after_dial, connect_attempt_one,
}
use go_dqlite.Connector.Table
use go_dqlite.Connector.Table.{
  IsNetwork, IsRow, failure, not_leader, other_leader, connect_attempt_one-IsRow,
}
use go_dqlite.Connector.Steps.{shut, do_close-return, or_close-return}
use go_dqlite.Connector.Registration.{
  no_times, Admission, admission_bytes, IsSendable, admitted, outcome, register_lem,
}

-- The results on a server at `address` that reports `leader`, by the conditions of the table.
pub data IsServed {Handle Err : Type 0} (h : Handle) (address leader : List ℕ) (a : Admission)
    (p : Probe Handle Err) : Type 0 where
  nobody :
      leader ≡ []
      → p ≡ record { link = none; leader = []; err = none }
      → IsServed h address leader a p
  another :
      leader ≢ []
      → leader ≢ address
      → p ≡ record { link = none; leader = leader; err = none }
      → IsServed h address leader a p
  itself : leader ≢ [] → leader ≡ address → p ≡ admitted h a → IsServed h address leader a p

-- The count of a row is one more where a protocol is returned.
IsRow-count :
    {Handle Err : Type 0} (n m : ℕ) (p : Probe Handle Err)
    → IsRow n p m
    → m ≡ (elim p.link [ none ↦ n | some _ ↦ suc n ])
IsRow-count n m p (failure e) = refl
IsRow-count n m p not_leader = refl
IsRow-count n m p (other_leader a h) = refl
IsRow-count n m p (Table.leader h q e) = refl

module _ {Net Err : Type 0} (conn : Connection Net Err) where
  module _ (pending : Net → List ℕ) (answer : List ℕ → List ℕ → List ℕ)
      (sv : IsServer conn pending answer) where
    -- The switch on the leader that a server reports.
    route_lem :
        {Handle : Type 0} (h : Handle) (deadline : Option ℕ) (id : ℕ) (address leader : List ℕ)
        (a : Admission) (s : Session Net Err)
        → IsSendable a
        → IsReady s.request
        → 0 < length s.response.body.bytes
        → s.protocol ≡ new_protocol version_one
        → pending s.net ≡ []
        → ((t : Message)
            → IsEncoded no_times (Schema.client id) t
            → answer t.header (content t) ≡ admission_bytes a)
        → (r : Try Err Answer) × (t : Session Net Err) × (route conn deadline id address leader s
            ≡ ok (r, t))
          × IsServed h address leader a (outcome h r t.protocol)
    unfolding route
    route_lem h deadline id address [] a s sendable ready positive k p served = (
      return no_leader_known,
      shut conn s,
      bind_return (do_close conn) (λ _. done no_leader_known) {s = s}
          (do_close-return conn s (ap (λ p. p.closed) k)),
      nobody refl refl,
    )
    route_lem h deadline id address (b ∷ bs) a s sendable ready positive k p served =
        elim (Bool-cases (bytes_eq (b ∷ bs) address)) [
          | inl same ↦
              let (r, t, e, g) =
                register_lem conn pending answer sv h deadline id a s sendable ready positive k p
                  served in
              (r, t, rw same e, itself (λ e. cc) (bytes_eq_sound (b ∷ bs) address same) g)
          | inr differ ↦ (
            return (reports (b ∷ bs)),
            shut conn s,
            rw differ (
                bind_return (do_close conn) (λ _. done (reports (b ∷ bs))) {s = s}
                  (do_close-return conn s (ap (λ p. p.closed) k))),
            another (λ e. cc)
                (λ e. cc (differ, ap (λ x. bytes_eq x address) e, bytes_eq_refl address)) refl,
          )
        ]

    -- What connectAttemptOne asks, behind its handshake.
    ask_lem :
        {Handle : Type 0} (h : Handle) (deadline : Option ℕ) (id : ℕ) (address leader : List ℕ)
        (node words : ℕ) (a : Admission) (s : Session Net Err)
        → node < 2 ^ 64
        → HasNoNul leader
        → words < 2 ^ 29
        → length (le_bytes 8 node ++ string_bytes leader) ≡ words * 8
        → IsSendable a
        → s.protocol ≡ new_protocol version_one
        → pending s.net ≡ []
        → ((t : Message)
            → IsEncoded no_times Schema.leader t
            → answer t.header (content t)
              ≡ wire_header words 1 0 ++ (le_bytes 8 node ++ string_bytes leader))
        → ((t : Message)
            → IsEncoded no_times (Schema.client id) t
            → answer t.header (content t) ≡ admission_bytes a)
        → (r : Try Err Answer) × (t : Session Net Err) × (ask conn deadline id address version_one s
            ≡ ok (r, t))
          × IsServed h address leader a (outcome h r t.protocol)
    unfolding ask encode advance decode_node_compat decode_node
    ask_lem h deadline id address leader node words a s small nul w l sendable k p told served =
        let body = le_bytes 8 node ++ string_bytes leader in
        let next : ℕ × List ℕ → Io Net Err Answer = λ r. route conn deadline id address (r.1) in
        let decoded : Io Net Err Answer =
          or_close conn (λ e. e) (decode_from (decode_node_compat version_one)) next in
        let (u, t, e, f, d) =
          sent_lem conn pending answer sv deadline 16 512 Schema.leader
            (or_close conn (as_bad_protocol conn) (do_call conn deadline) (λ _. decoded)) s words 1
            body tt (omega arith) refl (omega arith) refl (omega arith) (ap (λ p. p.net_err) k) p
            (omega arith) l told in
        let g =
          decode_node_lem node leader t.response small nul
            (IsReceived-Received words 1 0 body t.response (omega arith) l d.received) in
        let t' = record t { response = advance (length body) t.response } in
        let long : 0 < length t.response.body.bytes = omega (
          arith,
          ap (λ b. length b) d.received.bytes,
          length-append body d.received.rest,
          length-append (le_bytes 8 node) (string_bytes leader),
          length-le_bytes 8 node,
        ) in
        let (r, t2, e2, q) =
          route_lem h deadline id address leader a t' sendable d.request long (d.kept ∙ k) d.drained
            served in
        (
          r,
          t2,
          e
              ∙ or_close-return conn (as_bad_protocol conn) (do_call conn deadline) (λ _. decoded) u
                  t tt f
              ∙ or_close-return conn (λ e. e) (decode_from (decode_node_compat version_one)) next t
                  t' (node, leader) (decode_from-return t decode_node g)
              ∙ e2,
          q,
        )

module _ {World Handle Err : Type 0} (conn : Handle → Connection World Err)
    (with_timeout : Option ℕ → ℤ → World → Option ℕ) (c : Connector (DialFunc World Handle Err))
    (count : World → ℕ) (network : IsNetwork conn c.dial count) (pending : World → List ℕ)
    (answer : List ℕ → List ℕ → List ℕ) where
  greet_lem :
      (h : Handle) (deadline : Option ℕ) (w w' : World)
      → IsServer (conn h) pending answer
      → (conn h).write (le_bytes 8 version_one) (with_deadline (conn h) deadline deadline w)
        ≡ ((8, none), w')
      → handshake (conn h) deadline version_one w
        ≡ (return (new_protocol version_one), with_deadline (conn h) deadline none w')
  unfolding handshake after_hello
  greet_lem h deadline w w' sv e =
      rw
        (
          write_all_lem (conn h) pending answer sv (le_bytes 8 version_one)
              (with_deadline (conn h) deadline deadline w) w'
              (e ∙ ap (λ n. ((n, none), w')) (sym (length-le_bytes 8 version_one))),
          after_hello,
        )
        refl

  probed :
      (h : Handle) (r : Try Err Answer) (p : Protocol Err)
      → to_probe conn with_timeout c h r p ≡ outcome h r p
  probed h (return leads) p = refl
  probed h (return no_leader_known) p = refl
  probed h (return (reports a)) p = refl
  probed h (raise e) p = refl

  -- In a network that counts the dials that have succeeded less the closes: connectAttemptOne with the
  -- protocol of version one, where the dial succeeds, the version is written, and the server then
  -- answers the request for the leader with a node whose address has no nul, and the registration of the
  -- client with a welcome or with a failure, returns the row of the table that this asks for: nothing
  -- if the address is empty, the address if it is not that of the server, and if it is, the protocol of
  -- version one, or the error with the failure's code and description. The connection stays open where
  -- the protocol is returned, and is closed elsewhere.
  pub connect_attempt_one_lem :
      (deadline : Option ℕ) (address leader : List ℕ) (node words : ℕ) (a : Admission) (h : Handle)
      (w w1 w2 : World)
      → IsServer (conn h) pending answer
      → node < 2 ^ 64
      → HasNoNul leader
      → words < 2 ^ 29
      → length (le_bytes 8 node ++ string_bytes leader) ≡ words * 8
      → IsSendable a
      → c.dial (with_timeout deadline c.dial_timeout w) address w ≡ (dialed h, w1)
      → (conn h).write (le_bytes 8 version_one) (with_deadline (conn h) deadline deadline w1)
        ≡ ((8, none), w2)
      → pending w2 ≡ []
      → ((t : Message)
          → IsEncoded no_times Schema.leader t
          → answer t.header (content t)
            ≡ wire_header words 1 0 ++ (le_bytes 8 node ++ string_bytes leader))
      → ((t : Message)
          → IsEncoded no_times (Schema.client c.id) t
          → answer t.header (content t) ≡ admission_bytes a)
      → (p : Probe Handle Err) × (w' : World) × (connect_attempt_one conn with_timeout c deadline
            address version_one w
          ≡ ok (p, w'))
        × IsServed h address leader a p
        × (count w' ≡ (elim p.link [ none ↦ count w | some _ ↦ suc (count w) ]))
  unfolding connect_attempt_one after_dial after_handshake
  connect_attempt_one_lem deadline address leader node words a h w w1 w2 sv small nul wd l sendable
        dials greets idle told served =
      let w3 = with_deadline (conn h) deadline none w2 in
      let s : Session World Err = record {
        protocol = new_protocol version_one;
        request = blank;
        response = blank;
        net = w3;
      } in
      let (r, t, e, q) =
        ask_lem (conn h) pending answer sv h deadline c.id address leader node words a s small nul
          wd l sendable refl
          (with_deadline-pending (conn h) pending answer sv deadline none w2 ∙ idle) told served in
      let p = outcome h r t.protocol in
      let g : connect_attempt_one conn with_timeout c deadline address version_one w
          ≡ ok (p, t.net) =
        rw (dials, after_dial, greet_lem h deadline w1 w2 sv greets, after_handshake, e)
          (ap (λ x. ok (x, t.net)) (probed h r t.protocol)) in
      let row =
        connect_attempt_one-IsRow conn with_timeout c count network deadline address version_one
          w in
      (p, t.net, g, q, IsRow-count (count w) (count t.net) p (rw g at row))
