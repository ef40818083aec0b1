-- ===== src/Protocol/Exchange.antt =====
-- Protocol.Call of internal/protocol/protocol.go against a server that answers each request.
use go_dqlite.Prelude.{ℕ, ◌*◌, ◌^◌, ◌≤◌, ◌<◌, ◌≡◌, refl, ap, sym, ◌∙◌, arith, Option, none, some}
use go_dqlite.Prelude.{List, [], ◌++◌, append-nil, length, le→leb, ==-refl}
use go_dqlite.Prelude.{drop, ◌%◌}
use go_dqlite.Protocol.Decoding.{Received}
use go_dqlite.Message.State.{ok, Message}
use go_dqlite.Message.Header.{wire_header}
use go_dqlite.Message.Writes.{content}
use go_dqlite.Protocol.Connection.{
  Connection, Protocol, write_all, send_body, send, after_write, after_header, recv, with_deadline,
  keep_error, exchange, after_exchange, call, call_unless,
}
use go_dqlite.Protocol.Delivery.{IsStream, IsReceived, recv_lem}

-- A connection to a server: it takes whole writes, a deadline does not touch the bytes that it has
-- still to deliver, and after the header and the body of a request, with nothing pending before, its
-- answer is pending.
pub record IsServer {Net Err : Type 0} (conn : Connection Net Err) (pending : Net → List ℕ)
    (answer : List ℕ → List ℕ → List ℕ) : Type 0 where
  pub stream : IsStream conn pending
  pub deadlines : (d : Option ℕ) (net : Net) → pending (conn.set_deadline d net) ≡ pending net
  pub answers :
      (header body : List ℕ) (net : Net)
      → pending net ≡ []
      → (net1 : Net) × (net2 : Net) × (conn.write header net ≡ ((length header, none), net1))
        × (conn.write body net1 ≡ ((length body, none), net2))
        × (pending net2 ≡ answer header body)

module _ {Net Err : Type 0} (conn : Connection Net Err) (pending : Net → List ℕ)
    (answer : List ℕ → List ℕ → List ℕ) (sv : IsServer conn pending answer) where
  pub write_all_lem :
      (bs : List ℕ) (net net' : Net)
      → conn.write bs net ≡ ((length bs, none), net')
      → write_all conn bs net ≡ (none, net')
  unfolding write_all after_write
  write_all_lem bs net net' e = rw (e, write_all, ==-refl (length bs)) refl

  send_lem :
      (m : Message) (net : Net)
      → m.body.offset ≤ length m.body.bytes
      → pending net ≡ []
      → (net' : Net) × (send conn m net ≡ ok (none, net'))
        × (pending net' ≡ answer m.header (content m))
  unfolding send send_body after_header
  send_lem m net h p =
      let (net1, net2, a, b, q) = sv.answers m.header (content m) net p in
      (
        net2,
        rw (write_all_lem m.header net net1 a, send)
            (rw (le→leb m.body.offset (length m.body.bytes) h, send_body)
              (ap (λ r. ok r) (write_all_lem (content m) net1 net2 b))),
        q,
      )

  pub with_deadline-pending :
      (deadline d : Option ℕ) (net : Net)
      → pending (with_deadline conn deadline d net) ≡ pending net
  unfolding with_deadline
  with_deadline-pending none d net = refl
  with_deadline-pending (some _) d net = sv.deadlines d net

  call_steps :
      (deadline : Option ℕ) (request response m : Message) (p : Protocol Err) (net net1 net2 : Net)
      → p.net_err ≡ none
      → send conn request (with_deadline conn deadline deadline net) ≡ ok (none, net1)
      → recv conn response net1 ≡ ok (none, m, net2)
      → call conn deadline request response p net
        ≡ ok (none, m, p, with_deadline conn deadline none net2)
  unfolding call call_unless after_exchange exchange keep_error
  call_steps deadline request response m p net net1 net2 n s r =
      ap (λ o. call_unless conn o deadline request response p net) n ∙ rw (s, exchange, r) refl

  -- On a connection without an error, where nothing is pending, to a server that answers the request
  -- with one message of fewer than 2 ^ 32 words, Call returns without an error, leaves the protocol as it
  -- is, and nothing pending, and the response is that message, with its words, type, schema and body.
  -- The request holds the bytes up to its offset, and the buffer of the response is not empty.
  pub call_lem :
      (deadline : Option ℕ) (request response : Message) (p : Protocol Err) (net : Net)
      (words mtype schema : ℕ) (body : List ℕ)
      → p.net_err ≡ none
      → pending net ≡ []
      → request.body.offset ≤ length request.body.bytes
      → 0 < length response.body.bytes
      → words < 2 ^ 32
      → length body ≡ words * 8
      → answer request.header (content request) ≡ wire_header words mtype schema ++ body
      → (m : Message) × (net' : Net) × (call conn deadline request response p net
          ≡ ok (none, m, p, net'))
        × (pending net' ≡ [])
        × IsReceived words mtype schema body m
  call_lem deadline request response p net words mtype schema body n e h k w l a =
      let start = with_deadline conn deadline deadline net in
      let (net1, sent, q) =
        send_lem request start h (with_deadline-pending deadline deadline net ∙ e) in
      let whole : pending net1 ≡ wire_header words mtype schema ++ (body ++ []) =
        q ∙ a ∙ ap (λ b. wire_header words mtype schema ++ b) (sym (append-nil body)) in
      let (m, net2, got, rest, is) =
        recv_lem conn pending sv.stream words mtype schema body [] response net1 k w l whole in
      (
        m,
        with_deadline conn deadline none net2,
        call_steps deadline request response m p net net1 net2 n sent got,
        with_deadline-pending deadline none net2 ∙ rest,
        is,
      )

-- A received message holds its body from the offset on.
pub IsReceived-Received :
    (words mtype schema : ℕ) (body : List ℕ) (m : Message)
    → words * 8 < 2 ^ 32
    → length body ≡ words * 8
    → IsReceived words mtype schema body m
    → Received mtype body m
IsReceived-Received words mtype schema body m w l r = record {
  rest = r.rest;
  mtype_is = r.mtype_is;
  bytes = ap (λ o. drop o m.body.bytes) r.offset_is ∙ r.bytes;
  fits = omega (arith, r.offset_is, r.words_is, ap (λ n. n * 8 % 2 ^ 32) r.words_is);
}
