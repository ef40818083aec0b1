-- ===== src/Protocol/Keeping.antt =====
-- What the calls of internal/protocol/protocol.go leave as it is: anything that no write, read or
-- deadline of the connection changes, and whether the protocol is closed.
use go_dqlite.Prelude.{
  ℕ, zero, suc, ◌+◌, ◌-◌, ◌*◌, ◌≡◌, refl, ◌∙◌, inl, inr, Bool-cases, Option, none, some,
}
use go_dqlite.Prelude.{List, length, ltb, leb, take}
use go_dqlite.Message.State.{Outcome, Message, reset}
pub use go_dqlite.Protocol.Holds.{
  Holds, Holds-map, Ending, returned, panicked, never, Holds-cases, Outcome-cases, Holds-Ran,
  Ran-Holds,
}
use go_dqlite.Protocol.Connection.{
  Connection, Failure, Protocol, Filled, got, failed, negative, write_all, after_write, send_body,
  after_header, send, after_read, recv_fill, after_fill, peek, recv_peek, recv_header, parse_header,
  recv_into, recv_body, grow_body, recv_fresh, recv, with_deadline, keep_error, exchange,
  after_exchange, call_unless, call, max_empty_reads, connection, short_write, no_progress,
}

-- `count` of the network is left as it is by the operations of the connection, and taken down by one
-- by its close.
pub record IsCounted {Net Err : Type 0} (conn : Connection Net Err) (count : Net → ℕ) : Type 0 where
  pub writes : (bs : List ℕ) (net : Net) → count (conn.write bs net).1 ≡ count net
  pub reads : (n : ℕ) (net : Net) → count (conn.read n net).1 ≡ count net
  pub deadlines : (d : Option ℕ) (net : Net) → count (conn.set_deadline d net) ≡ count net
  pub closes : (net : Net) → count (conn.close net).1 ≡ count net - 1

module _ {Net Err : Type 0} (conn : Connection Net Err) (count : Net → ℕ)
    (k : IsCounted conn count) where
  pub count-with_deadline :
      (deadline d : Option ℕ) (net : Net) → count (with_deadline conn deadline d net) ≡ count net
  unfolding with_deadline
  count-with_deadline none d net = refl
  count-with_deadline (some _) d net = k.deadlines d net

  pub count-write_all : (bs : List ℕ) (net : Net) → count (write_all conn bs net).1 ≡ count net
  unfolding write_all after_write
  count-write_all bs net = go (conn.write bs net) ∙ k.writes bs net
    where
      go : (r : (ℕ × Option Err) × Net) → count (after_write conn (length bs) r).1 ≡ count (r.1)
      go ((n, none), net') = refl
      go ((n, some e), net') = refl

  count-after_read :
      (rest : Net → Filled Err × List ℕ × Net) (offset : ℕ) (buf : List ℕ)
      (r : (Option (List ℕ) × Option Err) × Net)
      → ((net : Net) → count (rest net).2 ≡ count net)
      → count (after_read conn rest offset buf r).2 ≡ count (r.1)
  unfolding after_read
  count-after_read rest offset buf ((none, e), net) f = refl
  count-after_read rest offset buf ((some bs, some e), net) f = refl
  count-after_read rest offset buf ((some bs, none), net) f =
      elim (Bool-cases (ltb 0 (length bs))) [ inl e ↦ rw e refl | inr e ↦ rw e (f net) ]

  count-recv_fill :
      (tries offset : ℕ) (buf : List ℕ) (net : Net)
      → count (recv_fill conn tries offset buf net).2 ≡ count net
  unfolding recv_fill
  count-recv_fill zero offset buf net = refl
  count-recv_fill (suc tries) offset buf net =
      count-after_read (recv_fill conn tries offset buf) offset buf
        (conn.read (length buf - offset) net) (count-recv_fill tries offset buf)
      ∙ k.reads (length buf - offset) net

  abbrev Same2 : {A : Type 0} → Net → A × Net → Type 0
  Same2 net r = count (r.1) ≡ count net

  abbrev Same3 : {A B : Type 0} → Net → A × B × Net → Type 0
  Same3 net r = count (r.2) ≡ count net

  after_fill-Holds :
      (rest : ℕ → List ℕ → Net → Outcome (Option (Failure Err) × List ℕ × Net)) (net : Net)
      (r : Filled Err × List ℕ × Net)
      → ((n : ℕ) (buf : List ℕ) (net' : Net) → Holds (Same3 net') (rest n buf net'))
      → count (r.2) ≡ count net
      → Holds (Same3 net) (after_fill conn rest r)
  unfolding after_fill
  after_fill-Holds rest net (got n, buf, net1) f c =
      Holds-map (rest n buf net1) (λ x d. d ∙ c) (f n buf net1)
  after_fill-Holds rest net (failed e, buf, net1) f c = c
  after_fill-Holds rest net (negative, buf, net1) f c = tt

  peek-Holds :
      (fuel offset : ℕ) (buf : List ℕ) (net : Net)
      → Holds (Same3 net) (peek conn fuel offset buf net)
  unfolding peek
  peek-Holds zero offset buf net = elim (Bool-cases (ltb offset (length buf))) [
    | inl e ↦ rw e tt
    | inr e ↦ rw e refl
  ]
  peek-Holds (suc fuel) offset buf net = elim (Bool-cases (ltb offset (length buf))) [
    | inl e ↦ rw e (
        after_fill-Holds (λ n. peek conn fuel (offset + n)) net
          (recv_fill conn max_empty_reads offset buf net) (λ n. peek-Holds fuel (offset + n))
          (count-recv_fill max_empty_reads offset buf net))
    | inr e ↦ rw e refl
  ]

  recv_header-Holds : (m : Message) (net : Net) → Holds (Same3 net) (recv_header conn m net)
  unfolding recv_header recv_peek
  recv_header-Holds m net =
      elim (Holds-cases (recv_peek conn m.header net)
        (peek-Holds (length m.header) 0 m.header net)) [
          | returned (some e, header, net') g c ↦ rw (g, recv_header) c
          | returned (none, header, net') g c ↦
              elim (Outcome-cases (parse_header (record m { header = header }))) [
                | returned m' f _ ↦ rw (g, recv_header, f) c
                | panicked p f ↦ rw (g, recv_header, f) tt
                | never f ↦ rw (g, recv_header, f) tt
              ]
          | panicked p g ↦ rw (g, recv_header) tt
          | never g ↦ rw (g, recv_header) tt
        ]

  recv_into-Holds :
      (n : ℕ) (bytes : List ℕ) (m : Message) (net : Net)
      → Holds (Same3 net) (recv_into conn n bytes m net)
  unfolding recv_into recv_peek
  recv_into-Holds n bytes m net =
      elim (Holds-cases (recv_peek conn (take n bytes) net)
        (peek-Holds (length (take n bytes)) 0 (take n bytes) net)) [
          | returned (e, buf, net') g c ↦ rw (g, recv_into) c
          | panicked p g ↦ rw (g, recv_into) tt
          | never g ↦ rw (g, recv_into) tt
        ]

  recv_body-Holds : (m : Message) (net : Net) → Holds (Same3 net) (recv_body conn m net)
  unfolding recv_body
  recv_body-Holds m net =
      elim (Outcome-cases (grow_body (m.words * 8) (m.words * 8) m.body.bytes)) [
        | returned bytes g _ ↦ rw (g, recv_body) (recv_into-Holds (m.words * 8) bytes m net)
        | panicked p g ↦ rw (g, recv_body) tt
        | never g ↦ rw (g, recv_body) tt
      ]

  recv_fresh-Holds : (m : Message) (net : Net) → Holds (Same3 net) (recv_fresh conn m net)
  unfolding recv_fresh
  recv_fresh-Holds m net = elim (Holds-cases (recv_header conn m net) (recv_header-Holds m net)) [
    | returned (some e, m', net') g c ↦ rw (g, recv_fresh) c
    | returned (none, m', net') g c ↦
        rw (g, recv_fresh)
          (Holds-map (recv_body conn m' net') (λ r d. d ∙ c) (recv_body-Holds m' net'))
    | panicked p g ↦ rw (g, recv_fresh) tt
    | never g ↦ rw (g, recv_fresh) tt
  ]

  pub recv-Holds : (m : Message) (net : Net) → Holds (Same3 net) (recv conn m net)
  unfolding recv
  recv-Holds m net = elim (Outcome-cases (reset m)) [
    | returned (_, m') g _ ↦ rw (g, recv) (recv_fresh-Holds m' net)
    | panicked p g ↦ rw (g, recv) tt
    | never g ↦ rw (g, recv) tt
  ]

  after_header-Holds :
      (m : Message) (net : Net) (r : Option (Failure Err) × Net)
      → count (r.1) ≡ count net
      → Holds (Same2 net) (after_header conn m r)
  unfolding after_header send_body
  after_header-Holds m net (some e, net') c = c
  after_header-Holds m net (none, net') c =
      elim (Bool-cases (leb m.body.offset (length m.body.bytes))) [
        | inl e ↦ rw e (count-write_all (take m.body.offset m.body.bytes) net' ∙ c)
        | inr e ↦ rw e tt
      ]

  send-Holds : (m : Message) (net : Net) → Holds (Same2 net) (send conn m net)
  unfolding send
  send-Holds m net =
      after_header-Holds m net (write_all conn m.header net) (count-write_all m.header net)

  exchange-Holds :
      (request response : Message) (net : Net)
      → Holds (Same3 net) (exchange conn request response net)
  unfolding exchange
  exchange-Holds request response net =
      elim (Holds-cases (send conn request net) (send-Holds request net)) [
        | returned (some e, net') g c ↦ rw (g, exchange) c
        | returned (none, net') g c ↦
            rw (g, exchange)
              (Holds-map (recv conn response net') (λ r d. d ∙ c) (recv-Holds response net'))
        | panicked p g ↦ rw (g, exchange) tt
        | never g ↦ rw (g, exchange) tt
      ]

  keep_error-closed :
      (p : Protocol Err) (e : Option (Failure Err)) → (keep_error conn p e).closed ≡ p.closed
  unfolding keep_error
  keep_error-closed p (some (connection e)) = elim (Bool-cases (conn.is_op_error e)) [
    | inl h ↦ rw h refl
    | inr h ↦ rw h refl
  ]
  keep_error-closed p (some short_write) = refl
  keep_error-closed p (some no_progress) = refl
  keep_error-closed p none = refl

  -- The count and the mark of the protocol behind a call.
  abbrev pub Unchanged :
      Protocol Err → Net → Option (Failure Err) × Message × Protocol Err × Net → Type 0
  Unchanged p net r = (count (r.3) ≡ count net) × ((r.2).closed ≡ p.closed)

  call_unless-Holds :
      (x : Option (Failure Err)) (deadline : Option ℕ) (request response : Message)
      (p : Protocol Err) (net : Net)
      → Holds (Unchanged p net) (call_unless conn x deadline request response p net)
  unfolding call_unless after_exchange
  call_unless-Holds (some e) deadline request response p net = (refl, refl)
  call_unless-Holds none deadline request response p net =
      let start = with_deadline conn deadline deadline net in
      elim (Holds-cases (exchange conn request response start)
        (exchange-Holds request response start)) [
          | returned (e, m, net') g c ↦
              rw (g, call_unless, after_exchange)
                (
                  count-with_deadline deadline none net'
                      ∙ c
                      ∙ count-with_deadline deadline deadline net,
                  keep_error-closed p e,
                )
          | panicked q g ↦ rw (g, call_unless, after_exchange) tt
          | never g ↦ rw (g, call_unless, after_exchange) tt
        ]

  pub call-Holds :
      (deadline : Option ℕ) (request response : Message) (p : Protocol Err) (net : Net)
      → Holds (Unchanged p net) (call conn deadline request response p net)
  unfolding call
  call-Holds deadline request response p net =
      call_unless-Holds p.net_err deadline request response p net
