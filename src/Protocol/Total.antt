-- ===== src/Protocol/Total.antt =====
-- Calls of internal/protocol/protocol.go return on every connection.
use go_dqlite.Prelude.{
  ℕ, zero, suc, ◌+◌, ◌-◌, ◌*◌, ◌≤◌, ◌<◌, ◌≡◌, refl, ◌∙◌, subst, arith, inl, inr, Bool-cases, Option,
  none, some,
}
use go_dqlite.Prelude.{
  List, [], ◌∷◌, ◌++◌, length, length-append, length-take, length-drop, replicate, ltb, le→leb,
  le→ltb, take, drop,
}
use go_dqlite.Message.State.{Outcome, ok, panic, negative_read, Message, reset}
use go_dqlite.Message.Copy.{length-copy_at}
use go_dqlite.Protocol.Connection.{
  Connection, Failure, Protocol, Filled, got, failed, negative, write_all, send_body, after_header,
  send, after_read, recv_fill, after_fill, peek, recv_peek, recv_header, parse_header, recv_into,
  recv_body, recv_fresh, recv, with_deadline, exchange, keep_error, after_exchange, call_unless,
  call, max_empty_reads,
}
use go_dqlite.Protocol.Delivery.{grow_body_lem}

-- A header of eight bytes is parsed, and the body stays.
parse_header-total :
    (m : Message) (header : List ℕ)
    → length header ≡ 8
    → (m' : Message) × (parse_header (record m { header = header }) ≡ ok m') × (m'.body ≡ m.body)
unfolding parse_header
parse_header-total m [] x = absurd (omega (arith, x))
parse_header-total m (a ∷ []) x = absurd (omega (arith, x))
parse_header-total m (a ∷ b ∷ []) x = absurd (omega (arith, x))
parse_header-total m (a ∷ b ∷ c ∷ []) x = absurd (omega (arith, x))
parse_header-total m (a ∷ b ∷ c ∷ d ∷ []) x = absurd (omega (arith, x))
parse_header-total m (a ∷ b ∷ c ∷ d ∷ e ∷ []) x = absurd (omega (arith, x))
parse_header-total m (a ∷ b ∷ c ∷ d ∷ e ∷ f ∷ []) x = absurd (omega (arith, x))
parse_header-total m (a ∷ b ∷ c ∷ d ∷ e ∷ f ∷ g ∷ []) x = absurd (omega (arith, x))
parse_header-total m (a ∷ b ∷ c ∷ d ∷ e ∷ f ∷ g ∷ h ∷ rest) x = (_, refl, refl)

module _ {Net Err : Type 0} (conn : Connection Net Err) where
  -- Some read of the connection returns a negative count.
  abbrev pub IsNegative : Type 0
  IsNegative =
      (size : ℕ) × (net : Net) × (e : Option Err) × (net' : Net) × (conn.read size net
        ≡ ((none, e), net'))

  -- A run that ends: it returns a result with P, or panics since a read has returned a negative count.
  pub data Ends {A : Type 0} (P : A → Type 0) (o : Outcome A) : Type 0 where
    returned : (x : A) → o ≡ ok x → P x → Ends P o
    panicked : o ≡ panic negative_read → IsNegative → Ends P o

  -- recvFill leaves a slice of the same length, and reports some bytes, an error, or a negative count.
  IsFill : ℕ → Filled Err × List ℕ × Net → Type 0
  IsFill len (got n, buf, net) = (0 < n) × (length buf ≡ len)
  IsFill len (failed e, buf, net) = length buf ≡ len
  IsFill len (negative, buf, net) = IsNegative

  after_read-IsFill :
      (rest : Net → Filled Err × List ℕ × Net) (offset : ℕ) (buf : List ℕ)
      (r : (Option (List ℕ) × Option Err) × Net) (size : ℕ) (net : Net)
      → conn.read size net ≡ r
      → ((net : Net) → IsFill (length buf) (rest net))
      → IsFill (length buf) (after_read conn rest offset buf r)
  unfolding after_read IsFill
  after_read-IsFill rest offset buf ((none, e), net') size net r f = (size, net, e, net', r)
  after_read-IsFill rest offset buf ((some bs, some e), net') size net r f =
      length-copy_at buf offset bs
  after_read-IsFill rest offset buf ((some bs, none), net') size net r f =
      elim (Bool-cases (ltb 0 (length bs))) [
        | inl e ↦ rw e (ground arith, length-copy_at buf offset bs)
        | inr e ↦ rw e (f net')
      ]

  recv_fill-IsFill :
      (tries offset : ℕ) (buf : List ℕ) (net : Net)
      → IsFill (length buf) (recv_fill conn tries offset buf net)
  unfolding recv_fill IsFill
  recv_fill-IsFill zero offset buf net = refl
  recv_fill-IsFill (suc tries) offset buf net =
      after_read-IsFill (recv_fill conn tries offset buf) offset buf
        (conn.read (length buf - offset) net) (length buf - offset) net refl
        (recv_fill-IsFill tries offset buf)

  -- A run that ends, and returns a slice of this length.
  abbrev Fills : ℕ → Outcome (Option (Failure Err) × List ℕ × Net) → Type 0
  Fills len o = Ends (λ r. length (r.1) ≡ len) o

  after_fill-Fills :
      (rest : ℕ → List ℕ → Net → Outcome (Option (Failure Err) × List ℕ × Net)) (len : ℕ)
      (r : Filled Err × List ℕ × Net)
      → IsFill len r
      → ((n : ℕ) (buf : List ℕ) (net : Net) → 0 < n → length buf ≡ len → Fills len (rest n buf net))
      → Fills len (after_fill conn rest r)
  unfolding after_fill IsFill
  after_fill-Fills rest len (got n, buf, net) (p, l) f = f n buf net p l
  after_fill-Fills rest len (failed e, buf, net) l f = returned (some e, buf, net) refl l
  after_fill-Fills rest len (negative, buf, net) neg f = panicked refl neg

  peek-Fills :
      (fuel offset : ℕ) (buf : List ℕ) (net : Net)
      → length buf ≤ offset + fuel
      → Fills (length buf) (peek conn fuel offset buf net)
  unfolding peek
  peek-Fills zero offset buf net h =
      returned (none, buf, net) (rw (le→ltb offset (length buf) (omega arith)) refl) refl
  peek-Fills (suc fuel) offset buf net h = elim (Bool-cases (ltb offset (length buf))) [
    | inl e ↦ rw e (
        after_fill-Fills (λ n. peek conn fuel (offset + n)) (length buf)
          (recv_fill conn max_empty_reads offset buf net)
          (recv_fill-IsFill max_empty_reads offset buf net)
          (λ n bs net' p l.
            subst (λ k. Fills k (peek conn fuel (offset + n) bs net')) l
              (peek-Fills fuel (offset + n) bs net' (omega (arith, l, p, h)))))
    | inr e ↦ returned (none, buf, net) (rw e refl) refl
  ]

  -- A run that ends, and returns a message with a buffer that is not empty.
  abbrev Gives : Outcome (Option (Failure Err) × Message × Net) → Type 0
  Gives o = Ends (λ r. 0 < length (r.1).body.bytes) o

  filled-Gives :
      (n : ℕ) (bytes : List ℕ) (m : Message) (net : Net)
      → n ≤ length bytes
      → 0 < length bytes
      → Fills (length (take n bytes)) (recv_peek conn (take n bytes) net)
      → Gives (recv_into conn n bytes m net)
  unfolding recv_into
  filled-Gives n bytes m net h k (returned (e, buf, net') g l) =
      returned (e, record m { body = record m.body { bytes = buf ++ drop n bytes } }, net')
        (rw (g, recv_into) refl)
        (omega (
          arith,
          l,
          length-take n bytes h,
          h,
          k,
          length-append buf (drop n bytes),
          length-drop n bytes,
        ))
  filled-Gives n bytes m net h k (panicked g neg) = panicked (rw (g, recv_into) refl) neg

  peeked : (buf : List ℕ) (net : Net) → Fills (length buf) (recv_peek conn buf net)
  unfolding recv_peek
  peeked buf net = peek-Fills (length buf) 0 buf net (omega arith)

  recv_body-Gives :
      (m : Message) (net : Net) → 0 < length m.body.bytes → Gives (recv_body conn m net)
  unfolding recv_body
  recv_body-Gives m net h =
      let (cs, g, room, p) =
        grow_body_lem (m.words * 8) (m.words * 8) m.body.bytes h (omega arith) in
      rw (g, recv_body)
        (filled-Gives (m.words * 8) cs m net room p (peeked (take (m.words * 8) cs) net))

  header-Gives :
      (m : Message) (net : Net)
      → length m.header ≡ 8
      → 0 < length m.body.bytes
      → Fills (length m.header) (recv_peek conn m.header net)
      → Gives (recv_header conn m net)
  unfolding recv_header
  header-Gives m net k h (returned (some e, header, net') g l) =
      returned (some e, record m { header = header }, net') (rw (g, recv_header) refl) h
  header-Gives m net k h (returned (none, header, net') g l) =
      let (m', f, b) = parse_header-total m header (l ∙ k) in
      returned (none, m', net') (rw (g, recv_header, f) refl) (rw b h)
  header-Gives m net k h (panicked g neg) = panicked (rw (g, recv_header) refl) neg

  body-Gives :
      (m : Message) (net : Net) → Gives (recv_header conn m net) → Gives (recv_fresh conn m net)
  unfolding recv_fresh
  body-Gives m net (returned (some e, m', net') g h) =
      returned (some e, m', net') (rw (g, recv_fresh) refl) h
  body-Gives m net (returned (none, m', net') g h) = rw (g, recv_fresh) (recv_body-Gives m' net' h)
  body-Gives m net (panicked g neg) = panicked (rw (g, recv_fresh) refl) neg

  -- On every connection recv ends on a message with a buffer that is not empty: it returns, with an
  -- error or without one, and the buffer is not empty then either, or it panics since a read returns a
  -- negative count.
  recv-total : (m : Message) (net : Net) → 0 < length m.body.bytes → Gives (recv conn m net)
  unfolding recv reset
  recv-total m net h =
      let fresh : Message = record {
        words = 0;
        mtype = 0;
        schema = 0;
        extra = 0;
        header = replicate 8 0;
        body = record { bytes = m.body.bytes; offset = 0 };
      } in
      body-Gives fresh net (header-Gives fresh net refl h (peeked (replicate 8 0) net))

  after_header-total :
      (m : Message) (r : Option (Failure Err) × Net)
      → m.body.offset ≤ length m.body.bytes
      → (e : Option (Failure Err)) × (net' : Net) × (after_header conn m r ≡ ok (e, net'))
  unfolding after_header send_body
  after_header-total m (some e, net) h = (some e, net, refl)
  after_header-total m (none, net) h =
      let (e, net') = write_all conn (take m.body.offset m.body.bytes) net in
      (e, net', rw (le→leb m.body.offset (length m.body.bytes) h) refl)

  send-total :
      (m : Message) (net : Net)
      → m.body.offset ≤ length m.body.bytes
      → (e : Option (Failure Err)) × (net' : Net) × (send conn m net ≡ ok (e, net'))
  unfolding send
  send-total m net h = after_header-total m (write_all conn m.header net) h

  answer-Gives :
      (request response : Message) (net net' : Net) (e : Option (Failure Err))
      → send conn request net ≡ ok (e, net')
      → 0 < length response.body.bytes
      → Gives (exchange conn request response net)
  unfolding exchange
  answer-Gives request response net net' (some e) g h =
      returned (some e, response, net') (rw (g, exchange) refl) h
  answer-Gives request response net net' none g h = rw (g, exchange) (recv-total response net' h)

  kept-Ends :
      (deadline : Option ℕ) (p : Protocol Err) (o : Outcome (Option (Failure Err) × Message × Net))
      → Gives o
      → Ends (λ r. 0 < length (r.1).body.bytes) (after_exchange conn deadline p o)
  unfolding after_exchange
  kept-Ends deadline p o (returned (e, m, net) g q) =
      returned (e, m, keep_error conn p e, with_deadline conn deadline none net)
        (rw (g, after_exchange) refl) q
  kept-Ends deadline p o (panicked g neg) = panicked (rw (g, after_exchange) refl) neg

  call_unless-total :
      (x : Option (Failure Err)) (deadline : Option ℕ) (request response : Message)
      (p : Protocol Err) (net : Net)
      → request.body.offset ≤ length request.body.bytes
      → 0 < length response.body.bytes
      → Ends (λ r. 0 < length (r.1).body.bytes) (call_unless conn x deadline request response p net)
  unfolding call_unless
  call_unless-total (some x) deadline request response p net h k =
      returned (some x, response, p, net) refl k
  call_unless-total none deadline request response p net h k =
      let start = with_deadline conn deadline deadline net in
      let (x, net1, s) = send-total request start h in
      kept-Ends deadline p (exchange conn request response start)
        (answer-Gives request response start net1 x s k)

  -- Call ends on every connection, whatever its writes and reads return, and on every protocol: each of
  -- its loops ends, and it returns, with an error or without one, unless a read returns a negative
  -- count, where it may panic with errNegativeRead and with nothing else. The request holds the bytes
  -- up to its offset, as it does behind an encoder, and the buffer of the response is not empty
  -- before, and not where it returns.
  pub call-total :
      (deadline : Option ℕ) (request response : Message) (p : Protocol Err) (net : Net)
      → request.body.offset ≤ length request.body.bytes
      → 0 < length response.body.bytes
      → Ends (λ r. 0 < length (r.1).body.bytes) (call conn deadline request response p net)
  unfolding call
  call-total deadline request response p net h k =
      call_unless-total p.net_err deadline request response p net h k
