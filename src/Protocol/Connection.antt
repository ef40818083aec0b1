-- ===== src/Protocol/Connection.antt =====
-- Sending and receiving of internal/protocol/protocol.go. The net.Conn is a parameter, and its state is
-- passed along; the mutex makes a call one step.
use go_dqlite.Prelude.{ℕ, zero, suc, ◌+◌, ◌-◌, ◌*◌, Bool, true, Option, none, some}
use go_dqlite.Prelude.{
  List, [], ◌∷◌, ◌++◌, length, take, drop, replicate, leb, ltb, ◌==◌, if◌then◌else◌,
}
use go_dqlite.Message.State.{
  Outcome, ok, panic, stuck, index, closed_channel, negative_read, Message, reset, word_size,
}
use go_dqlite.Message.Bytes.{from_le}
use go_dqlite.Message.Put.{copy_at}
use go_dqlite.Protocol.Constants.{response_empty}
use go_dqlite.Protocol.Request

abbrev pub max_empty_reads : ℕ
max_empty_reads = 100

-- net.Conn, and the tests on its errors. Write returns how many bytes it has written, Read those that
-- it has put into the front of a slice of the length given, or `none` for a negative number, and both
-- an error or none; a deadline of `none` is the zero deadline. The tests tell a *net.OpError, a timeout, a
-- syscall.Errno, what Unwrap returns where there is one, whether errors.Is finds io.EOF, and whether
-- the error is io.EOF itself.
pub record Connection (Net Err : Type 0) : Type 0 where
  pub write : List ℕ → Net → (ℕ × Option Err) × Net
  pub read : ℕ → Net → (Option (List ℕ) × Option Err) × Net
  pub set_deadline : Option ℕ → Net → Net
  pub close : Net → Option Err × Net
  pub is_op_error : Err → Bool
  pub is_timeout : Err → Bool
  pub is_errno : Err → Bool
  pub unwrap : Err → Option Err
  pub is_eof : Err → Bool
  pub equals_eof : Err → Bool

-- The causes of an error.
pub data Failure (Err : Type 0) : Type 0 where
  connection : Err → Failure Err
  short_write no_progress : Failure Err

-- What recvFill returns; `negative` is its panic.
pub data Filled (Err : Type 0) : Type 0 where
  got : ℕ → Filled Err
  failed : Failure Err → Filled Err
  negative : Filled Err

-- Protocol; `closed` says that its channel is closed.
pub record Protocol (Err : Type 0) : Type 0 where
  pub version : ℕ
  pub closed : Bool
  pub net_err : Option (Failure Err)

-- The growing loop of recvBody, which drops the old bytes, in `fuel` rounds at most.
unfoldable pub grow_body : ℕ → ℕ → List ℕ → Outcome (List ℕ)
grow_body zero n bs = if ltb (length bs) n then stuck else ok bs
grow_body (suc fuel) n bs =
    let rest = grow_body fuel n (replicate (length bs * 2) 0) in
    if ltb (length bs) n then rest else ok bs

-- The fields of a message, read from its header.
unfoldable pub parse_header : Message → Outcome Message
parse_header m = elim m.header [
  | a ∷ b ∷ c ∷ d ∷ mtype ∷ schema ∷ e ∷ f ∷ _ ↦ ok (record m {
    words = from_le (a ∷ b ∷ c ∷ d ∷ []);
    mtype = mtype;
    schema = schema;
    extra = from_le (e ∷ f ∷ []);
  })
  | _ ↦ panic index
]

module _ {Net Err : Type 0} (conn : Connection Net Err) where
  -- What follows the write of `size` bytes.
  unfoldable pub after_write : ℕ → (ℕ × Option Err) × Net → Option (Failure Err) × Net
  after_write size ((n, some e), net) = (some (connection e), net)
  after_write size ((n, none), net) = (if n == size then none else some short_write, net)

  -- A write of a whole slice.
  unfoldable pub write_all : List ℕ → Net → Option (Failure Err) × Net
  unfolding after_write
  write_all bs net = after_write (length bs) (conn.write bs net)

  -- Protocol.sendBody, behind a header that was sent.
  unfoldable pub send_body : Message → Net → Outcome (Option (Failure Err) × Net)
  unfolding write_all
  send_body m net =
      if leb m.body.offset (length m.body.bytes)
      then ok (write_all (take m.body.offset m.body.bytes) net)
      else panic index

  -- Protocol.send behind sendHeader.
  unfoldable pub after_header :
      Message → Option (Failure Err) × Net → Outcome (Option (Failure Err) × Net)
  unfolding send_body
  after_header m (some e, net) = ok (some e, net)
  after_header m (none, net) = send_body m net

  -- Protocol.send and sendHeader; the header has messageHeaderSize bytes.
  unfoldable pub send : Message → Net → Outcome (Option (Failure Err) × Net)
  unfolding after_header write_all
  send m net = after_header m (write_all m.header net)

  -- A round of recvFill, behind its read; `rest` are the rounds behind it.
  unfoldable pub after_read :
      (Net → Filled Err × List ℕ × Net)
      → ℕ
      → List ℕ
      → (Option (List ℕ) × Option Err) × Net
      → Filled Err × List ℕ × Net
  after_read rest offset buf ((none, e), net) = (negative, buf, net)
  after_read rest offset buf ((some bs, some e), net) =
      (failed (connection e), copy_at buf offset bs, net)
  after_read rest offset buf ((some bs, none), net) =
      let others = rest net in
      if ltb 0 (length bs) then (got (length bs), copy_at buf offset bs, net) else others

  -- Protocol.recvFill, on the slice of `buf` from the offset on, with `tries` reads left.
  unfoldable pub recv_fill : ℕ → ℕ → List ℕ → Net → Filled Err × List ℕ × Net
  unfolding after_read
  recv_fill zero offset buf net = (failed no_progress, buf, net)
  recv_fill (suc tries) offset buf net =
      after_read (recv_fill tries offset buf) offset buf (conn.read (length buf - offset) net)

  -- What recvPeek does with the result of recvFill; `rest` are the rounds behind it.
  unfoldable pub after_fill :
      (ℕ → List ℕ → Net → Outcome (Option (Failure Err) × List ℕ × Net))
      → Filled Err × List ℕ × Net
      → Outcome (Option (Failure Err) × List ℕ × Net)
  after_fill rest (got n, buf, net) = rest n buf net
  after_fill rest (failed e, buf, net) = ok (some e, buf, net)
  after_fill rest (negative, buf, net) = panic negative_read

  -- The loop of recvPeek, in `fuel` rounds at most.
  unfoldable pub peek : ℕ → ℕ → List ℕ → Net → Outcome (Option (Failure Err) × List ℕ × Net)
  unfolding after_fill
  peek zero offset buf net = if ltb offset (length buf) then stuck else ok (none, buf, net)
  peek (suc fuel) offset buf net =
      let round =
        after_fill (λ n. peek fuel (offset + n)) (recv_fill max_empty_reads offset buf net) in
      if ltb offset (length buf) then round else ok (none, buf, net)

  -- Protocol.recvPeek. Each round but the last fills a byte at least.
  unfoldable pub recv_peek : List ℕ → Net → Outcome (Option (Failure Err) × List ℕ × Net)
  unfolding peek
  recv_peek buf net = peek (length buf) 0 buf net

  -- Protocol.recvHeader
  unfoldable pub recv_header : Message → Net → Outcome (Option (Failure Err) × Message × Net)
  recv_header m net = elim (recv_peek m.header net) [
    | ok (some e, header, net') ↦ ok (some e, record m { header = header }, net')
    | ok (none, header, net') ↦ elim (parse_header (record m { header = header })) [
      | ok m' ↦ ok (none, m', net')
      | panic p ↦ panic p
      | stuck ↦ stuck
    ]
    | panic p ↦ panic p
    | stuck ↦ stuck
  ]

  -- recvBody with a buffer that has grown to `bytes`: it fills the first `n` of them.
  unfoldable pub recv_into :
      ℕ → List ℕ → Message → Net → Outcome (Option (Failure Err) × Message × Net)
  recv_into n bytes m net = elim (recv_peek (take n bytes) net) [
    | ok (e, buf, net') ↦
        ok (e, record m { body = record m.body { bytes = buf ++ drop n bytes } }, net')
    | panic p ↦ panic p
    | stuck ↦ stuck
  ]

  -- Protocol.recvBody. Here the product of the words and the word size does not wrap.
  unfoldable pub recv_body : Message → Net → Outcome (Option (Failure Err) × Message × Net)
  recv_body m net = elim (grow_body (m.words * word_size) (m.words * word_size) m.body.bytes) [
    | ok bytes ↦ recv_into (m.words * word_size) bytes m net
    | panic p ↦ panic p
    | stuck ↦ stuck
  ]

  -- Protocol.recv, on the message after its reset.
  unfoldable pub recv_fresh : Message → Net → Outcome (Option (Failure Err) × Message × Net)
  recv_fresh m net = elim (recv_header m net) [
    | ok (some e, m', net') ↦ ok (some e, m', net')
    | ok (none, m', net') ↦ recv_body m' net'
    | panic p ↦ panic p
    | stuck ↦ stuck
  ]

  -- Protocol.recv
  unfoldable pub recv : Message → Net → Outcome (Option (Failure Err) × Message × Net)
  recv m net = elim (reset m) [ ok (_, m') ↦ recv_fresh m' net | panic p ↦ panic p | stuck ↦ stuck ]

  -- The deferred function of Call, which keeps an error of the network.
  unfoldable pub keep_error : Protocol Err → Option (Failure Err) → Protocol Err
  keep_error p (some (connection e)) =
      if conn.is_op_error e then record p { net_err = some (connection e) } else p
  keep_error p _ = p

  -- SetDeadline, where the context has a deadline.
  unfoldable pub with_deadline : Option ℕ → Option ℕ → Net → Net
  with_deadline none deadline net = net
  with_deadline (some d) deadline net = conn.set_deadline deadline net

  -- send, and recv if it succeeds.
  unfoldable pub exchange : Message → Message → Net → Outcome (Option (Failure Err) × Message × Net)
  exchange request response net = elim (send request net) [
    | ok (some e, net') ↦ ok (some e, response, net')
    | ok (none, net') ↦ recv response net'
    | panic p ↦ panic p
    | stuck ↦ stuck
  ]

  -- Call behind its exchange: the deferred functions.
  unfoldable pub after_exchange :
      Option ℕ
      → Protocol Err
      → Outcome (Option (Failure Err) × Message × Net)
      → Outcome (Option (Failure Err) × Message × Protocol Err × Net)
  unfolding keep_error with_deadline
  after_exchange deadline p (ok (e, response, net)) =
      ok (e, response, keep_error p e, with_deadline deadline none net)
  after_exchange deadline p (panic q) = panic q
  after_exchange deadline p stuck = stuck

  -- Call behind its look at netErr.
  unfoldable pub call_unless :
      Option (Failure Err)
      → Option ℕ
      → Message
      → Message
      → Protocol Err
      → Net
      → Outcome (Option (Failure Err) × Message × Protocol Err × Net)
  unfolding after_exchange with_deadline
  call_unless (some e) deadline request response p net = ok (some e, response, p, net)
  call_unless none deadline request response p net =
      after_exchange deadline p (exchange request response (with_deadline deadline deadline net))

  -- Protocol.Call, in a context with this deadline or none.
  unfoldable pub call :
      Option ℕ
      → Message
      → Message
      → Protocol Err
      → Net
      → Outcome (Option (Failure Err) × Message × Protocol Err × Net)
  unfolding call_unless
  call deadline request response p net = call_unless p.net_err deadline request response p net

  -- Protocol.Close: a second close of the channel panics.
  unfoldable pub close : Protocol Err → Net → Outcome (Option Err × Protocol Err × Net)
  close p net =
      let (err, net') = conn.close net in
      if p.closed then panic closed_channel else ok (err, record p { closed = true }, net')

  -- The loop of Interrupt, in `fuel` rounds at most.
  unfoldable pub drain : ℕ → Message → Net → Outcome (Option (Failure Err) × Message × Net)
  drain zero response net = stuck
  drain (suc fuel) response net = elim (recv response net) [
    | ok (some e, m, net') ↦ ok (some e, m, net')
    | ok (none, m, net') ↦
        let rest = drain fuel m net' in
        if m.mtype == response_empty then ok (none, m, net') else rest
    | panic p ↦ panic p
    | stuck ↦ stuck
  ]

  -- Protocol.Interrupt: the error, the request as EncodeInterrupt leaves it, and the response.
  unfoldable pub interrupt :
      ℕ
      → Option ℕ
      → Message
      → Message
      → Net
      → Outcome (Option (Failure Err) × Message × Message × Net)
  unfolding drain with_deadline
  interrupt fuel deadline request response net = elim (Request.encode_interrupt 0 request) [
    | ok (_, request') ↦ elim (send request' (with_deadline deadline deadline net)) [
      | ok (some e, net') ↦ ok (some e, request', response, with_deadline deadline none net')
      | ok (none, net') ↦ elim (drain fuel response net') [
        | ok (e, m, net2) ↦ ok (e, request', m, with_deadline deadline none net2)
        | panic p ↦ panic p
        | stuck ↦ stuck
      ]
      | panic p ↦ panic p
      | stuck ↦ stuck
    ]
    | panic p ↦ panic p
    | stuck ↦ stuck
  ]
