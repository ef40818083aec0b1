-- ===== src/Protocol/Delivery.antt =====
-- What recv of internal/protocol/protocol.go makes of a stream of bytes, in whatever pieces the
-- connection returns them.
use go_dqlite.Prelude.{some}
use go_dqlite.Prelude.{
  ℕ, zero, suc, ◌+◌, ◌-◌, ◌*◌, ◌^◌, ◌≤◌, ◌<◌, ◌≡◌, refl, ap, sym, subst, ◌∙◌, arith,
}
use go_dqlite.Prelude.{
  Option, none, List, [], ◌∷◌, ◌++◌, append_assoc, append-nil, length, length-append, inl, inr,
  Bool-cases, length-take, take, take-length_append, drop,
}
use go_dqlite.Prelude.{ltb, lt→ltb, le→ltb, replicate, length-replicate}
use go_dqlite.Message.State.{Outcome, ok, Message, reset}
use go_dqlite.Message.Bytes.{le_bytes, from_le, from_le-le_bytes}
use go_dqlite.Message.Header.{wire_header}
use go_dqlite.Message.Put.{copy_at}
use go_dqlite.Message.Copy.{length-copy_at, take-copy_at}
use go_dqlite.Protocol.Connection.{
  Connection, Failure, got, after_read, after_fill, recv_fill, peek, recv_peek, grow_body,
  parse_header, recv_header, recv_into, recv_body, recv_fresh, recv,
}

split :
    (bs xs zs ys : List ℕ)
    → length bs ≤ length xs
    → xs ++ ys ≡ bs ++ zs
    → (xs' : List ℕ) × (xs ≡ bs ++ xs') × (zs ≡ xs' ++ ys)
split [] xs zs ys h e = (xs, refl, sym e)
split (b ∷ bs) [] zs ys h e = absurd (omega arith)
split (b ∷ bs) (x ∷ xs) zs ys h e =
    let (xs', p, q) = split bs xs zs ys (omega arith) cc in (xs', cc, q)

-- The bytes that a connection has still to deliver: a read of at least one byte returns a piece from
-- their front, while there are any.
pub record IsStream {Net Err : Type 0} (conn : Connection Net Err) (pending : Net → List ℕ)
    : Type 0 where
  pub reads :
      (size : ℕ) (net : Net)
      → 0 < size
      → 0 < length (pending net)
      → (bs : List ℕ) × (net' : Net) × (conn.read size net ≡ ((some bs, none), net'))
        × (0 < length bs)
        × (length bs ≤ size)
        × (pending net ≡ bs ++ pending net')

take_all : (n : ℕ) (xs : List ℕ) → n ≡ length xs → take n xs ≡ xs
take_all n xs e =
    ap (λ k. take k xs) e
    ∙ subst (λ ys. take (length xs) ys ≡ xs) (append-nil xs) (take-length_append xs [])

whole :
    {Net Err : Type 0} (offset : ℕ) (buf : List ℕ) (net : Net)
    → offset ≡ length buf
    → (let r : Outcome (Option (Failure Err) × List ℕ × Net) = ok (none, buf, net) in r)
      ≡ ok (none, take offset buf ++ [], net)
whole offset buf net e =
    ap (λ l. ok (none, l, net)) (sym (append-nil (take offset buf) ∙ take_all offset buf e))

-- A message as it is received: the fields of the header, the bytes of the body at the front of the
-- buffer, and the offset at 0.
pub record IsReceived (words mtype schema : ℕ) (body : List ℕ) (m : Message) : Type 0 where
  pub words_is : m.words ≡ words
  pub mtype_is : m.mtype ≡ mtype
  pub schema_is : m.schema ≡ schema
  pub offset_is : m.body.offset ≡ 0
  pub rest : List ℕ
  pub bytes : m.body.bytes ≡ body ++ rest

abbrev with_header : ℕ → ℕ → ℕ → Message → Message
with_header words mtype schema m = record {
  words = words;
  mtype = mtype;
  schema = schema;
  extra = from_le (le_bytes 2 0);
  header = wire_header words mtype schema;
  body = m.body;
}

parse_header_lem :
    (words mtype schema : ℕ) (m : Message)
    → words < 2 ^ 32
    → parse_header (record m { header = wire_header words mtype schema })
      ≡ ok (with_header words mtype schema m)
unfolding parse_header le_bytes
parse_header_lem words mtype schema m w = rw (from_le-le_bytes 4 words w) refl

length-wire_header : (words mtype schema : ℕ) → length (wire_header words mtype schema) ≡ 8
unfolding le_bytes
length-wire_header words mtype schema = refl

-- The buffer grows to the size that is needed, and is not empty.
pub grow_body_lem :
    (fuel n : ℕ) (bs : List ℕ)
    → 0 < length bs
    → n ≤ length bs + fuel
    → (cs : List ℕ) × (grow_body fuel n bs ≡ ok cs) × (n ≤ length cs) × (0 < length cs)
unfolding grow_body
grow_body_lem zero n bs h f = (bs, rw (le→ltb (length bs) n (omega arith)) refl, omega arith, h)
grow_body_lem (suc fuel) n bs h f = elim (Bool-cases (ltb (length bs) n)) [
  | inr e ↦ (bs, rw e refl, ground arith, h)
  | inl e ↦
      let long = length-replicate {0} (length bs * 2) zero in
      let (cs, r, k, q) =
        grow_body_lem fuel n (replicate (length bs * 2) 0) (omega (arith, long))
          (omega (arith, long)) in
      (cs, rw e r, k, q)
]

module _ {Net Err : Type 0} (conn : Connection Net Err) (pending : Net → List ℕ)
    (st : IsStream conn pending) where
  recv_fill_lem :
      (tries offset : ℕ) (buf bs : List ℕ) (net net' : Net)
      → conn.read (length buf - offset) net ≡ ((some bs, none), net')
      → 0 < length bs
      → recv_fill conn (suc tries) offset buf net ≡ (got (length bs), copy_at buf offset bs, net')
  unfolding recv_fill after_read
  recv_fill_lem tries offset buf bs net net' r h = rw (r, recv_fill, lt→ltb 0 (length bs) h) refl

  peek_step :
      (fuel offset : ℕ) (buf bs : List ℕ) (net net' : Net)
      → conn.read (length buf - offset) net ≡ ((some bs, none), net')
      → 0 < length bs
      → offset < length buf
      → peek conn (suc fuel) offset buf net
        ≡ peek conn fuel (offset + length bs) (copy_at buf offset bs) net'
  unfolding peek after_fill
  peek_step fuel offset buf bs net net' r h k =
      rw (lt→ltb offset (length buf) k, recv_fill_lem 99 offset buf bs net net' r h) refl

  peek_lem :
      (fuel offset : ℕ) (buf piece rest : List ℕ) (net : Net)
      → length buf ≤ offset + fuel
      → offset + length piece ≡ length buf
      → pending net ≡ piece ++ rest
      → (net' : Net) × (peek conn fuel offset buf net ≡ ok (none, take offset buf ++ piece, net'))
        × (pending net' ≡ rest)
  unfolding peek
  peek_lem zero offset buf [] rest net f e p =
      (net, rw (le→ltb offset (length buf) (omega arith)) (whole offset buf net (omega arith)), p)
  peek_lem zero offset buf (d ∷ piece) rest net f e p = absurd (omega arith)
  peek_lem (suc fuel) offset buf [] rest net f e p =
      (net, rw (le→ltb offset (length buf) (omega arith)) (whole offset buf net (omega arith)), p)
  peek_lem (suc fuel) offset buf (d ∷ piece) rest net f e p =
      let (bs, net', r, some_byte, fit, q) =
        st.reads (length buf - offset) net (omega arith) (omega (arith, ap (λ l. length l) p)) in
      let (piece', a, b) = split bs (d ∷ piece) (pending net') rest (omega arith) (sym p ∙ q) in
      let long = length-copy_at buf offset bs in
      let sum = ap (λ l. length l) a ∙ length-append bs piece' in
      let (net2, ih, done) =
        peek_lem fuel (offset + length bs) (copy_at buf offset bs) piece' rest net'
          (omega (arith, long)) (omega (arith, long, sum)) b in
      let same : take (offset + length bs) (copy_at buf offset bs) ++ piece'
          ≡ take offset buf ++ d ∷ piece =
        ap (λ l. l ++ piece') (take-copy_at buf offset bs (omega arith))
        ∙ append_assoc (take offset buf) bs piece'
        ∙ ap (λ l. take offset buf ++ l) (sym a) in
      (
        net2,
        peek_step fuel offset buf bs net net' r some_byte (omega arith)
            ∙ ih
            ∙ ap (λ l. ok (none, l, net2)) same,
        done,
      )

  -- recvPeek fills a slice with the next bytes of the stream.
  recv_peek_lem :
      (buf piece rest : List ℕ) (net : Net)
      → length piece ≡ length buf
      → pending net ≡ piece ++ rest
      → (net' : Net) × (recv_peek conn buf net ≡ ok (none, piece, net')) × (pending net' ≡ rest)
  unfolding recv_peek
  recv_peek_lem buf piece rest net e p =
      peek_lem (length buf) 0 buf piece rest net (omega arith) (omega arith) p

  recv_into_lem :
      (words mtype schema : ℕ) (body rest bytes : List ℕ) (m : Message) (net : Net)
      → length body ≡ words * 8
      → words * 8 ≤ length bytes
      → pending net ≡ body ++ rest
      → (m.words ≡ words) × (m.mtype ≡ mtype) × (m.schema ≡ schema) × (m.body.offset ≡ 0)
      → (m' : Message) × (net' : Net) × (recv_into conn (words * 8) bytes m net
          ≡ ok (none, m', net'))
        × (pending net' ≡ rest)
        × IsReceived words mtype schema body m'
  unfolding recv_into
  recv_into_lem words mtype schema body rest bytes m net e f p (a, b, c, d) =
      let (net', r, q) =
        recv_peek_lem (take (words * 8) bytes) body rest net
          (omega (arith, length-take (words * 8) bytes f)) p in
      let m' : Message = record m {
        body = record m.body { bytes = body ++ drop (words * 8) bytes };
      } in
      (
        m',
        net',
        rw (r, recv_into) refl,
        q,
        record {
          words_is = a;
          mtype_is = b;
          schema_is = c;
          offset_is = d;
          rest = drop (words * 8) bytes;
          bytes = refl;
        },
      )

  -- On a connection that returns at least one byte in each read while bytes are pending, and
  -- however it cuts its stream into reads, recv takes exactly one message from the front of the
  -- stream: for a header of these words, type and schema with a body of so many words behind it,
  -- it returns without an error, and the message has the fields and the body. The buffer of the
  -- message must not be empty before, and the words are below 2 ^ 32.
  pub recv_lem :
      (words mtype schema : ℕ) (body rest : List ℕ) (m : Message) (net : Net)
      → 0 < length m.body.bytes
      → words < 2 ^ 32
      → length body ≡ words * 8
      → pending net ≡ wire_header words mtype schema ++ (body ++ rest)
      → (m' : Message) × (net' : Net) × (recv conn m net ≡ ok (none, m', net'))
        × (pending net' ≡ rest)
        × IsReceived words mtype schema body m'
  unfolding recv recv_fresh recv_header recv_body reset
  recv_lem words mtype schema body rest m net h w e p =
      let hdr = wire_header words mtype schema in
      let (net1, r, q) =
        recv_peek_lem (replicate 8 0) hdr (body ++ rest) net (length-wire_header words mtype schema)
          p in
      let (cs, g, room, _) = grow_body_lem (words * 8) (words * 8) m.body.bytes h (omega arith) in
      let m0 : Message = record {
        words = 0;
        mtype = 0;
        schema = 0;
        extra = 0;
        header = hdr;
        body = record { bytes = m.body.bytes; offset = 0 };
      } in
      let m1 : Message = with_header words mtype schema m0 in
      let (m2, net2, i, done, k) =
        recv_into_lem words mtype schema body rest cs m1 net1 e room q (refl, refl, refl, refl) in
      (
        m2,
        net2,
        rw
            (
              r,
              recv,
              recv_fresh,
              recv_header,
              parse_header_lem words mtype schema m0 w,
              recv_body,
              g,
            )
            i,
        done,
        k,
      )
