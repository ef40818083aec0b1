-- ===== src/Driver/Exec.antt =====
-- Statements of driver/driver.go from end to end: the encoding of a statement with any number of
-- parameters, and Exec against a server that answers.
use go_dqlite.Prelude.{
  ℕ, suc, ◌+◌, ◌-◌, ◌*◌, ◌%◌, ◌^◌, ◌≤◌, ◌<◌, ◌≡◌, refl, ap, ◌∙◌, arith, inl, inr, Bool-cases,
}
use go_dqlite.Prelude.{
  Bool, Option, none, List, [], ◌∷◌, ◌++◌, length, All, ltb, leb, le→ltb, le→leb, lt→leb,
  if◌then◌else◌,
}
use go_dqlite.Message.State.{ok, Message, advance}
use go_dqlite.Message.Bytes.{le_bytes}
use go_dqlite.Message.Header.{wire_header, size}
use go_dqlite.Message.Writes.{content}
use go_dqlite.Message.Values.{Value, NamedValue}
use go_dqlite.Message.Fields.{AreBindable, IsSupported}
use go_dqlite.Protocol.Schema.{Call, fields, encode, exec_sql_v0, exec_sql_v1}
use go_dqlite.Protocol.Encoding.{IsValid, IsEncoded, encode_lem}
use go_dqlite.Protocol.Response.{decode_result}
use go_dqlite.Protocol.Connection.{Connection}
use go_dqlite.Protocol.Decoding.{decode_result_lem}
use go_dqlite.Protocol.Exchange.{IsServer, call_lem, IsReceived-Received}
use go_dqlite.Protocol.Session.{
  Session, Io, return, do_call, do_call-return, bind_return, encode_into-return, decode_from-return,
}
use go_dqlite.Driver.Errors.{converting}
use go_dqlite.Driver.Conn.{Conn, name_values, encode_sized, encode_exec_sql, exec_context}

module _ {Time : Type 0} where
  name_values-AreBindable :
      (i : ℕ) (vs : List (Value Time)) → All IsSupported vs → AreBindable i (name_values i vs)
  unfolding name_values
  name_values-AreBindable i [] h = tt
  name_values-AreBindable i (v ∷ vs) (h, hs) = (refl, h, name_values-AreBindable (i + 1) vs hs)

  length-name_values : (i : ℕ) (vs : List (Value Time)) → length (name_values i vs) ≡ length vs
  unfolding name_values
  length-name_values i [] = refl
  length-name_values i (v ∷ vs) = ap suc (length-name_values (i + 1) vs)

length-pair : (a b : ℕ) → length (le_bytes 8 a ++ le_bytes 8 b) ≡ 2 * 8
unfolding le_bytes
length-pair a b = refl

-- The call of an encoder that Conn.ExecContext makes.
abbrev pub exec_call : {Time : Type 0} → ℕ → List ℕ → List (NamedValue Time) → Call Time
exec_call id query args =
    if leb (length args) 255 then exec_sql_v0 id query args else exec_sql_v1 id query args

module _ {Net Err Time : Type 0} (format : Time → List ℕ) where
  -- The choice of encode_sized is valid for every number of parameters up to 2 ^ 32 - 1.
  encode_sized_lem :
      (n : ℕ) (c0 c1 : Call Time) (s : Session Net Err)
      → (n ≤ 255 → IsValid c0)
      → IsValid c1
      → n < 2 ^ 32
      → 0 < length s.request.body.bytes
      → length s.request.body.bytes % 8 ≡ 0
      → size format 0 (fields c0) < 2 ^ 32
      → size format 0 (fields c1) < 2 ^ 32
      → (t : Message) × (encode_sized n (encode format c0) (encode format c1) s
          ≡ ok (return tt, record s { request = t }))
        × IsEncoded format (if leb n 255 then c0 else c1) t
  unfolding encode_sized
  encode_sized_lem n c0 c1 s h k lt pos al small0 small1 = elim (Bool-cases (ltb 255 n)) [
    | inl e ↦
        let (t, f, d) = encode_lem format c1 s.request k pos al small1 in
        (
          t,
          rw (le→ltb (2 ^ 32 - 1) n (omega arith), e) (encode_into-return s (encode format c1) f),
          rw (lt→leb n 255 (ground arith)) d,
        )
    | inr e ↦
        let (t, f, d) = encode_lem format c0 s.request (h (ground arith)) pos al small0 in
        (
          t,
          rw (le→ltb (2 ^ 32 - 1) n (omega arith), e) (encode_into-return s (encode format c0) f),
          rw (le→leb n 255 (ground arith)) d,
        )
  ]

  -- On a request with a buffer of whole words, not empty, and for supported values, fewer than 2 ^ 32,
  -- whose encoding by either version is shorter than 2 ^ 32 bytes, the request of Exec is encoded, and
  -- only the request changes: it then holds the encoding by version 0 of the schema if there are at
  -- most 255 values, and by version 1 if there are more.
  pub encode_exec_sql_lem :
      (id : ℕ) (query : List ℕ) (values : List (Value Time)) (s : Session Net Err)
      → All IsSupported values
      → length values < 2 ^ 32
      → 0 < length s.request.body.bytes
      → length s.request.body.bytes % 8 ≡ 0
      → size format 0 (fields (exec_sql_v0 id query (name_values 0 values))) < 2 ^ 32
      → size format 0 (fields (exec_sql_v1 id query (name_values 0 values))) < 2 ^ 32
      → (t : Message) × (encode_exec_sql format id query (name_values 0 values) s
          ≡ ok (return tt, record s { request = t }))
        × IsEncoded format (exec_call id query (name_values 0 values)) t
  unfolding encode_exec_sql encode
  encode_exec_sql_lem id query values s h lt pos al small0 small1 =
      let args = name_values 0 values in
      let b = name_values-AreBindable 0 values h in
      let len = length-name_values 0 values in
      encode_sized_lem (length args) (exec_sql_v0 id query args) (exec_sql_v1 id query args) s
        (λ k. (b, k)) (b, omega (arith, len)) (omega (arith, len)) pos al small0 small1

module _ {Net Err Time : Type 0} (conn : Connection Net Err) (format : Time → List ℕ)
    (pending : Net → List ℕ) (answer : List ℕ → List ℕ → List ℕ)
    (sv : IsServer conn pending answer) where
  converting-return :
      {A : Type 0} (log : Bool) (m : Io Net Err A) (s t : Session Net Err) (a : A)
      → m s ≡ ok (return a, t)
      → converting conn log m s ≡ ok (return a, t)
  unfolding converting
  converting-return log m s t a e = rw (e, converting) refl

  -- Exec on a connection without an error and with nothing pending, to a server that answers the encoding
  -- of the statement with a Result response of two words of 64 bits: it returns them as the last insert
  -- ID and the affected rows, leaves the protocol as it is, and nothing pending. The values are
  -- supported, fewer than 2 ^ 32, and their encoding by either version is shorter than 2 ^ 32 bytes; the
  -- buffers of the messages are not empty, and that of the request has whole words.
  pub exec_context_lem :
      (c : Conn) (deadline : Option ℕ) (query : List ℕ) (values : List (Value Time))
      (s : Session Net Err) (id rows : ℕ)
      → All IsSupported values
      → length values < 2 ^ 32
      → 0 < length s.request.body.bytes
      → length s.request.body.bytes % 8 ≡ 0
      → 0 < length s.response.body.bytes
      → size format 0 (fields (exec_sql_v0 c.id query (name_values 0 values))) < 2 ^ 32
      → size format 0 (fields (exec_sql_v1 c.id query (name_values 0 values))) < 2 ^ 32
      → s.protocol.net_err ≡ none
      → pending s.net ≡ []
      → id < 2 ^ 64
      → rows < 2 ^ 64
      → ((t : Message)
          → IsEncoded format (exec_call c.id query (name_values 0 values)) t
          → answer t.header (content t) ≡ wire_header 2 6 0 ++ (le_bytes 8 id ++ le_bytes 8 rows))
      → (t : Session Net Err) × (exec_context conn format c deadline query (name_values 0 values) s
          ≡ ok (return (record { last_insert_id = id; rows_affected = rows }), t))
        × (t.protocol ≡ s.protocol)
        × (pending t.net ≡ [])
  unfolding exec_context
  exec_context_lem c deadline query values s id rows h lt pos al room small0 small1 n p a b served =
      let (t, e, d) = encode_exec_sql_lem format c.id query values s h lt pos al small0 small1 in
      let body : List ℕ = le_bytes 8 id ++ le_bytes 8 rows in
      let long : length body ≡ 2 * 8 = length-pair id rows in
      let (m, net, f, q, r) =
        call_lem conn pending answer sv deadline t s.response s.protocol s.net 2 6 0 body n p
          d.ready.within room (omega arith) long (served t d) in
      let sent : Session Net Err = record s { request = t } in
      let got : Session Net Err = record sent { response = m; net = net } in
      let g =
        decode_result_lem id rows m a b (IsReceived-Received 2 6 0 body m (omega arith) long r) in
      (
        record got { response = advance (length body) m },
        converting-return c.log _ s _ _ (
            bind_return (encode_exec_sql format c.id query (name_values 0 values)) _ e
            ∙ bind_return (do_call conn deadline) _ (do_call-return conn deadline sent f)
            ∙ decode_from-return got decode_result g),
        refl,
        q,
      )
