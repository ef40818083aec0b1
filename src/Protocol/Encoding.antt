-- ===== src/Protocol/Encoding.antt =====
-- Every encoder of internal/protocol/request.go against the schema of its request.
use go_dqlite.Prelude.{
  ℕ, true, false, ◌+◌, ◌/◌, ◌%◌, ◌^◌, ◌≤◌, ◌<◌, ◌≡◌, refl, ap, sym, subst, ◌∙◌, arith,
}
use go_dqlite.Prelude.{List, [], ◌∷◌, length, length-append}
use go_dqlite.Message.State.{ok, Message, Action, reset, ◌>>◌}
use go_dqlite.Message.Bytes.{le_bytes, length-le_bytes, padding, padding_lem}
use go_dqlite.Message.Put.{put_uint32, put_uint64, put_string}
use go_dqlite.Message.Writes.{IsReady, content}
use go_dqlite.Message.Words.{put_uint32-Writes, put_uint64-Writes}
use go_dqlite.Message.Text.{string_bytes, put_string-Writes, length-string_bytes, length-blob_bytes}
use go_dqlite.Message.Values.{
  Value, integer, float, boolean, blob, text, null, time, other, NamedValue, put_named_values,
  put_named_values32,
}
use go_dqlite.Message.Fields.{
  Field, uint64, uint32, string, params, AreBindable, value_bytes, values_bytes, Encodes,
  WritesAt-of_Writes,
}
use go_dqlite.Message.Params.{put_named_values-WritesAt, put_named_values32-WritesAt}
use go_dqlite.Message.Header.{wire_header, size, Completes, put_header-Completes, Completes-field}
use go_dqlite.Protocol.Schema.{
  Call, kind, fields, encode, leader, client, heartbeat, open_db, prepare, exec_v0, exec_v1,
  query_v0, query_v1, finalize, exec_sql_v0, exec_sql_v1, query_sql_v0, query_sql_v1, interrupt,
  add, assign, remove, dump, cluster, transfer, describe, weight,
}

-- What an encoder needs of its arguments: parameters numbered from 1, of supported types, and no more
-- of them than the count field holds.
abbrev pub IsValid : {Time : Type 0} → Call Time → Type 0
IsValid (exec_v0 _ _ values) = AreBindable 0 values × (length values ≤ 255)
IsValid (exec_v1 _ _ values) = AreBindable 0 values × (length values < 2 ^ 32)
IsValid (query_v0 _ _ values) = AreBindable 0 values × (length values ≤ 255)
IsValid (query_v1 _ _ values) = AreBindable 0 values × (length values < 2 ^ 32)
IsValid (exec_sql_v0 _ _ values) = AreBindable 0 values × (length values ≤ 255)
IsValid (exec_sql_v1 _ _ values) = AreBindable 0 values × (length values < 2 ^ 32)
IsValid (query_sql_v0 _ _ values) = AreBindable 0 values × (length values ≤ 255)
IsValid (query_sql_v1 _ _ values) = AreBindable 0 values × (length values < 2 ^ 32)
IsValid _ = Unit

abbrev fresh : Message → Message
fresh m = record {
  words = 0;
  mtype = 0;
  schema = 0;
  extra = 0;
  header = 0 ∷ 0 ∷ 0 ∷ 0 ∷ 0 ∷ 0 ∷ 0 ∷ 0 ∷ [];
  body = record m.body { offset = 0 };
}

module _ {Time : Type 0} (format : Time → List ℕ) where
  value_aligned : (v : Value Time) → length (value_bytes format v) % 8 ≡ 0
  unfolding value_bytes
  value_aligned (integer v) = rw length-le_bytes
  value_aligned (float v) = rw length-le_bytes
  value_aligned (boolean true) = rw length-le_bytes
  value_aligned (boolean false) = rw length-le_bytes
  value_aligned (blob v) = omega (arith, length-blob_bytes v, padding_lem (length v))
  value_aligned (text v) = omega (arith, length-string_bytes v, padding_lem (length v + 1))
  value_aligned null = rw length-le_bytes
  value_aligned (time v) =
      omega (arith, length-string_bytes (format v), padding_lem (length (format v) + 1))
  value_aligned other = refl

  values_aligned : (vs : List (NamedValue Time)) → length (values_bytes format vs) % 8 ≡ 0
  unfolding values_bytes
  values_aligned [] = refl
  values_aligned (v ∷ vs) = omega (
    arith,
    length-append (value_bytes format v.value) (values_bytes format vs),
    value_aligned v.value,
    values_aligned vs,
  )

  abbrev IsWhole : ℕ → Type 0
  IsWhole n = (0 < n) × (n % 8 ≡ 0)

  params-IsWhole :
      (w o : ℕ) (vs : List (NamedValue Time))
      → IsWhole o
      → IsWhole (size format o (params w vs ∷ []))
  params-IsWhole w o [] h = h
  params-IsWhole w o (v ∷ vs) h =
      let n = w + length (v ∷ vs) in omega (arith, padding_lem (o + n), values_aligned (v ∷ vs))

  -- The fields of every request fill whole words.
  size-IsWhole : (c : Call Time) → IsWhole (size format 0 (fields c))
  size-IsWhole leader = omega arith
  size-IsWhole (client id) = omega arith
  size-IsWhole (heartbeat timestamp) = omega arith
  size-IsWhole (open_db name flags vfs) =
      omega (arith, padding_lem (length name + 1), padding_lem (length vfs + 1))
  size-IsWhole (prepare db sql) = omega (arith, padding_lem (length sql + 1))
  size-IsWhole (exec_v0 db stmt values) = params-IsWhole 1 8 values (omega arith)
  size-IsWhole (exec_v1 db stmt values) = params-IsWhole 4 8 values (omega arith)
  size-IsWhole (query_v0 db stmt values) = params-IsWhole 1 8 values (omega arith)
  size-IsWhole (query_v1 db stmt values) = params-IsWhole 4 8 values (omega arith)
  size-IsWhole (finalize db stmt) = omega arith
  size-IsWhole (exec_sql_v0 db sql values) =
      params-IsWhole 1 (0 + 8 + (length sql + 1 + padding (length sql + 1))) values
        (omega (arith, padding_lem (length sql + 1)))
  size-IsWhole (exec_sql_v1 db sql values) =
      params-IsWhole 4 (0 + 8 + (length sql + 1 + padding (length sql + 1))) values
        (omega (arith, padding_lem (length sql + 1)))
  size-IsWhole (query_sql_v0 db sql values) =
      params-IsWhole 1 (0 + 8 + (length sql + 1 + padding (length sql + 1))) values
        (omega (arith, padding_lem (length sql + 1)))
  size-IsWhole (query_sql_v1 db sql values) =
      params-IsWhole 4 (0 + 8 + (length sql + 1 + padding (length sql + 1))) values
        (omega (arith, padding_lem (length sql + 1)))
  size-IsWhole (interrupt db) = omega arith
  size-IsWhole (add id address) = omega (arith, padding_lem (length address + 1))
  size-IsWhole (assign id role) = omega arith
  size-IsWhole (remove id) = omega arith
  size-IsWhole (dump name) = omega (arith, padding_lem (length name + 1))
  size-IsWhole (cluster format_code) = omega arith
  size-IsWhole (transfer id) = omega arith
  size-IsWhole (describe format_code) = omega arith
  size-IsWhole (weight w) = omega arith

  module _ {fs : List (Field Time)} {mtype schema : ℕ} {a : Action Unit} where
    put64 :
        (n : ℕ)
        → Completes format a fs mtype schema
        → Completes format (put_uint64 n >> a) (uint64 n ∷ fs) mtype schema
    put64 n =
        Completes-field format (uint64 n) (put_uint64 n)
          (WritesAt-of_Writes (le_bytes 8 n) (put_uint64-Writes n))

    put32 :
        (n : ℕ)
        → Completes format a fs mtype schema
        → Completes format (put_uint32 n >> a) (uint32 n ∷ fs) mtype schema
    put32 n =
        Completes-field format (uint32 n) (put_uint32 n)
          (WritesAt-of_Writes (le_bytes 4 n) (put_uint32-Writes n))

    put_text :
        (v : List ℕ)
        → Completes format a fs mtype schema
        → Completes format (put_string v >> a) (string v ∷ fs) mtype schema
    put_text v =
        Completes-field format (string v) (put_string v)
          (WritesAt-of_Writes (string_bytes v) (put_string-Writes v))

    put_params :
        (vs : List (NamedValue Time))
        → AreBindable 0 vs × (length vs ≤ 255)
        → Completes format a fs mtype schema
        → Completes format (put_named_values format vs >> a) (params 1 vs ∷ fs) mtype schema
    put_params vs h =
        Completes-field format (params 1 vs) (put_named_values format vs)
          (put_named_values-WritesAt format vs h.0 h.1)

    put_params32 :
        (vs : List (NamedValue Time))
        → AreBindable 0 vs × (length vs < 2 ^ 32)
        → Completes format a fs mtype schema
        → Completes format (put_named_values32 format vs >> a) (params 4 vs ∷ fs) mtype schema
    put_params32 vs h =
        Completes-field format (params 4 vs) (put_named_values32 format vs)
          (put_named_values32-WritesAt format vs h.0 h.1)

  -- An encoder resets the message, and then writes the fields of its request and the header.
  abbrev HasBody : Call Time → Type 0
  HasBody c =
      (a : Action Unit) × (encode format c ≡ (reset >> a))
      × Completes format a (fields c) (kind c).mtype (kind c).schema

  encode_body : (c : Call Time) → IsValid c → HasBody c
  unfolding encode
  encode_body leader h = (_, refl, put64 0 (put_header-Completes format 0 0))
  encode_body (client id) h = (_, refl, put64 id (put_header-Completes format 1 0))
  encode_body (heartbeat timestamp) h = (_, refl, put64 timestamp (put_header-Completes format 2 0))
  encode_body (open_db name flags vfs) h =
      (_, refl, put_text name (put64 flags (put_text vfs (put_header-Completes format 3 0))))
  encode_body (prepare db sql) h =
      (_, refl, put64 db (put_text sql (put_header-Completes format 4 0)))
  encode_body (exec_v0 db stmt values) h =
      (_, refl, put32 db (put32 stmt (put_params values h (put_header-Completes format 5 0))))
  encode_body (exec_v1 db stmt values) h =
      (_, refl, put32 db (put32 stmt (put_params32 values h (put_header-Completes format 5 1))))
  encode_body (query_v0 db stmt values) h =
      (_, refl, put32 db (put32 stmt (put_params values h (put_header-Completes format 6 0))))
  encode_body (query_v1 db stmt values) h =
      (_, refl, put32 db (put32 stmt (put_params32 values h (put_header-Completes format 6 1))))
  encode_body (finalize db stmt) h =
      (_, refl, put32 db (put32 stmt (put_header-Completes format 7 0)))
  encode_body (exec_sql_v0 db sql values) h =
      (_, refl, put64 db (put_text sql (put_params values h (put_header-Completes format 8 0))))
  encode_body (exec_sql_v1 db sql values) h =
      (_, refl, put64 db (put_text sql (put_params32 values h (put_header-Completes format 8 1))))
  encode_body (query_sql_v0 db sql values) h =
      (_, refl, put64 db (put_text sql (put_params values h (put_header-Completes format 9 0))))
  encode_body (query_sql_v1 db sql values) h =
      (_, refl, put64 db (put_text sql (put_params32 values h (put_header-Completes format 9 1))))
  encode_body (interrupt db) h = (_, refl, put64 db (put_header-Completes format 10 0))
  encode_body (add id address) h =
      (_, refl, put64 id (put_text address (put_header-Completes format 12 0)))
  encode_body (assign id role) h =
      (_, refl, put64 id (put64 role (put_header-Completes format 13 0)))
  encode_body (remove id) h = (_, refl, put64 id (put_header-Completes format 14 0))
  encode_body (dump name) h = (_, refl, put_text name (put_header-Completes format 15 0))
  encode_body (cluster format_code) h =
      (_, refl, put64 format_code (put_header-Completes format 16 0))
  encode_body (transfer id) h = (_, refl, put64 id (put_header-Completes format 17 0))
  encode_body (describe format_code) h =
      (_, refl, put64 format_code (put_header-Completes format 18 0))
  encode_body (weight w) h = (_, refl, put64 w (put_header-Completes format 19 0))

  -- The body of the message encodes the fields of the call and nothing else, and the header is that of
  -- the request: the number of words of the body, the type and the schema version. The buffer holds the
  -- body, and is of whole words.
  pub record IsEncoded (c : Call Time) (t : Message) : Type 0 where
    pub ready : IsReady t
    pub body : Encodes format 0 (fields c) (content t)
    pub offset : t.body.offset ≡ size format 0 (fields c)
    pub words : t.words ≡ t.body.offset / 8
    pub mtype : t.mtype ≡ (kind c).mtype
    pub schema : t.schema ≡ (kind c).schema
    pub header : t.header ≡ wire_header (t.body.offset / 8) (kind c).mtype (kind c).schema

  -- On every message with a buffer of whole words, not empty, and for every call of an encoder with
  -- valid arguments whose encoding is shorter than 2 ^ 32 bytes, the encoder returns, and the message
  -- then holds the encoding of the call by the schema, body and header.
  pub encode_lem :
      (c : Call Time) (m : Message)
      → IsValid c
      → 0 < length m.body.bytes
      → length m.body.bytes % 8 ≡ 0
      → size format 0 (fields c) < 2 ^ 32
      → (t : Message) × (encode format c m ≡ ok (tt, t)) × IsEncoded c t
  unfolding reset
  encode_lem c m valid pos al small =
      let (a, same, body) = encode_body c valid in
      let (p, q) = size-IsWhole c in
      let ready : IsReady (fresh m) = record {
        positive = pos;
        within = omega arith;
        aligned = al;
      } in
      let (t, e, d) = body.run (fresh m) ready refl p q small in
      (
        t,
        ap (λ f. f m) same ∙ e,
        record {
          ready = d.ready;
          body = subst (Encodes format 0 (fields c)) (sym d.contents) d.encodes;
          offset = d.offset;
          words = d.words ∙ ap (λ n. n / 8) (sym d.offset);
          mtype = d.mtype_set;
          schema = d.schema_set;
          header =
              d.header
              ∙ ap (λ n. wire_header (n / 8) (kind c).mtype (kind c).schema) (sym d.offset);
        },
      )
