-- ===== src/Protocol/Decoding.antt =====
-- What the decoders of internal/protocol/response.go make of the bytes that a server sends.
use go_dqlite.Prelude.{ℕ, ◌+◌, ◌^◌, ◌≤◌, ◌<◌, ◌≡◌, ◌≢◌, sym, ◌∙◌, arith, List, ◌++◌, length, All}
use go_dqlite.Prelude.{==-ne, ==_of_eq}
use go_dqlite.Node.{NodeInfo}
use go_dqlite.Message.State.{ok, Message, Action, ◌>>=◌, pure, advance}
use go_dqlite.Message.Action.{bind_ok}
use go_dqlite.Message.Bytes.{le_bytes}
use go_dqlite.Message.Text.{string_bytes}
use go_dqlite.Message.Get.{body_size, remaining, get_string}
use go_dqlite.Message.Reads.{Reads, Reads-bind, Reads-map, get_uint32-Reads, get_uint64-Reads}
use go_dqlite.Message.ReadText.{
  HasNoNul, get_string-Reads, IsWireNode, nodes_bytes, get_nodes-Reads, get_result-Reads,
}
use go_dqlite.Protocol.Constants.{
  response_node, response_welcome, response_nodes, response_db, response_stmt, response_result,
  response_metadata, response_empty,
}
use go_dqlite.Protocol.Response.{
  request, Reply, value, error, decode, decode_failure, decode_welcome, decode_node, decode_nodes,
  decode_db, decode_stmt, decode_result, decode_metadata, decode_empty,
}

-- A received message of this type, whose body begins with `enc` at the offset.
pub record Received (mtype : ℕ) (enc : List ℕ) (m : Message) : Type 0 where
  pub rest : List ℕ
  pub mtype_is : m.mtype ≡ mtype
  pub bytes : remaining m ≡ enc ++ rest
  pub fits : m.body.offset + length enc ≤ body_size m

-- `decode` returns `a` from a body that begins with `enc`, and stands behind it.
abbrev pub Decodes : {A : Type 0} → Action (Reply A) → ℕ → List ℕ → A → Type 0
Decodes get mtype enc a =
    (m : Message) → Received mtype enc m → get m ≡ ok (value a, advance (length enc) m)

decode-Decodes :
    {A : Type 0} (mtype : ℕ) {get : Action A} (enc : List ℕ) (a : A)
    → mtype ≢ 0
    → Reads get enc a
    → Decodes (decode mtype get) mtype enc a
unfolding decode
decode-Decodes mtype {get} enc a n r m h =
    rw (==-ne m.mtype 0 (λ e. n (sym h.mtype_is ∙ e)), ==_of_eq m.mtype mtype h.mtype_is)
      (bind_ok get (λ x. pure (value x)) (r.run m h.rest h.bytes h.fits))

-- From a failure response with a code of 64 bits and a description without a nul every decoder
-- returns the error with this code and description.
pub decode_of_failure :
    {A : Type 0} (expected : ℕ) (get : Action A) (code : ℕ) (description : List ℕ) (m : Message)
    → code < 2 ^ 64
    → HasNoNul description
    → Received 0 (le_bytes 8 code ++ string_bytes description) m
    → decode expected get m
      ≡ ok (
        error (request code description),
        advance (length (le_bytes 8 code ++ string_bytes description)) m,
      )
unfolding decode
decode_of_failure {A} expected get code description m small nul h =
    let failed : ℕ → List ℕ → Reply A = λ c d. error (request c d) in
    let read =
      Reads-bind (λ c. get_string >>= λ d. pure (failed c d)) (le_bytes 8 code)
        (string_bytes description) (get_uint64-Reads code small)
        (Reads-map (failed code) (string_bytes description) (get_string-Reads description nul)) in
    rw (==_of_eq m.mtype 0 h.mtype_is) (read.run m h.rest h.bytes h.fits)

-- A decoder returns a value only from a message of its type that is not a failure, and the value is
-- then what its getters return.
pub decode_of_value :
    {A : Type 0} (expected : ℕ) (get : Action A) (m t : Message) (v : A)
    → decode expected get m ≡ ok (value v, t)
    → (m.mtype ≢ 0) × (m.mtype ≡ expected) × (get m ≡ ok (v, t))
unfolding decode
decode_of_value expected get m t v e = ground arith

-- What the server sends as each response, by schema.go.
abbrev pub word64 : ℕ → List ℕ
word64 = le_bytes 8

abbrev pub word32 : ℕ → List ℕ
word32 = le_bytes 4

-- From a message of the type Nodes whose body begins, at the offset, with the encoding of fewer
-- than 2 ^ 63 nodes that the wire can carry, DecodeNodes returns the nodes in their order.
pub decode_nodes_lem :
    (ns : List NodeInfo) (m : Message)
    → All IsWireNode ns
    → length ns < 2 ^ 63
    → Received response_nodes (nodes_bytes ns) m
    → decode_nodes m ≡ ok (value ns, advance (length (nodes_bytes ns)) m)
unfolding decode_nodes
decode_nodes_lem ns m h k =
    decode-Decodes 3 (nodes_bytes ns) ns (omega arith) (get_nodes-Reads ns h k) m

-- From a message of the type Node whose body begins, at the offset, with an ID of 64 bits and an
-- address without a nul, DecodeNode returns both.
pub decode_node_lem :
    (id : ℕ) (address : List ℕ) (m : Message)
    → id < 2 ^ 64
    → HasNoNul address
    → Received response_node (word64 id ++ string_bytes address) m
    → decode_node m
      ≡ ok (value (id, address), advance (length (word64 id ++ string_bytes address)) m)
unfolding decode_node
decode_node_lem id address m h k =
    decode-Decodes 1 (word64 id ++ string_bytes address) (id, address) (omega arith)
      (Reads-bind _ (word64 id) (string_bytes address) (get_uint64-Reads id h)
        (Reads-map (λ a. (id, a)) (string_bytes address) (get_string-Reads address k)))
      m

-- From a message of the type Welcome whose body begins, at the offset, with a timeout of 64 bits,
-- DecodeWelcome returns it.
pub decode_welcome_lem :
    (timeout : ℕ) (m : Message)
    → timeout < 2 ^ 64
    → Received response_welcome (word64 timeout) m
    → decode_welcome m ≡ ok (value timeout, advance (length (word64 timeout)) m)
unfolding decode_welcome
decode_welcome_lem timeout m h =
    decode-Decodes 2 (word64 timeout) timeout (omega arith) (get_uint64-Reads timeout h) m

-- From a message of the type Stmt whose body begins, at the offset, with a database and a
-- statement of 32 bits and a number of parameters of 64, DecodeStmt returns the three.
pub decode_stmt_lem :
    (db id params : ℕ) (m : Message)
    → db < 2 ^ 32
    → id < 2 ^ 32
    → params < 2 ^ 64
    → Received response_stmt (word32 db ++ (word32 id ++ word64 params)) m
    → decode_stmt m
      ≡ ok (value (db, id, params), advance (length (word32 db ++ (word32 id ++ word64 params))) m)
unfolding decode_stmt
decode_stmt_lem db id params m h k l =
    decode-Decodes 5 (word32 db ++ (word32 id ++ word64 params)) (db, id, params) (omega arith)
      (Reads-bind _ (word32 db) (word32 id ++ word64 params) (get_uint32-Reads db h) (
        Reads-bind _ (word32 id) (word64 params) (get_uint32-Reads id k)
          (Reads-map (λ p. (db, id, p)) (word64 params) (get_uint64-Reads params l))))
      m

-- From a message of the type Db whose body begins, at the offset, with two words of 32 bits,
-- DecodeDb returns the first as the database and reads the unused second too.
pub decode_db_lem :
    (id unused : ℕ) (m : Message)
    → id < 2 ^ 32
    → unused < 2 ^ 32
    → Received response_db (word32 id ++ word32 unused) m
    → decode_db m ≡ ok (value id, advance (length (word32 id ++ word32 unused)) m)
unfolding decode_db
decode_db_lem id unused m h k =
    decode-Decodes 4 (word32 id ++ word32 unused) id (omega arith)
      (Reads-bind _ (word32 id) (word32 unused) (get_uint32-Reads id h)
        (Reads-map (λ _. id) (word32 unused) (get_uint32-Reads unused k)))
      m

-- From a message of the type Result whose body begins, at the offset, with two words of 64 bits,
-- DecodeResult returns them as the last insert ID and the affected rows, in this order.
pub decode_result_lem :
    (id rows : ℕ) (m : Message)
    → id < 2 ^ 64
    → rows < 2 ^ 64
    → Received response_result (word64 id ++ word64 rows) m
    → decode_result m
      ≡ ok (
        value (record { last_insert_id = id; rows_affected = rows }),
        advance (length (word64 id ++ word64 rows)) m,
      )
unfolding decode_result
decode_result_lem id rows m h k =
    decode-Decodes 6 (word64 id ++ word64 rows) _ (omega arith) (get_result-Reads id rows h k) m

-- From a message of the type Metadata whose body begins, at the offset, with two words of 64
-- bits, DecodeMetadata returns them as the failure domain and the weight.
pub decode_metadata_lem :
    (domain weight : ℕ) (m : Message)
    → domain < 2 ^ 64
    → weight < 2 ^ 64
    → Received response_metadata (word64 domain ++ word64 weight) m
    → decode_metadata m
      ≡ ok (value (domain, weight), advance (length (word64 domain ++ word64 weight)) m)
unfolding decode_metadata
decode_metadata_lem domain weight m h k =
    decode-Decodes 10 (word64 domain ++ word64 weight) (domain, weight) (omega arith)
      (Reads-bind _ (word64 domain) (word64 weight) (get_uint64-Reads domain h)
        (Reads-map (λ w. (domain, w)) (word64 weight) (get_uint64-Reads weight k)))
      m

-- DecodeFailure never returns a code and a description as its values.
pub decode_failure-ne-value : (m t : Message) (v : ℕ × List ℕ) → decode_failure m ≢ ok (value v, t)
unfolding decode_failure decode
decode_failure-ne-value m t v = ground arith

-- An empty response has one word that is not used.
pub decode_empty_lem :
    (unused : ℕ) (m : Message)
    → unused < 2 ^ 64
    → Received response_empty (word64 unused) m
    → decode_empty m ≡ ok (value tt, advance (length (word64 unused)) m)
unfolding decode_empty
decode_empty_lem unused m h =
    decode-Decodes 8 (word64 unused) tt (omega arith)
      (Reads-map (λ _. tt) (word64 unused) (get_uint64-Reads unused h)) m
