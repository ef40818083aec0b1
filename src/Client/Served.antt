-- ===== src/Client/Served.antt =====
-- Requests of client/client.go against a server that answers them.
use go_dqlite.Prelude.{ℕ, ◌*◌, ◌^◌, ◌<◌, ◌≡◌, refl, ap, sym, ◌∙◌, arith, Option, none}
use go_dqlite.Prelude.{
  List, [], ◌++◌, length, All, Bool, true, false, inl, inr, Bool-cases, if◌then◌else◌,
}
use go_dqlite.Prelude.Int.{to_uint64}
use go_dqlite.Node.{NodeInfo, spare}
use go_dqlite.App.Roles.{role_eq}
use go_dqlite.Message.State.{ok, Message, advance, ◌>>=◌, pure}
use go_dqlite.Message.Header.{wire_header, size}
use go_dqlite.Message.Bytes.{le_bytes, length-le_bytes}
use go_dqlite.Message.Writes.{content}
use go_dqlite.Message.ReadText.{HasNoNul, IsWireNode, nodes_bytes}
use go_dqlite.Message.Text.{string_bytes}
use go_dqlite.Message.Get.{get_uint64}
use go_dqlite.Protocol.Schema.{Call, fields, encode}
use go_dqlite.Protocol.Encoding.{IsValid, IsEncoded}
use go_dqlite.Protocol.Response.{decode_nodes, decode_empty, request}
use go_dqlite.Protocol.Connection.{Connection}
use go_dqlite.Protocol.Decoding.{decode_nodes_lem, decode_empty_lem, decode_of_failure}
use go_dqlite.Protocol.Exchange.{IsServer, IsReceived-Received}
use go_dqlite.Protocol.Session.{
  Session, Try, return, raise, decoding, decode_from, bind_return, decode_from-return,
}
use go_dqlite.Client.Answered.{no_times, with_messages_lem}
use go_dqlite.Client.{update, cluster, add, assign, after_add}
use go_dqlite.Protocol.Constants.{cluster_format_v1, response_empty}
use go_dqlite.Protocol.Schema

if_true : {A : Type 0} {b : Bool} (x y : A) → b ≡ true → (if b then x else y) ≡ x
if_true x y e = rw e refl

if_false : {A : Type 0} {b : Bool} (x y : A) → b ≡ false → (if b then x else y) ≡ y
if_false x y e = rw e refl

-- The body of a failure response.
abbrev pub failure_bytes : ℕ → List ℕ → List ℕ
failure_bytes code description = le_bytes 8 code ++ string_bytes description

-- What a server may answer to a request without a result: an empty response, or a failure.
pub data Verdict : Type 0 where
  accepted : Verdict
  refused : (words code : ℕ) (description : List ℕ) → Verdict

abbrev pub verdict_bytes : Verdict → List ℕ
verdict_bytes accepted = wire_header 1 8 0 ++ le_bytes 8 0
verdict_bytes (refused words code description) =
    wire_header words 0 0 ++ failure_bytes code description

-- A failure of whole words, with a code of 64 bits and a description without a nul.
abbrev pub IsSendable : Verdict → Type 0
IsSendable accepted = Unit
IsSendable (refused words code description) =
    (words < 2 ^ 29)
    × (length (failure_bytes code description) ≡ words * 8)
    × (code < 2 ^ 64)
    × HasNoNul description

abbrev pub verdict_result : {Err : Type 0} → Verdict → Try Err (Unit {0})
verdict_result accepted = return tt
verdict_result (refused words code description) = raise (decoding (request code description))

module _ {Net Err : Type 0} (conn : Connection Net Err) (pending : Net → List ℕ)
    (answer : List ℕ → List ℕ → List ℕ) (sv : IsServer conn pending answer) where
  -- On a connection without an error and with nothing pending, to a server that answers the request for
  -- the cluster with the encoding of fewer than 2 ^ 63 nodes that the wire can carry, of whole words and
  -- shorter than 2 ^ 32 bytes, Client.Cluster returns the nodes in their order, leaves the protocol as
  -- it is, and nothing pending.
  pub cluster_lem :
      (deadline : Option ℕ) (ns : List NodeInfo) (words : ℕ) (s : Session Net Err)
      → All IsWireNode ns
      → length ns < 2 ^ 63
      → words * 8 < 2 ^ 32
      → length (nodes_bytes ns) ≡ words * 8
      → s.protocol.net_err ≡ none
      → pending s.net ≡ []
      → ((t : Message)
          → IsEncoded no_times (Schema.cluster cluster_format_v1) t
          → answer t.header (content t) ≡ wire_header words 3 0 ++ nodes_bytes ns)
      → (t : Session Net Err) × (cluster conn deadline s ≡ ok (return ns, t))
        × (t.protocol ≡ s.protocol)
        × (pending t.net ≡ [])
  unfolding cluster encode
  cluster_lem deadline ns words s h small w l n p served =
      let (t, e, a) =
        with_messages_lem conn pending answer sv deadline 16 512 (Schema.cluster cluster_format_v1)
          (decode_from decode_nodes) s words 3 (nodes_bytes ns) tt (omega arith) refl (omega arith)
          refl (omega arith) n p (omega arith) l served in
      let g =
        decode_nodes_lem ns t.response h small
          (IsReceived-Received words 3 0 (nodes_bytes ns) t.response w l a.received) in
      (
        record t { response = advance (length (nodes_bytes ns)) t.response },
        e ∙ decode_from-return t decode_nodes g,
        a.kept,
        a.drained,
      )

  -- A request that the server answers with an empty response.
  pub update_lem :
      (deadline : Option ℕ) (c : Call (Unit {0})) (unused : ℕ) (s : Session Net Err)
      → IsValid c
      → size no_times 0 (fields c) < 2 ^ 32
      → unused < 2 ^ 64
      → s.protocol.net_err ≡ none
      → pending s.net ≡ []
      → ((t : Message)
          → IsEncoded no_times c t
          → answer t.header (content t) ≡ wire_header 1 8 0 ++ le_bytes 8 unused)
      → (t : Session Net Err) × (update conn deadline (encode no_times c) s ≡ ok (return tt, t))
        × (t.protocol ≡ s.protocol)
        × (pending t.net ≡ [])
  unfolding update
  update_lem deadline c unused s v small u n p served =
      let (t, e, a) =
        with_messages_lem conn pending answer sv deadline 4096 4096 c (decode_from decode_empty) s 1
          8 (le_bytes 8 unused) v (omega arith) refl (omega arith) refl small n p (omega arith)
          (length-le_bytes 8 unused) served in
      let g = decode_empty_lem unused t.response u (
        IsReceived-Received 1 8 0 (le_bytes 8 unused) t.response (omega arith)
          (length-le_bytes 8 unused) a.received) in
      (
        record t { response = advance (length (le_bytes 8 unused)) t.response },
        e ∙ decode_from-return t decode_empty g,
        a.kept,
        a.drained,
      )

  -- A request that the server refuses.
  refused_lem :
      (deadline : Option ℕ) (c : Call (Unit {0})) (words code : ℕ) (description : List ℕ)
      (s : Session Net Err)
      → IsValid c
      → size no_times 0 (fields c) < 2 ^ 32
      → words < 2 ^ 29
      → length (failure_bytes code description) ≡ words * 8
      → code < 2 ^ 64
      → HasNoNul description
      → s.protocol.net_err ≡ none
      → pending s.net ≡ []
      → ((t : Message)
          → IsEncoded no_times c t
          → answer t.header (content t) ≡ wire_header words 0 0 ++ failure_bytes code description)
      → (t : Session Net Err) × (update conn deadline (encode no_times c) s
          ≡ ok (raise (decoding (request code description)), t))
        × (t.protocol ≡ s.protocol)
        × (pending t.net ≡ [])
  unfolding update decode_empty
  refused_lem deadline c words code description s v small w l u nul n p served =
      let (t, e, a) =
        with_messages_lem conn pending answer sv deadline 4096 4096 c (decode_from decode_empty) s
          words 0 (failure_bytes code description) v (omega arith) refl (omega arith) refl small n p
          (omega arith) l served in
      let g =
        decode_of_failure response_empty (get_uint64 >>= λ _. pure tt) code description t.response u
          nul
          (IsReceived-Received words 0 0 (failure_bytes code description) t.response (omega arith) l
            a.received) in
      (
        record t { response = advance (length (failure_bytes code description)) t.response },
        e ∙ decode_from-return t decode_empty g,
        a.kept,
        a.drained,
      )

  verdict_lem :
      (deadline : Option ℕ) (c : Call (Unit {0})) (verdict : Verdict) (s : Session Net Err)
      → IsValid c
      → size no_times 0 (fields c) < 2 ^ 32
      → IsSendable verdict
      → s.protocol.net_err ≡ none
      → pending s.net ≡ []
      → ((t : Message)
          → IsEncoded no_times c t
          → answer t.header (content t) ≡ verdict_bytes verdict)
      → (t : Session Net Err) × (update conn deadline (encode no_times c) s
          ≡ ok (verdict_result verdict, t))
        × (t.protocol ≡ s.protocol)
        × (pending t.net ≡ [])
  verdict_lem deadline c accepted s v small sendable n p served =
      update_lem deadline c 0 s v small (omega arith) n p served
  verdict_lem deadline c (refused words code description) s v small (w, l, u, nul) n p served =
      refused_lem deadline c words code description s v small w l u nul n p served

  pub add_lem :
      (deadline : Option ℕ) (node : NodeInfo) (verdict : Verdict) (s : Session Net Err)
      → size no_times 0 (fields (Schema.add node.id node.address)) < 2 ^ 32
      → IsSendable verdict
      → s.protocol.net_err ≡ none
      → pending s.net ≡ []
      → ((t : Message)
          → IsEncoded no_times (Schema.add node.id node.address) t
          → answer t.header (content t) ≡ verdict_bytes accepted)
      → ((t : Message)
          → IsEncoded no_times (Schema.assign node.id (to_uint64 node.role)) t
          → answer t.header (content t) ≡ verdict_bytes verdict)
      → (t : Session Net Err) × (add conn deadline node s
          ≡ ok (if role_eq node.role spare then return tt else verdict_result verdict, t))
        × (t.protocol ≡ s.protocol)
        × (pending t.net ≡ [])
  unfolding add after_add assign encode
  add_lem deadline node verdict s small sendable n p added assigned =
      let (t, e, k, d) =
        update_lem deadline (Schema.add node.id node.address) 0 s tt small (omega arith) n p
          added in
      let first : add conn deadline node s ≡ after_add conn deadline node t =
        bind_return (update conn deadline (encode no_times (Schema.add node.id node.address))) _
          {s = s} e in
      elim (Bool-cases (role_eq node.role spare)) [
        | inl r ↦ (
          t,
          first
              ∙ rw r refl
              ∙ ap (λ x. ok (x, t)) (sym (if_true (return tt) (verdict_result verdict) r)),
          k,
          d,
        )
        | inr r ↦
            let (t', e', k', d') =
              verdict_lem deadline (Schema.assign node.id (to_uint64 node.role)) verdict t tt
                (omega arith) sendable (ap (λ p. p.net_err) k ∙ n) d assigned in
            (
              t',
              first
                  ∙ rw r e'
                  ∙ ap (λ x. ok (x, t')) (sym (if_false (return tt) (verdict_result verdict) r)),
              k' ∙ k,
              d',
            )
      ]
