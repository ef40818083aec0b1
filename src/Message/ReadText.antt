-- ===== src/Message/ReadText.antt =====
-- getString, getBlob, getNodes and getResult of internal/protocol/message.go read back what the
-- writers' encodings hold.
use go_dqlite.Prelude.{ℕ, zero, ◌+◌, ◌^◌, ◌≤◌, ◌<◌, ◌≡◌, ◌≢◌, refl, ap, sym, subst, ◌∙◌, arith}
use go_dqlite.Prelude.{
  List, [], ◌∷◌, ◌++◌, append_assoc, length, length-append, length-drop, replicate,
  length-replicate,
}
use go_dqlite.Prelude.{take-length_append, All, some, le→ltb, ==-ne}
use go_dqlite.Prelude.Int.{to_uint64, to_int64-to_uint64, to_uint64-lt, IsInt64}
use go_dqlite.Node.{NodeInfo}
use go_dqlite.Message.State.{ok, Message, advance, ◌>>=◌, ◌>>◌}
use go_dqlite.Message.Bytes.{le_bytes, padding}
use go_dqlite.Message.Put.{pad_of}
use go_dqlite.Message.Text.{string_bytes, blob_bytes, length-string_bytes, pad_of-eq-padding}
use go_dqlite.Message.Get.{
  body_size, remaining, index_nul, find_nul, get_string, get_bytes, get_blob, get_node_list,
  get_nodes, get_result, get_strings,
}
use go_dqlite.Message.Reads.{
  Reads, Reads-pure, Reads-bind, Reads-map, buffer_for_get_lem, get_uint8-Reads, get_uint64-Reads,
}

-- A string that the wire can carry: it holds no nul.
abbrev pub HasNoNul : List ℕ → Type 0
HasNoNul = All (λ b. b ≢ 0)

index_nul_lem : (v rest : List ℕ) → HasNoNul v → index_nul (v ++ 0 ∷ rest) ≡ some (length v)
unfolding index_nul
index_nul_lem [] rest h = refl
index_nul_lem (b ∷ v) rest (n, h) = rw (==-ne b 0 n, index_nul_lem v rest h)

find_nul_lem :
    (s : Message) (v rest : List ℕ)
    → HasNoNul v
    → remaining s ≡ v ++ 0 ∷ rest
    → find_nul s ≡ ok (length v, s)
unfolding find_nul
find_nul_lem s v rest h e =
    rw (le→ltb (length s.body.bytes) s.body.offset inside, e, index_nul_lem v rest h)
  where
    inside : s.body.offset ≤ length s.body.bytes
    inside = omega (
      arith,
      length-drop s.body.offset s.body.bytes,
      ap (λ l. length l) e,
      length-append v (0 ∷ rest),
    )

-- getString returns what stands before the first nul, and passes over its padding.
pub get_string_lem :
    (s : Message) (v rest : List ℕ)
    → HasNoNul v
    → s.body.offset < body_size s
    → remaining s ≡ v ++ 0 ∷ rest
    → get_string s ≡ ok (v, advance (length (string_bytes v)) s)
unfolding get_string
get_string_lem s v rest h inside e = rw (
  buffer_for_get_lem s inside,
  ◌>>=◌,
  ◌>>◌,
  find_nul_lem s v rest h e,
  e,
  pad_of-eq-padding,
  take-length_append,
  length-string_bytes v,
)

pub get_string-Reads : (v : List ℕ) → HasNoNul v → Reads get_string (string_bytes v) v
unfolding string_bytes
get_string-Reads v h = record {
  run = λ s rest e fits.
      let z : List ℕ = replicate (padding (length v + 1)) 0 in
      get_string_lem s v (z ++ rest) h (omega (arith, length-string_bytes v))
        (e ∙ append_assoc v (0 ∷ z) rest);
}

pub get_bytes-Reads : (v : List ℕ) → Reads (get_bytes (length v)) v v
unfolding get_bytes
get_bytes-Reads [] = Reads-pure []
get_bytes-Reads (b ∷ v) =
    Reads-bind _ (b ∷ []) v (get_uint8-Reads b) (Reads-map (λ bs. b ∷ bs) v (get_bytes-Reads v))

pub get_blob-Reads : (v : List ℕ) → length v < 2 ^ 64 → Reads get_blob (blob_bytes v) v
unfolding get_blob blob_bytes
get_blob-Reads v h =
    let z : List ℕ = replicate (padding (length v)) 0 in
    let pad : Reads (get_bytes (pad_of (length v))) z z =
      subst (λ n. Reads (get_bytes n) z z)
        (length-replicate {0} (padding (length v)) zero ∙ sym (pad_of-eq-padding (length v)))
        (get_bytes-Reads z) in
    Reads-bind _ (le_bytes 8 (length v)) (v ++ z) (get_uint64-Reads (length v) h)
      (Reads-bind _ v z (get_bytes-Reads v) (Reads-map (λ _. v) z pad))

-- A node that the wire can carry.
pub record IsWireNode (n : NodeInfo) : Type 0 where
  pub id : n.id < 2 ^ 64
  pub address : HasNoNul n.address
  pub role : IsInt64 n.role

-- The encoding of nodes that the server sends: the count, and id, address and role of each.
unfoldable pub node_list_bytes : List NodeInfo → List ℕ
node_list_bytes [] = []
node_list_bytes (n ∷ ns) =
    le_bytes 8 n.id
    ++ (string_bytes n.address ++ (le_bytes 8 (to_uint64 n.role) ++ node_list_bytes ns))

unfoldable pub nodes_bytes : List NodeInfo → List ℕ
unfolding node_list_bytes
nodes_bytes ns = le_bytes 8 (length ns) ++ node_list_bytes ns

get_node_list-Reads :
    (ns : List NodeInfo)
    → All IsWireNode ns
    → Reads (get_node_list (length ns)) (node_list_bytes ns) ns
unfolding get_node_list node_list_bytes
get_node_list-Reads [] h = Reads-pure []
get_node_list-Reads (n ∷ ns) (w, h) =
    Reads-bind _ (le_bytes 8 n.id) _ (get_uint64-Reads n.id w.id) (
      Reads-bind _ (string_bytes n.address) _ (get_string-Reads n.address w.address) (
        Reads-bind _ (le_bytes 8 (to_uint64 n.role)) _
          (get_uint64-Reads (to_uint64 n.role) (to_uint64-lt n.role))
          (rw (to_int64-to_uint64 n.role w.role)
            (Reads-map (λ ms. n ∷ ms) (node_list_bytes ns) (get_node_list-Reads ns h)))))

pub get_nodes-Reads :
    (ns : List NodeInfo)
    → All IsWireNode ns
    → length ns < 2 ^ 63
    → Reads get_nodes (nodes_bytes ns) ns
unfolding get_nodes nodes_bytes
get_nodes-Reads ns h small =
    Reads-bind get_node_list (le_bytes 8 (length ns)) (node_list_bytes ns)
      (get_uint64-Reads (length ns) (omega arith)) (get_node_list-Reads ns h)

pub get_result-Reads :
    (id rows : ℕ)
    → id < 2 ^ 64
    → rows < 2 ^ 64
    → Reads get_result
        (le_bytes 8 id ++ le_bytes 8 rows)
        (record { last_insert_id = id; rows_affected = rows })
unfolding get_result
get_result-Reads id rows h k =
    Reads-bind _ (le_bytes 8 id) (le_bytes 8 rows) (get_uint64-Reads id h) (
      Reads-map (λ r. record { last_insert_id = id; rows_affected = r }) (le_bytes 8 rows)
        (get_uint64-Reads rows k))

abbrev pub strings_bytes : List (List ℕ) → List ℕ
strings_bytes [] = []
strings_bytes (s ∷ ss) = string_bytes s ++ strings_bytes ss

pub get_strings-Reads :
    (ss : List (List ℕ)) → All HasNoNul ss → Reads (get_strings (length ss)) (strings_bytes ss) ss
unfolding get_strings
get_strings-Reads [] h = Reads-pure []
get_strings-Reads (s ∷ ss) (n, h) =
    Reads-bind _ (string_bytes s) (strings_bytes ss) (get_string-Reads s n)
      (Reads-map (λ rest. s ∷ rest) (strings_bytes ss) (get_strings-Reads ss h))
