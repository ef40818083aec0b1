-- ===== src/Message/Get.antt =====
-- The readers of internal/protocol/message.go.
use go_dqlite.Prelude.{ℕ, zero, suc, ◌+◌, ◌-◌, ◌*◌, ◌%◌, ◌^◌, Bool, Option, none, some}
use go_dqlite.Prelude.{List, [], ◌∷◌, length, take, drop, leb, ltb, ◌==◌, if◌then◌else◌}
use go_dqlite.Prelude.Int.{ℤ, to_int64}
use mathlib.Core.Option
use go_dqlite.Node.{NodeInfo}
use go_dqlite.Message.State.{
  Outcome, ok, panic, index, short_message, no_string, Message, Action, ◌>>=◌, ◌>>◌, pure,
  word_size,
}
use go_dqlite.Message.Bytes.{from_le}
use go_dqlite.Message.Put.{do_advance, pad_of}

-- int(m.words * messageWordSize): the product of two uint32 wraps.
abbrev pub body_size : Message → ℕ
body_size m = m.words * word_size % 2 ^ 32

-- The bytes from the offset on, up to the end of the buffer.
abbrev pub remaining : Message → List ℕ
remaining m = drop m.body.offset m.body.bytes

unfoldable pub has_been_consumed : Message → Bool
has_been_consumed m = m.body.offset == body_size m

-- Message.lastByte. An index of -1 panics too.
unfoldable pub last_byte : Message → Outcome ℕ
last_byte m =
    if body_size m == 0
    then panic index
    else elim (drop (body_size m - 1) m.body.bytes) [ [] ↦ panic index | b ∷ _ ↦ ok b ]

unfoldable pub buffer_for_get : Action (Unit {0})
buffer_for_get m = if m.body.offset == body_size m then panic short_message else ok (tt, m)

-- bs[offset], for the bytes of the body.
abbrev pub load_byte : Action ℕ
load_byte m = elim (remaining m) [ [] ↦ panic index | b ∷ _ ↦ ok (b, m) ]

-- LittleEndian.Uint on bs[offset:], of a number of `w` bytes.
abbrev pub load_le : ℕ → Action ℕ
load_le w m =
    if leb w (length (remaining m)) then ok (from_le (take w (remaining m)), m) else panic index

unfoldable pub get_uint8 : Action ℕ
get_uint8 = do buffer_for_get; b ← load_byte; do_advance 1; pure b

unfoldable pub get_uint16 : Action ℕ
get_uint16 = do buffer_for_get; v ← load_le 2; do_advance 2; pure v

unfoldable pub get_uint32 : Action ℕ
get_uint32 = do buffer_for_get; v ← load_le 4; do_advance 4; pure v

unfoldable pub get_uint64 : Action ℕ
get_uint64 = do buffer_for_get; v ← load_le 8; do_advance 8; pure v

unfoldable pub get_int64 : Action ℤ
get_int64 = do v ← get_uint64; pure (to_int64 v)

-- A float64 is its bit pattern.
unfoldable pub get_float64 : Action ℕ
get_float64 = get_uint64

-- bytes.IndexByte(bs, 0)
unfoldable pub index_nul : List ℕ → Option ℕ
index_nul [] = none
index_nul (b ∷ bs) =
    let rest : Option ℕ = Option.map suc (index_nul bs) in if b == 0 then some 0 else rest

-- The search of getString, in the bytes from the offset to the end of the buffer.
unfoldable pub find_nul : Action ℕ
unfolding index_nul
find_nul m =
    if ltb (length m.body.bytes) m.body.offset
    then panic index
    else elim (index_nul (remaining m)) [ none ↦ panic no_string | some i ↦ ok (i, m) ]

abbrev pub get_remaining : Action (List ℕ)
get_remaining m = ok (remaining m, m)

-- Message.getString; the padding is counted as in pad_of.
unfoldable pub get_string : Action (List ℕ)
get_string = do
  buffer_for_get
  i ← find_nul
  bs ← get_remaining
  do_advance (i + 1 + pad_of (i + 1))
  pure (take i bs)

-- `n` calls of getUint8.
unfoldable pub get_bytes : ℕ → Action (List ℕ)
get_bytes zero = pure []
get_bytes (suc n) = do b ← get_uint8; bs ← get_bytes n; pure (b ∷ bs)

unfoldable pub get_blob : Action (List ℕ)
get_blob = do size ← get_uint64; bs ← get_bytes size; _ ← get_bytes (pad_of size); pure bs

-- The loop of getNodes.
unfoldable pub get_node_list : ℕ → Action (List NodeInfo)
get_node_list zero = pure []
get_node_list (suc n) = do
  id ← get_uint64
  address ← get_string
  role ← get_uint64
  nodes ← get_node_list n
  pure (record { id = id; address = address; role = to_int64 role } ∷ nodes)

unfoldable pub get_nodes : Action (List NodeInfo)
get_nodes = do n ← get_uint64; get_node_list n

pub record Result : Type 0 where
  pub last_insert_id : ℕ
  pub rows_affected : ℕ

unfoldable pub get_result : Action Result
get_result = do
  id ← get_uint64
  rows ← get_uint64
  pure (record { last_insert_id = id; rows_affected = rows })

-- `n` calls of getString.
unfoldable pub get_strings : ℕ → Action (List (List ℕ))
get_strings zero = pure []
get_strings (suc n) = do s ← get_string; ss ← get_strings n; pure (s ∷ ss)
