-- ===== src/Message/Put.antt =====
-- The writers of internal/protocol/message.go.
use go_dqlite.Prelude.{ℕ, zero, suc, ◌+◌, ◌-◌, ◌*◌, ◌/◌, ◌%◌, ◌^◌, not}
use go_dqlite.Prelude.{List, [], ◌∷◌, length, replicate, set, leb, ltb, ◌==◌, if◌then◌else◌}
use go_dqlite.Message.State.{
  Outcome, ok, panic, stuck, index, not_positive, not_aligned, empty_body, Action, ◌>>=◌, ◌>>◌,
  pure, fail, advance, word_size,
}
use go_dqlite.Message.Bytes.{le_bytes}

-- The built-in copy(bs[offset:], vs): it stops at the end of the shorter slice.
unfoldable pub copy_at : List ℕ → ℕ → List ℕ → List ℕ
copy_at [] offset vs = []
copy_at (b ∷ bs) (suc offset) vs = b ∷ copy_at bs offset vs
copy_at (b ∷ bs) zero [] = b ∷ bs
copy_at (b ∷ bs) zero (v ∷ vs) = v ∷ copy_at bs zero vs

-- copy(bs[offset:], vs), where the slice may be out of range.
abbrev pub store_copy : List ℕ → ℕ → List ℕ → Outcome (List ℕ)
store_copy bs offset vs = if leb offset (length bs) then ok (copy_at bs offset vs) else panic index

-- bs[offset] = v
abbrev pub store_at : List ℕ → ℕ → ℕ → Outcome (List ℕ)
store_at bs offset v = if ltb offset (length bs) then ok (set bs offset v) else panic index

-- LittleEndian.PutUint on bs[offset:], of a number of `w` bytes.
abbrev pub store_le : List ℕ → ℕ → ℕ → ℕ → Outcome (List ℕ)
store_le bs offset w v =
    if leb (offset + w) (length bs) then ok (copy_at bs offset (le_bytes w v)) else panic index

-- The loop of bufferForPut: it doubles the bytes until `need` of them fit, in `fuel` rounds at most.
unfoldable pub grow : ℕ → ℕ → List ℕ → Outcome (List ℕ)
unfolding copy_at
grow zero need bs = if leb need (length bs) then ok bs else stuck
grow (suc fuel) need bs =
    let rest = grow fuel need (copy_at (replicate (length bs * 2) 0) 0 bs) in
    if leb need (length bs) then ok bs else rest

-- Message.bufferForPut. A buffer that is not empty fits after fewer than `need` rounds, and an empty
-- one never does.
unfoldable pub buffer_for_put : ℕ → Action (Unit {0})
unfolding grow
buffer_for_put size m = elim (grow (m.body.offset + size) (m.body.offset + size) m.body.bytes) [
  | ok bs ↦ ok (tt, record m { body = record m.body { bytes = bs } })
  | panic p ↦ panic p
  | stuck ↦ stuck
]

-- A write to the bytes of the body, which may panic.
abbrev pub update_bytes : (List ℕ → Outcome (List ℕ)) → Action (Unit {0})
update_bytes f m = elim (f m.body.bytes) [
  | ok bs ↦ ok (tt, record m { body = record m.body { bytes = bs } })
  | panic p ↦ panic p
  | stuck ↦ stuck
]

abbrev pub get_offset : Action ℕ
get_offset m = ok (m.body.offset, m)

abbrev pub do_advance : ℕ → Action (Unit {0})
do_advance amount m = ok (tt, advance amount m)

-- The loop that writes `pad` zeros from `offset` on.
unfoldable pub zero_fill : ℕ → ℕ → Action (Unit {0})
zero_fill zero offset = pure tt
zero_fill (suc pad) offset = update_bytes (λ bs. store_at bs offset 0) >> zero_fill pad (offset + 1)

-- The padding that putBlob and putString compute for a size.
abbrev pub pad_of : ℕ → ℕ
pad_of size = if size % word_size == 0 then 0 else word_size - size % word_size

-- Message.putUint8; the wider words are written by one call of encoding/binary each.
unfoldable pub put_uint8 : ℕ → Action (Unit {0})
put_uint8 v = do
  buffer_for_put 1
  offset ← get_offset
  update_bytes (λ bs. store_at bs offset v)
  do_advance 1

unfoldable pub put_uint16 : ℕ → Action (Unit {0})
put_uint16 v = do
  buffer_for_put 2
  offset ← get_offset
  update_bytes (λ bs. store_le bs offset 2 v)
  do_advance 2

unfoldable pub put_uint32 : ℕ → Action (Unit {0})
put_uint32 v = do
  buffer_for_put 4
  offset ← get_offset
  update_bytes (λ bs. store_le bs offset 4 v)
  do_advance 4

unfoldable pub put_uint64 : ℕ → Action (Unit {0})
put_uint64 v = do
  buffer_for_put 8
  offset ← get_offset
  update_bytes (λ bs. store_le bs offset 8 v)
  do_advance 8

-- Message.putBlob
unfoldable pub put_blob : List ℕ → Action (Unit {0})
put_blob v = do
  let size = length v
  put_uint64 size
  let pad = pad_of size
  buffer_for_put (size + pad)
  offset ← get_offset
  update_bytes (λ bs. store_copy bs offset v)
  zero_fill pad (offset + size)
  do_advance (size + pad)

-- Message.putString; a string is its bytes.
unfoldable pub put_string : List ℕ → Action (Unit {0})
put_string v = do
  let size = length v + 1
  let pad = pad_of size
  buffer_for_put (size + pad)
  offset ← get_offset
  update_bytes (λ bs. store_copy bs offset v)
  update_bytes (λ bs. store_at bs (offset + length v) 0)
  zero_fill pad (offset + length v + 1)
  do_advance (size + pad)

-- A write to the statically allocated header, which may panic.
abbrev pub update_header : (List ℕ → Outcome (List ℕ)) → Action (Unit {0})
update_header f m = elim (f m.header) [
  | ok bs ↦ ok (tt, record m { header = bs })
  | panic p ↦ panic p
  | stuck ↦ stuck
]

-- Message.finalize, on a message with these words, type, schema and extra.
unfoldable pub finalize : ℕ → ℕ → ℕ → ℕ → Action (Unit {0})
finalize words mtype schema extra = if words == 0 then fail empty_body else do
  update_header (λ bs. store_le bs 0 4 words)
  update_header (λ bs. store_at bs 4 mtype)
  update_header (λ bs. store_at bs 5 schema)
  update_header (λ bs. store_le bs 6 2 extra)

-- Message.putHeader. The conversion uint32(m.body.Offset) wraps.
unfoldable pub put_header : ℕ → ℕ → Action (Unit {0})
put_header mtype schema m =
    if leb m.body.offset 0
    then panic not_positive
    else if not (m.body.offset % word_size == 0)
    then panic not_aligned
    else let words = m.body.offset % 2 ^ 32 / word_size in
      finalize words mtype schema 0
        (record m { mtype = mtype; schema = schema; extra = 0; words = words })
