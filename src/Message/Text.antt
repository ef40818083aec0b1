-- ===== src/Message/Text.antt =====
-- The writers of blobs and strings, with their terminator and their padding to a whole word.
use go_dqlite.Prelude.{ℕ, zero, suc, ◌+◌, ◌≤◌, ◌<◌, ◌≡◌, ap, sym, ◌∙◌, arith}
use go_dqlite.Prelude.{List, [], ◌∷◌, ◌++◌, append_assoc, replicate, length-replicate}
use go_dqlite.Prelude.{length, length-append, le→leb, lt→ltb}
use go_dqlite.Message.State.{ok, Message, Action, ◌>>=◌, ◌>>◌}
use go_dqlite.Message.Action.{bind_ok}
use go_dqlite.Message.Bytes.{le_bytes, length-le_bytes, padding}
use go_dqlite.Message.Put.{
  copy_at, get_offset, do_advance, store_copy, store_at, update_bytes, buffer_for_put, zero_fill,
  pad_of, put_blob, put_string,
}
use go_dqlite.Message.Copy.{length-copy_at, copy_at-copy_at, set-eq-copy_at, copy_at-nil}
use go_dqlite.Message.Writes.{Writes, Writes-seq}
use go_dqlite.Message.Grow.{buffer_for_put_lem}
use go_dqlite.Message.Words.{written, Appends-written, put_uint64-Writes}

pub pad_of-eq-padding : (n : ℕ) → pad_of n ≡ padding n
unfolding padding
pad_of-eq-padding n = ground arith

abbrev with_bytes : List ℕ → Message → Message
with_bytes bs t = record t { body = record t.body { bytes = bs } }

store_copy_lem :
    (vs : List ℕ) (o : ℕ) (t : Message)
    → o ≤ length t.body.bytes
    → update_bytes (λ bs. store_copy bs o vs) t ≡ ok (tt, with_bytes (copy_at t.body.bytes o vs) t)
store_copy_lem vs o t h = rw (update_bytes, le→leb o (length t.body.bytes) h)

store_at_lem :
    (v o : ℕ) (t : Message)
    → o < length t.body.bytes
    → update_bytes (λ bs. store_at bs o v) t
      ≡ ok (tt, with_bytes (copy_at t.body.bytes o (v ∷ [])) t)
store_at_lem v o t h = rw (update_bytes, lt→ltb o (length t.body.bytes) h, set-eq-copy_at)

zero_fill_lem :
    (pad o : ℕ) (t : Message)
    → o + pad ≤ length t.body.bytes
    → zero_fill pad o t ≡ ok (tt, with_bytes (copy_at t.body.bytes o (replicate pad 0)) t)
unfolding zero_fill
zero_fill_lem zero o t h = ap (λ bs. ok (tt, with_bytes bs t)) (sym (copy_at-nil t.body.bytes o))
zero_fill_lem (suc pad) o t h =
    let one = copy_at t.body.bytes o (0 ∷ []) in
    bind_ok (update_bytes (λ bs. store_at bs o 0)) (λ _. zero_fill pad (o + 1))
      (store_at_lem 0 o t (omega arith))
    ∙ zero_fill_lem pad (o + 1) (with_bytes one t)
        (omega (arith, length-copy_at t.body.bytes o (0 ∷ [])))
    ∙ ap (λ bs. ok (tt, with_bytes bs t))
        (copy_at-copy_at t.body.bytes o (0 ∷ []) (replicate pad 0))

-- The bytes of a string: its own, a nul and the padding.
unfoldable pub string_bytes : List ℕ → List ℕ
string_bytes v = v ++ 0 ∷ replicate (padding (length v + 1)) 0

-- The bytes of a blob: its length, its own and the padding.
unfoldable pub blob_bytes : List ℕ → List ℕ
blob_bytes v = le_bytes 8 (length v) ++ (v ++ replicate (padding (length v)) 0)

pub length-string_bytes :
    (v : List ℕ) → length (string_bytes v) ≡ length v + 1 + padding (length v + 1)
unfolding string_bytes
length-string_bytes v =
    let z : List ℕ = replicate (padding (length v + 1)) 0 in
    omega (arith, length-append v (0 ∷ z), length-replicate {0} (padding (length v + 1)) zero)

pub length-blob_bytes : (v : List ℕ) → length (blob_bytes v) ≡ 8 + length v + padding (length v)
unfolding blob_bytes
length-blob_bytes v =
    let z : List ℕ = replicate (padding (length v)) 0 in
    omega (
      arith,
      length-append (le_bytes 8 (length v)) (v ++ z),
      length-le_bytes 8 (length v),
      length-append v z,
      length-replicate {0} (padding (length v)) zero,
    )

copy_text :
    (bs : List ℕ) (o : ℕ) (v z : List ℕ)
    → copy_at (copy_at (copy_at bs o v) (o + length v) (0 ∷ [])) (o + length v + 1) z
      ≡ copy_at bs o (v ++ 0 ∷ z)
copy_text bs o v z =
    let behind : o + length v + 1 ≡ o + length (v ++ 0 ∷ []) =
      omega (arith, length-append v (0 ∷ [])) in
    rw (copy_at-copy_at bs o v (0 ∷ []), behind, copy_at-copy_at bs o (v ++ 0 ∷ []) z, append_assoc)

pub put_string-Writes : (v : List ℕ) → Writes (put_string v) (string_bytes v)
unfolding put_string written string_bytes
put_string-Writes v s r =
    let pad = padding (length v + 1) in
    let (t, e, m) = buffer_for_put_lem (length v + 1 + pad) s r in
    let bs = t.body.bytes in
    let o = t.body.offset in
    let room : o + length v + 1 + pad ≤ length bs = omega (arith, m.room, m.offset) in
    let one = with_bytes (copy_at bs o v) t in
    let two = with_bytes (copy_at (copy_at bs o v) (o + length v) (0 ∷ [])) t in
    let same_one = length-copy_at bs o v in
    let same_two = length-copy_at (copy_at bs o v) (o + length v) (0 ∷ []) in
    (
      written (length v + 1 + pad) (string_bytes v) t,
      rw (
        pad_of-eq-padding,
        e,
        ◌>>◌,
        ◌>>=◌,
        store_copy_lem v o t (omega arith),
        store_at_lem 0 (o + length v) one (omega (arith, same_one)),
        pad_of-eq-padding,
        ◌>>◌,
        zero_fill_lem pad (o + length v + 1) two (omega (arith, same_one, same_two)),
        copy_text bs o v (replicate pad 0),
        pad_of-eq-padding,
      ),
      Appends-written (length v + 1 + pad) (string_bytes v) (length-string_bytes v) m,
    )

-- The second part of putBlob, behind the length.
blob_rest : List ℕ → Action Unit
blob_rest v = do
  buffer_for_put (length v + pad_of (length v))
  offset ← get_offset
  update_bytes (λ bs. store_copy bs offset v)
  zero_fill (pad_of (length v)) (offset + length v)
  do_advance (length v + pad_of (length v))

blob_rest-Writes : (v : List ℕ) → Writes (blob_rest v) (v ++ replicate (padding (length v)) 0)
unfolding blob_rest written
blob_rest-Writes v s r =
    let pad = padding (length v) in
    let z : List ℕ = replicate pad 0 in
    let (t, e, m) = buffer_for_put_lem (length v + pad) s r in
    let bs = t.body.bytes in
    let o = t.body.offset in
    let room : o + length v + pad ≤ length bs = omega (arith, m.room, m.offset) in
    let one = with_bytes (copy_at bs o v) t in
    let same = length-copy_at bs o v in
    (
      written (length v + pad) (v ++ z) t,
      rw (
        pad_of-eq-padding,
        e,
        ◌>>◌,
        ◌>>=◌,
        store_copy_lem v o t (omega arith),
        pad_of-eq-padding,
        ◌>>◌,
        zero_fill_lem pad (o + length v) one (omega (arith, same)),
        copy_at-copy_at bs o v z,
        pad_of-eq-padding,
      ),
      Appends-written (length v + pad) (v ++ z)
          (omega (arith, length-append v z, length-replicate {0} pad zero)) m,
    )

pub put_blob-Writes : (v : List ℕ) → Writes (put_blob v) (blob_bytes v)
unfolding put_blob blob_bytes blob_rest
put_blob-Writes v =
    Writes-seq (le_bytes 8 (length v)) (v ++ replicate (padding (length v)) 0)
      (put_uint64-Writes (length v)) (blob_rest-Writes v)
