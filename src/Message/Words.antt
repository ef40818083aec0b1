-- ===== src/Message/Words.antt =====
-- The writers of one byte and of the wider words: each appends the little-endian bytes of its number.
use go_dqlite.Prelude.{ℕ, ◌+◌, ◌≤◌, ◌≡◌, refl, ap, ◌∙◌, arith}
use go_dqlite.Prelude.{List, [], ◌∷◌, ◌++◌, true, length, leb, le→leb, lt→ltb}
use go_dqlite.Message.State.{Message, advance, ◌>>=◌, ◌>>◌}
use go_dqlite.Message.Bytes.{le_bytes}
use go_dqlite.Message.Put.{copy_at, put_uint8, put_uint16, put_uint32, put_uint64}
use go_dqlite.Message.Copy.{length-copy_at, take-copy_at, set-eq-copy_at}
use go_dqlite.Message.Writes.{Appends, Writes}
use go_dqlite.Message.Grow.{Room, buffer_for_put_lem}

-- The message with `enc` copied to the offset, and the offset `n` bytes further.
unfoldable pub written : ℕ → List ℕ → Message → Message
unfolding advance
written n enc t =
    advance n (record t { body = record t.body { bytes = copy_at t.body.bytes t.body.offset enc } })

pub Appends-written :
    {s t : Message} (n : ℕ) (enc : List ℕ)
    → length enc ≡ n
    → Room n s t
    → Appends s enc (written n enc t)
unfolding written
Appends-written {s} {t} n enc len m =
    let fits : t.body.offset + length enc ≤ length t.body.bytes =
      omega (arith, m.room, m.offset, len) in
    let same = length-copy_at t.body.bytes t.body.offset enc in
    record {
      ready = record {
        positive = omega (arith, same, m.ready.positive);
        within = omega (arith, same, fits, len);
        aligned = omega (arith, same, m.ready.aligned);
      };
      contents =
          rw (← len)
            (take-copy_at t.body.bytes t.body.offset enc fits ∙ ap (λ l. l ++ enc) m.contents);
      header = m.header;
    }

pub put_uint8-Writes : (v : ℕ) → Writes (put_uint8 v) (v ∷ [])
unfolding put_uint8 written
put_uint8-Writes v s r =
    let (t, e, m) = buffer_for_put_lem 1 s r in
    (
      written 1 (v ∷ []) t,
      rw (
        e,
        ◌>>◌,
        ◌>>=◌,
        lt→ltb t.body.offset (length t.body.bytes) (omega (arith, m.room, m.offset)),
        set-eq-copy_at,
      ),
      Appends-written 1 (v ∷ []) refl m,
    )

-- One call of encoding/binary, with room for its bytes.
fits_le :
    {s t : Message} (w : ℕ) → Room w s t → leb (t.body.offset + w) (length t.body.bytes) ≡ true
fits_le {s} {t} w m =
    le→leb (t.body.offset + w) (length t.body.bytes) (omega (arith, m.room, m.offset))

pub put_uint16-Writes : (v : ℕ) → Writes (put_uint16 v) (le_bytes 2 v)
unfolding put_uint16 written le_bytes
put_uint16-Writes v s r =
    let (t, e, m) = buffer_for_put_lem 2 s r in
    (
      written 2 (le_bytes 2 v) t,
      rw (e, ◌>>◌, ◌>>=◌, fits_le 2 m),
      Appends-written 2 (le_bytes 2 v) refl m,
    )

pub put_uint32-Writes : (v : ℕ) → Writes (put_uint32 v) (le_bytes 4 v)
unfolding put_uint32 written le_bytes
put_uint32-Writes v s r =
    let (t, e, m) = buffer_for_put_lem 4 s r in
    (
      written 4 (le_bytes 4 v) t,
      rw (e, ◌>>◌, ◌>>=◌, fits_le 4 m),
      Appends-written 4 (le_bytes 4 v) refl m,
    )

pub put_uint64-Writes : (v : ℕ) → Writes (put_uint64 v) (le_bytes 8 v)
unfolding put_uint64 written le_bytes
put_uint64-Writes v s r =
    let (t, e, m) = buffer_for_put_lem 8 s r in
    (
      written 8 (le_bytes 8 v) t,
      rw (e, ◌>>◌, ◌>>=◌, fits_le 8 m),
      Appends-written 8 (le_bytes 8 v) refl m,
    )
