-- ===== src/Message/Start.antt =====
-- Message.Init of internal/protocol/message.go, and the first write behind it.
use go_dqlite.Prelude.{ℕ, zero, suc, ◌+◌, ◌%◌, ◌<◌, ◌≤◌, ◌≡◌, refl, ap, sym, ◌∙◌, arith}
use go_dqlite.Prelude.{[], length, take, take-length, length-replicate, replicate, lt→leb, ==_of_eq}
use go_dqlite.Message.State.{Message, ok, stuck, init, header_size}
use go_dqlite.Message.Put.{grow, buffer_for_put}
use go_dqlite.Message.Grow.{grow_lem}

-- The loop of bufferForPut never makes an empty buffer longer, in any number of rounds.
grow_of_empty : (fuel need : ℕ) → 0 < need → grow fuel need [] ≡ stuck
unfolding grow
grow_of_empty zero need h = rw (lt→leb need 0 h)
grow_of_empty (suc fuel) need h = rw (lt→leb need 0 h) (grow_of_empty fuel need h)

-- Init with a positive size of whole words returns on every message a body of this length, with the
-- offset at its start. Whatever has then been written to the body, and wherever in it the offset is,
-- bufferForPut returns, however many bytes are asked: they fit behind the offset, which stays, and all
-- bytes of the body are kept.
pub init-buffer_for_put :
    (size amount : ℕ) (m u : Message)
    → 0 < size
    → size % 8 ≡ 0
    → length u.body.bytes ≡ size
    → u.body.offset ≤ size
    → (s : Message) × (t : Message) × (init size m ≡ ok (tt, s))
      × (length s.body.bytes ≡ size)
      × (s.body.offset ≡ 0)
      × (buffer_for_put amount u ≡ ok (tt, t))
      × (take size t.body.bytes ≡ u.body.bytes)
      × (t.body.offset ≡ u.body.offset)
      × (u.body.offset + amount ≤ length t.body.bytes)
unfolding init buffer_for_put
init-buffer_for_put size amount m u h al long at_most =
    let need = u.body.offset + amount in
    let (cs, e, g) = grow_lem need need u.body.bytes (omega arith) (omega arith) in
    (
      record {
        words = 0;
        mtype = 0;
        schema = 0;
        extra = 0;
        header = replicate header_size 0;
        body = record { bytes = replicate size 0; offset = 0 };
      },
      record u { body = record u.body { bytes = cs } },
      rw (==_of_eq (size % 8) 0 al) refl,
      length-replicate {0} size zero,
      refl,
      rw (e, buffer_for_put),
      g.same size (omega arith)
          ∙ ap (λ k. take k u.body.bytes) (sym long)
          ∙ take-length u.body.bytes,
      refl,
      g.room,
    )

-- Init accepts the size 0 too, and no write behind it returns: the loop of bufferForPut goes on for
-- every number of rounds.
pub init_of_zero-stuck :
    (amount : ℕ) (m : Message)
    → 0 < amount
    → (s : Message) × (init 0 m ≡ ok (tt, s))
      × ((fuel : ℕ) → grow fuel (s.body.offset + amount) s.body.bytes ≡ stuck)
      × (buffer_for_put amount s ≡ stuck)
unfolding init buffer_for_put
init_of_zero-stuck amount m h =
    let s : Message = record {
      words = 0;
      mtype = 0;
      schema = 0;
      extra = 0;
      header = replicate header_size 0;
      body = record { bytes = []; offset = 0 };
    } in
    (
      s,
      refl,
      (λ fuel. grow_of_empty fuel (0 + amount) (omega arith)),
      rw (grow_of_empty (0 + amount) (0 + amount) (omega arith), buffer_for_put) refl,
    )
