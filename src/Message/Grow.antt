-- ===== src/Message/Grow.antt =====
-- The growing loop of bufferForPut in internal/protocol/message.go.
use go_dqlite.Prelude.{ℕ, zero, suc, ◌+◌, ◌*◌, ◌%◌, ◌≤◌, ◌<◌, ◌≡◌, refl, ap, sym, ◌∙◌, arith}
use go_dqlite.Prelude.{List, inl, inr}
use go_dqlite.Prelude.{
  length, take, take-take, length-replicate, replicate, leb, le→leb, Bool-cases,
}
use go_dqlite.Message.State.{ok, Message}
use go_dqlite.Message.Put.{copy_at, grow, buffer_for_put}
use go_dqlite.Message.Copy.{length-copy_at, take-copy_at}
use go_dqlite.Message.Writes.{IsReady, content}

-- The result of the growing loop: room for `need`, and the old bytes in front.
pub record Grown (need : ℕ) (bs cs : List ℕ) : Type 0 where
  pub room : need ≤ length cs
  pub longer : length bs ≤ length cs
  pub aligned : length bs % 8 ≡ 0 → length cs % 8 ≡ 0
  pub same : (k : ℕ) → k ≤ length bs → take k cs ≡ take k bs

abbrev doubled : List ℕ → List ℕ
doubled bs = copy_at (replicate (length bs * 2) 0) 0 bs

length-doubled : (bs : List ℕ) → length (doubled bs) ≡ length bs * 2
length-doubled bs =
    length-copy_at (replicate (length bs * 2) 0) 0 bs ∙ length-replicate (length bs * 2) 0

take-doubled : (bs : List ℕ) (k : ℕ) → k ≤ length bs → take k (doubled bs) ≡ take k bs
take-doubled bs k h =
    sym (take-take k (0 + length bs) (doubled bs) (omega arith))
    ∙ ap (take k) (
        take-copy_at (replicate (length bs * 2) 0) 0 bs
          (omega (arith, length-replicate {0} (length bs * 2) (let z : ℕ = 0 in z))))

-- The loop of bufferForPut ends on every buffer that is not empty.
pub grow_lem :
    (fuel need : ℕ) (bs : List ℕ)
    → 0 < length bs
    → need ≤ length bs + fuel
    → (cs : List ℕ) × (grow fuel need bs ≡ ok cs) × Grown need bs cs
unfolding grow
grow_lem zero need bs h f = (
  bs,
  rw (le→leb need (length bs) (omega arith)),
  record { room = omega arith; longer = omega arith; aligned = λ a. a; same = λ k _. refl },
)
grow_lem (suc fuel) need bs h f = elim (Bool-cases (leb need (length bs))) [
  | inl fits ↦ (
    bs,
    rw fits,
    record { room = ground arith; longer = omega arith; aligned = λ a. a; same = λ k _. refl },
  )
  | inr short ↦
      let (cs, e, g) =
        grow_lem fuel need (doubled bs) (omega (arith, length-doubled bs))
          (omega (arith, length-doubled bs)) in
      (
        cs,
        rw short e,
        record {
          room = g.room;
          longer = omega (arith, g.longer, length-doubled bs);
          aligned = λ a. g.aligned (omega (arith, length-doubled bs));
          same = λ k le. g.same k (omega (arith, length-doubled bs)) ∙ take-doubled bs k le;
        },
      )
]

-- `t` is `s` with room for `size` more bytes, and nothing else changed.
pub record Room (size : ℕ) (s t : Message) : Type 0 where
  pub ready : IsReady t
  pub contents : content t ≡ content s
  pub header : t.header ≡ s.header
  pub offset : t.body.offset ≡ s.body.offset
  pub room : s.body.offset + size ≤ length t.body.bytes

-- Message.bufferForPut returns, whatever the size.
pub buffer_for_put_lem :
    (size : ℕ) (s : Message)
    → IsReady s
    → (t : Message) × (buffer_for_put size s ≡ ok (tt, t)) × Room size s t
unfolding buffer_for_put
buffer_for_put_lem size s r =
    let need = s.body.offset + size in
    let (cs, e, g) = grow_lem need need s.body.bytes r.positive (omega arith) in
    (
      record s { body = record s.body { bytes = cs } },
      rw (e, buffer_for_put),
      record {
        ready = record {
          positive = omega (arith, r.positive, g.longer);
          within = omega (arith, r.within, g.longer);
          aligned = g.aligned r.aligned;
        };
        contents = g.same s.body.offset r.within;
        header = refl;
        offset = refl;
        room = g.room;
      },
    )
