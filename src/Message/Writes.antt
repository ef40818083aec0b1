-- ===== src/Message/Writes.antt =====
-- What a writer of internal/protocol/message.go promises: on a message whose buffer is not empty it
-- returns, and appends the bytes of an encoding to those before the offset.
use go_dqlite.Prelude.{ℕ, ◌+◌, ◌%◌, ◌≤◌, ◌<◌, ◌≡◌, refl, ap, sym, ◌∙◌, arith}
use go_dqlite.Prelude.{List, [], ◌++◌, append-nil, append_assoc}
use go_dqlite.Prelude.{length, take, length-append, length-take}
use go_dqlite.Message.State.{ok, Message, Action, ◌>>◌, pure}
use go_dqlite.Message.Action.{bind_ok}

-- The bytes written so far.
abbrev pub content : Message → List ℕ
content m = take m.body.offset m.body.bytes

-- The buffer can grow, and the offset lies in it.
pub record IsReady (m : Message) : Type 0 where
  pub positive : 0 < length m.body.bytes
  pub within : m.body.offset ≤ length m.body.bytes
  pub aligned : length m.body.bytes % 8 ≡ 0

-- `t` is `s` with `enc` written behind its content.
pub record Appends (s : Message) (enc : List ℕ) (t : Message) : Type 0 where
  pub ready : IsReady t
  pub contents : content t ≡ content s ++ enc
  pub header : t.header ≡ s.header

abbrev pub Writes : Action Unit → List ℕ → Type 0
Writes put enc = (s : Message) → IsReady s → (t : Message) × (put s ≡ ok (tt, t)) × Appends s enc t

pub length-content : {m : Message} → IsReady m → length (content m) ≡ m.body.offset
length-content {m} r = length-take m.body.offset m.body.bytes r.within

-- The offset moves by the length of what is written.
pub Appends-offset :
    {s t : Message} {enc : List ℕ}
    → IsReady s
    → Appends s enc t
    → t.body.offset ≡ s.body.offset + length enc
Appends-offset {s} {t} {enc} r a = omega (
  arith,
  length-content r,
  length-content a.ready,
  ap (λ l. length l) a.contents,
  length-append (content s) enc,
)

pub Writes-pure : Writes (pure tt) []
Writes-pure s r =
    (s, refl, record { ready = r; contents = sym (append-nil (content s)); header = refl })

-- Two writers in a row append one encoding behind the other.
pub Writes-seq :
    {p q : Action Unit} (xs ys : List ℕ) → Writes p xs → Writes q ys → Writes (p >> q) (xs ++ ys)
Writes-seq {p} {q} xs ys wp wq s r =
    let (t, e, a) = wp s r in
    let (u, f, b) = wq t a.ready in
    (
      u,
      bind_ok p (λ _. q) e ∙ f,
      record {
        ready = b.ready;
        contents = b.contents ∙ ap (λ l. l ++ ys) a.contents ∙ append_assoc (content s) xs ys;
        header = b.header ∙ a.header;
      },
    )
