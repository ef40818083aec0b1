-- ===== src/Message/Reads.antt =====
-- What a reader of internal/protocol/message.go promises: where the bytes from the offset on begin
-- with an encoding that lies within the body, it returns the value and advances past the encoding.
use go_dqlite.Prelude.{ℕ, ◌+◌, ◌^◌, ◌≤◌, ◌<◌, ◌≡◌, ap, sym, subst, ◌∙◌, arith}
use go_dqlite.Prelude.{List, [], ◌∷◌, ◌++◌, append_assoc, length, length-append, take, drop}
use go_dqlite.Prelude.{take-length_append, drop-length_append, drop-drop, true, leb, le→leb, ==-ne}
use go_dqlite.Message.State.{ok, Message, Action, advance, ◌>>=◌, ◌>>◌, pure}
use go_dqlite.Message.Action.{bind_ok}
use go_dqlite.Message.Bytes.{le_bytes, length-le_bytes, from_le, from_le-le_bytes}
use go_dqlite.Message.Get.{body_size, remaining, buffer_for_get, get_uint8, get_uint32, get_uint64}

pub record Reads {A : Type 0} (get : Action A) (enc : List ℕ) (a : A) : Type 0 where
  pub run :
      (s : Message) (rest : List ℕ)
      → remaining s ≡ enc ++ rest
      → s.body.offset + length enc ≤ body_size s
      → get s ≡ ok (a, advance (length enc) s)

pub Reads-pure : {A : Type 0} (a : A) → Reads (pure a) [] a
unfolding advance
Reads-pure a = record {
  run = λ s rest e h. let z : s.body.offset + 0 ≡ s.body.offset = omega arith in rw z;
}

pub remaining-advance :
    (s : Message) (xs rest : List ℕ)
    → remaining s ≡ xs ++ rest
    → remaining (advance (length xs) s) ≡ rest
unfolding advance
remaining-advance s xs rest e =
    sym (drop-drop s.body.offset (length xs) s.body.bytes)
    ∙ ap (drop (length xs)) e
    ∙ drop-length_append xs rest

advance-advance : (n k : ℕ) (s : Message) → advance k (advance n s) ≡ advance (n + k) s
unfolding advance
advance-advance n k s = ap (λ o. record s { body = record s.body { offset = o } }) (omega arith)

-- Two readers in a row.
pub Reads-bind :
    {A B : Type 0} {m : Action A} (f : A → Action B) {a : A} {b : B} (xs ys : List ℕ)
    → Reads m xs a
    → Reads (f a) ys b
    → Reads (m >>= f) (xs ++ ys) b
unfolding advance
Reads-bind {m} f {a} {b} xs ys rm rf = record {
  run = λ s rest e h.
      let split : remaining s ≡ xs ++ (ys ++ rest) = e ∙ append_assoc xs ys rest in
      let len = length-append xs ys in
      bind_ok m f (rm.run s (ys ++ rest) split (omega (arith, len)))
      ∙ rf.run (advance (length xs) s) rest (remaining-advance s xs (ys ++ rest) split)
          (omega (arith, len))
      ∙ ap (λ t. ok (b, t))
          (advance-advance (length xs) (length ys) s ∙ ap (λ n. advance n s) (sym len));
}

-- The last step of a block.
pub Reads-map :
    {A B : Type 0} {m : Action A} {a : A} (f : A → B) (xs : List ℕ)
    → Reads m xs a
    → Reads (m >>= λ x. pure (f x)) xs (f a)
Reads-map {m} {a} f xs r = record {
  run = λ s rest e h. bind_ok m (λ x. pure (f x)) (r.run s rest e h);
}

-- Inside the body the guard of bufferForGet passes.
pub buffer_for_get_lem : (s : Message) → s.body.offset < body_size s → buffer_for_get s ≡ ok (tt, s)
unfolding buffer_for_get
buffer_for_get_lem s h = rw (==-ne s.body.offset (body_size s) (omega arith))

pub get_uint8-Reads : (b : ℕ) → Reads get_uint8 (b ∷ []) b
unfolding get_uint8
get_uint8-Reads b = record {
  run = λ s rest e h. rw (buffer_for_get_lem s (omega arith), ◌>>=◌, ◌>>◌, e);
}

-- A word of `w` bytes, not empty.
word :
    (w v : ℕ) (rest : List ℕ)
    → v < 256 ^ w
    → (leb w (length (le_bytes w v ++ rest)) ≡ true) × (from_le (take w (le_bytes w v ++ rest)) ≡ v)
word w v rest h = (
  le→leb _ _ (omega (arith, length-append (le_bytes w v) rest, length-le_bytes w v)),
  subst (λ n. from_le (take n (le_bytes w v ++ rest)) ≡ v) (length-le_bytes w v)
      (ap from_le (take-length_append (le_bytes w v) rest) ∙ from_le-le_bytes w v h),
)

pub get_uint64-Reads : (v : ℕ) → v < 2 ^ 64 → Reads get_uint64 (le_bytes 8 v) v
unfolding get_uint64
get_uint64-Reads v lt = record {
  run = λ s rest e h.
      let (fits, val) = word 8 v rest lt in
      rw (
        length-le_bytes 8 v,
        buffer_for_get_lem s (omega (arith, length-le_bytes 8 v)),
        ◌>>=◌,
        ◌>>◌,
        e,
        fits,
        val,
      );
}

pub get_uint32-Reads : (v : ℕ) → v < 2 ^ 32 → Reads get_uint32 (le_bytes 4 v) v
unfolding get_uint32
get_uint32-Reads v lt = record {
  run = λ s rest e h.
      let (fits, val) = word 4 v rest lt in
      rw (
        length-le_bytes 4 v,
        buffer_for_get_lem s (omega (arith, length-le_bytes 4 v)),
        ◌>>=◌,
        ◌>>◌,
        e,
        fits,
        val,
      );
}
