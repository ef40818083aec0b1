-- ===== src/Message/Params.antt =====
-- putNamedValues and putNamedValues32 of internal/protocol/message.go as writers of a field.
use go_dqlite.Prelude.{ℕ, suc, ◌+◌, ◌-◌, ◌%◌, ◌^◌, ◌≤◌, ◌<◌, ◌≡◌, refl, ap, sym, subst, ◌∙◌, arith}
use go_dqlite.Prelude.{true, false, inl, inr, Bool-cases, ◌==◌, ==-refl, ==-ne, le→ltb}
use go_dqlite.Prelude.{
  List, [], ◌∷◌, ◌++◌, length, append-nil, take, drop, take_add, length-take, length-drop,
}
use go_dqlite.Prelude.Int.{to_uint64}
use mathlib.Core.Path.{ap₂}
use native.Mathlib.Nat.{add_assoc}
use go_dqlite.Message.State.{Message, Action, advance, ◌>>=◌, ◌>>◌}
use go_dqlite.Message.Bytes.{le_bytes, length-le_bytes, padding}
use go_dqlite.Message.Put.{put_uint8, put_uint32}
use go_dqlite.Message.Writes.{content, Appends, Writes, Writes-pure, Writes-seq}
use go_dqlite.Message.Grow.{Room, buffer_for_put_lem}
use go_dqlite.Message.Words.{put_uint8-Writes, put_uint32-Writes, put_uint64-Writes}
use go_dqlite.Message.Text.{put_string-Writes, put_blob-Writes}
use go_dqlite.Message.Values.{
  Value, integer, float, boolean, blob, text, null, time, other, NamedValue, put_type, put_types,
  skip_padding, put_value, put_values, put_named_values_inner, put_named_values, put_named_values32,
}
use go_dqlite.Message.Fields.{
  params, IsSupported, AreBindable, type_code, value_bytes, values_bytes, type_bytes, EncodesField,
  WritesAt, WritesAt-of_Writes, WritesAt-seq,
}

-- Padding that is skipped: bytes of any content, up to the next word.
abbrev IsPad : ℕ → List ℕ → Type 0
IsPad o pad = length pad ≡ padding o

one_byte : (n : ℕ) → n ≤ 255 → le_bytes 1 n ≡ n ∷ []
unfolding le_bytes
one_byte n h = ap (λ b. b ∷ []) (omega arith)

pad_none : (o p : ℕ) → p ≡ o → (p % 8 == 0) ≡ true → 0 ≡ padding o
unfolding padding
pad_none o p e z = ground arith

pad_some : (o p : ℕ) → p ≡ o → (p % 8 == 0) ≡ false → 8 - p % 8 ≡ padding o
unfolding padding
pad_some o p e z = ground arith

-- An advance that stays in the buffer appends the bytes that it passes over.
Appends-advance :
    {s t : Message} (n k : ℕ)
    → Room n s t
    → t.body.offset + k ≤ length t.body.bytes
    → Appends s (take k (drop t.body.offset t.body.bytes)) (advance k t)
unfolding advance
Appends-advance {s} {t} n k m fits = record {
  ready = record { positive = m.ready.positive; within = fits; aligned = m.ready.aligned };
  contents =
      take_add t.body.offset k t.body.bytes
      ∙ ap (λ l. l ++ take k (drop t.body.offset t.body.bytes)) m.contents;
  header = m.header;
}

Appends-none : {s t : Message} (n : ℕ) → Room n s t → Appends s [] t
Appends-none {s} n m = record {
  ready = m.ready;
  contents = m.contents ∙ sym (append-nil (content s));
  header = m.header;
}

module _ {Time : Type 0} (format : Time → List ℕ) where
  put_type-Writes : (v : Value Time) → IsSupported v → Writes (put_type format v) (type_code v ∷ [])
  unfolding put_type
  put_type-Writes (integer v) h = put_uint8-Writes 1
  put_type-Writes (float v) h = put_uint8-Writes 2
  put_type-Writes (boolean v) h = put_uint8-Writes 11
  put_type-Writes (blob v) h = put_uint8-Writes 4
  put_type-Writes (text v) h = put_uint8-Writes 3
  put_type-Writes null h = put_uint8-Writes 5
  put_type-Writes (time v) h = put_uint8-Writes 10
  put_type-Writes other h = absurd h

  put_types-Writes :
      (i : ℕ) (vs : List (NamedValue Time))
      → AreBindable i vs
      → Writes (put_types format i vs) (type_bytes format vs)
  unfolding put_types type_bytes
  put_types-Writes i [] h = Writes-pure
  put_types-Writes i (v ∷ vs) (n, s, rest) =
      rw (n, ==-refl)
        (Writes-seq (type_code v.value ∷ []) (type_bytes format vs) (put_type-Writes v.value s)
          (put_types-Writes (i + 1) vs rest))

  put_value-Writes :
      (v : Value Time) → IsSupported v → Writes (put_value format v) (value_bytes format v)
  unfolding put_value value_bytes
  put_value-Writes (integer v) h = put_uint64-Writes (to_uint64 v)
  put_value-Writes (float v) h = put_uint64-Writes v
  put_value-Writes (boolean true) h = put_uint64-Writes 1
  put_value-Writes (boolean false) h = put_uint64-Writes 0
  put_value-Writes (blob v) h = put_blob-Writes v
  put_value-Writes (text v) h = put_string-Writes v
  put_value-Writes null h = put_uint64-Writes 0
  put_value-Writes (time v) h = put_string-Writes (format v)
  put_value-Writes other h = absurd h

  put_values-Writes :
      (i : ℕ) (vs : List (NamedValue Time))
      → AreBindable i vs
      → Writes (put_values format vs) (values_bytes format vs)
  unfolding put_values values_bytes
  put_values-Writes i [] h = Writes-pure
  put_values-Writes i (v ∷ vs) (n, s, rest) =
      Writes-seq (value_bytes format v.value) (values_bytes format vs) (put_value-Writes v.value s)
        (put_values-Writes (i + 1) vs rest)

  skip_padding-WritesAt : WritesAt (skip_padding format) IsPad
  unfolding skip_padding advance
  skip_padding-WritesAt s r =
      let (t, e, m) = buffer_for_put_lem 1 s r in
      let o = t.body.offset in
      let bs = t.body.bytes in
      let k = 8 - o % 8 in
      elim (Bool-cases (o % 8 == 0)) [
        | inl z ↦ (t, [], rw (e, ◌>>=◌, z), Appends-none 1 m, pad_none s.body.offset o m.offset z)
        | inr z ↦
            let fits : o + k ≤ length bs = omega (arith, m.room, m.offset, m.ready.aligned) in
            (
              advance k t,
              take k (drop o bs),
              rw (e, ◌>>=◌, z),
              Appends-advance 1 k m fits,
              length-take k (drop o bs) (omega (arith, length-drop o bs))
                  ∙ pad_some s.body.offset o m.offset z,
            )
      ]

  pub length-type_bytes : (vs : List (NamedValue Time)) → length (type_bytes format vs) ≡ length vs
  unfolding type_bytes
  length-type_bytes [] = refl
  length-type_bytes (v ∷ vs) = ap suc (length-type_bytes vs)

  -- The types, the padding and the values.
  abbrev IsInner : List (NamedValue Time) → ℕ → List ℕ → Type 0
  IsInner vs o enc =
      (pad : List ℕ) × (length pad ≡ padding (o + length vs))
      × (enc ≡ type_bytes format vs ++ (pad ++ values_bytes format vs))

  IsInner-WritesAt :
      (vs : List (NamedValue Time))
      → AreBindable 0 vs
      → WritesAt (put_named_values_inner format vs) (IsInner vs)
  unfolding put_named_values_inner
  IsInner-WritesAt vs h =
      WritesAt-seq (λ o xs. xs ≡ type_bytes format vs)
        (λ o ys. (pad : List ℕ) × IsPad o pad × (ys ≡ pad ++ values_bytes format vs)) (IsInner vs)
        (λ o xs ys p (pad, len, q). (
          pad,
          len ∙ ap (λ n. padding (o + n)) (ap (λ l. length l) p ∙ length-type_bytes vs),
          ap₂ ◌++◌ p q,
        ))
        (WritesAt-of_Writes (type_bytes format vs) (put_types-Writes 0 vs h))
        (WritesAt-seq IsPad (λ o ys. ys ≡ values_bytes format vs)
          (λ o ys. (pad : List ℕ) × IsPad o pad × (ys ≡ pad ++ values_bytes format vs))
          (λ o xs ys p q. (xs, p, ap (λ l. xs ++ l) q)) skip_padding-WritesAt
          (WritesAt-of_Writes (values_bytes format vs) (put_values-Writes 0 vs h)))

  counted :
      (w : ℕ) (put : Action Unit) (v : NamedValue Time) (vs : List (NamedValue Time))
      → Writes put (le_bytes w (length (v ∷ vs)))
      → AreBindable 0 (v ∷ vs)
      → WritesAt
          (put >> put_named_values_inner format (v ∷ vs))
          (λ o. EncodesField format o (params w (v ∷ vs)))
  counted w put v vs wp h =
      WritesAt-seq (λ o xs. xs ≡ le_bytes w (length (v ∷ vs))) (IsInner (v ∷ vs))
        (λ o. EncodesField format o (params w (v ∷ vs)))
        (λ o xs ys p (pad, len, q). (
          pad,
          len
              ∙ ap padding (
                  add_assoc o (length xs) (length (v ∷ vs))
                  ∙ ap (λ n. o + (n + length (v ∷ vs)))
                      (ap (λ l. length l) p ∙ length-le_bytes w (length (v ∷ vs)))),
          ap₂ ◌++◌ p q,
        ))
        (WritesAt-of_Writes (le_bytes w (length (v ∷ vs))) wp) (IsInner-WritesAt (v ∷ vs) h)

  -- Up to 255 bindable parameters are written as the field declares them.
  pub put_named_values-WritesAt :
      (vs : List (NamedValue Time))
      → AreBindable 0 vs
      → length vs ≤ 255
      → WritesAt (put_named_values format vs) (λ o. EncodesField format o (params 1 vs))
  unfolding put_named_values
  put_named_values-WritesAt [] h n = WritesAt-of_Writes [] Writes-pure
  put_named_values-WritesAt (v ∷ vs) h n =
      rw (==-ne (length (v ∷ vs)) 0 (omega arith), le→ltb 255 (length (v ∷ vs)) n)
        (counted 1 (put_uint8 (length (v ∷ vs))) v vs
          (subst (Writes (put_uint8 (length (v ∷ vs)))) (sym (one_byte (length (v ∷ vs)) n))
            (put_uint8-Writes (length (v ∷ vs))))
          h)

  pub put_named_values32-WritesAt :
      (vs : List (NamedValue Time))
      → AreBindable 0 vs
      → length vs < 2 ^ 32
      → WritesAt (put_named_values32 format vs) (λ o. EncodesField format o (params 4 vs))
  unfolding put_named_values32
  put_named_values32-WritesAt [] h n = WritesAt-of_Writes [] Writes-pure
  put_named_values32-WritesAt (v ∷ vs) h n =
      rw
        (
          ==-ne (length (v ∷ vs)) 0 (omega arith),
          le→ltb (2 ^ 32 - 1) (length (v ∷ vs)) (omega arith),
        )
        (counted 4 (put_uint32 (length (v ∷ vs))) v vs (put_uint32-Writes (length (v ∷ vs))) h)
