-- ===== src/Message/Fields.antt =====
-- What bytes encode a field of a message, and the writers as writers of fields. The reference is the
-- schema language of internal/protocol/schema.go, not the writers of message.go.
use go_dqlite.Prelude.{ℕ, ◌+◌, ◌≡◌, refl, ap, subst, ◌∙◌, true, false}
use go_dqlite.Prelude.{List, [], ◌∷◌, ◌++◌, length, append_assoc}
use go_dqlite.Prelude.Int.{to_uint64}
use go_dqlite.Message.State.{ok, Message, Action, ◌>>◌}
use go_dqlite.Message.Action.{bind_ok}
use go_dqlite.Message.Bytes.{le_bytes, padding}
use go_dqlite.Message.Writes.{IsReady, Appends, Appends-offset, Writes}
use go_dqlite.Message.Text.{string_bytes, blob_bytes}
use go_dqlite.Message.Values.{
  Value, integer, float, boolean, blob, text, null, time, other, NamedValue, integer_code,
  float_code, text_code, blob_code, null_code, iso8601_code, boolean_code,
}

-- A field of a request or response. `params w` are statement parameters behind a count of `w` bytes.
pub data Field (Time : Type 0) : Type 0 where
  uint64 : ℕ → Field Time
  uint32 : ℕ → Field Time
  string : List ℕ → Field Time
  params : ℕ → List (NamedValue Time) → Field Time

-- Parameters that can be bound: numbered from `i + 1` on, and of a supported type.
abbrev pub IsSupported : {Time : Type 0} → Value Time → Type 0
IsSupported other = ⊥
IsSupported _ = Unit

abbrev pub AreBindable : {Time : Type 0} → ℕ → List (NamedValue Time) → Type 0
AreBindable i [] = Unit
AreBindable i (v ∷ vs) = (v.ordinal ≡ i + 1) × IsSupported v.value × AreBindable (i + 1) vs

abbrev pub type_code : {Time : Type 0} → Value Time → ℕ
type_code (integer v) = integer_code
type_code (float v) = float_code
type_code (boolean v) = boolean_code
type_code (blob v) = blob_code
type_code (text v) = text_code
type_code null = null_code
type_code (time v) = iso8601_code
type_code other = 0

module _ {Time : Type 0} (format : Time → List ℕ) where
  unfoldable pub value_bytes : Value Time → List ℕ
  value_bytes (integer v) = le_bytes 8 (to_uint64 v)
  value_bytes (float v) = le_bytes 8 v
  value_bytes (boolean true) = le_bytes 8 1
  value_bytes (boolean false) = le_bytes 8 0
  value_bytes (blob v) = blob_bytes v
  value_bytes (text v) = string_bytes v
  value_bytes null = le_bytes 8 0
  value_bytes (time v) = string_bytes (format v)
  value_bytes other = []

  unfoldable pub values_bytes : List (NamedValue Time) → List ℕ
  unfolding value_bytes
  values_bytes [] = []
  values_bytes (v ∷ vs) = value_bytes v.value ++ values_bytes vs

  unfoldable pub type_bytes : List (NamedValue Time) → List ℕ
  type_bytes [] = []
  type_bytes (v ∷ vs) = type_code v.value ∷ type_bytes vs

  -- `enc` encodes a field that stands at offset `o`. The content of the padding behind the types of
  -- parameters is free, its length is not.
  abbrev pub EncodesField : ℕ → Field Time → List ℕ → Type 0
  EncodesField o (uint64 n) enc = enc ≡ le_bytes 8 n
  EncodesField o (uint32 n) enc = enc ≡ le_bytes 4 n
  EncodesField o (string v) enc = enc ≡ string_bytes v
  EncodesField o (params w []) enc = enc ≡ []
  EncodesField o (params w (v ∷ vs)) enc =
      (pad : List ℕ) × (length pad ≡ padding (o + (w + length (v ∷ vs))))
      × (enc
          ≡ le_bytes w (length (v ∷ vs)) ++ (type_bytes (v ∷ vs) ++ (pad ++ values_bytes (v ∷ vs))))

  abbrev pub Encodes : ℕ → List (Field Time) → List ℕ → Type 0
  Encodes o [] enc = enc ≡ []
  Encodes o (f ∷ fs) enc =
      (xs : List ℕ) × (ys : List ℕ) × (enc ≡ xs ++ ys)
      × EncodesField o f xs
      × Encodes (o + length xs) fs ys

-- `put` returns, and appends bytes for which `P` holds at the offset.
abbrev pub WritesAt : Action Unit → (ℕ → List ℕ → Type 0) → Type 0
WritesAt put P =
    (s : Message)
    → IsReady s
    → (t : Message) × (enc : List ℕ) × (put s ≡ ok (tt, t)) × Appends s enc t × P s.body.offset enc

pub WritesAt-of_Writes :
    {put : Action Unit} (enc : List ℕ) → Writes put enc → WritesAt put (λ o xs. xs ≡ enc)
WritesAt-of_Writes enc w s r = let (t, e, a) = w s r in (t, enc, e, a, refl)

-- Two writers in a row.
pub WritesAt-seq :
    {p q : Action Unit} (P Q R : ℕ → List ℕ → Type 0)
    → ((o : ℕ) (xs ys : List ℕ) → P o xs → Q (o + length xs) ys → R o (xs ++ ys))
    → WritesAt p P
    → WritesAt q Q
    → WritesAt (p >> q) R
WritesAt-seq {p} {q} P Q R join wp wq s r =
    let (t, xs, e, a, hp) = wp s r in
    let (u, ys, f, b, hq) = wq t a.ready in
    (
      u,
      xs ++ ys,
      bind_ok p (λ _. q) e ∙ f,
      record {
        ready = b.ready;
        contents = b.contents ∙ ap (λ l. l ++ ys) a.contents ∙ append_assoc _ xs ys;
        header = b.header ∙ a.header;
      },
      join s.body.offset xs ys hp (subst (λ o. Q o ys) (Appends-offset r a) hq),
    )
