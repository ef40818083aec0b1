-- ===== src/Message/ReadRows.antt =====
-- Rows.Next of internal/protocol/message.go against the encoding of a row: a header of 4-bit type
-- slots, padded to a word, and the values.
use go_dqlite.Prelude.{
  ℕ, zero, suc, ◌+◌, ◌*◌, ◌/◌, ◌%◌, ◌^◌, ◌≤◌, ◌<◌, ◌≡◌, refl, ap, sym, subst, ◌∙◌, arith,
}
use go_dqlite.Prelude.{
  List, [], ◌∷◌, ◌++◌, append_assoc, append-nil, length, length-append, set, All,
}
use go_dqlite.Prelude.{true, false, Option, none, some, le→leb, lt→leb, ==-ne}
use go_dqlite.Prelude.Int.{ℤ, pos, to_uint64, to_int64, to_int64-to_uint64, to_uint64-lt, IsInt64}
use go_dqlite.Message.State.{◌>>=◌, pure}
use go_dqlite.Message.Bytes.{le_bytes}
use go_dqlite.Message.Values.{Value, integer, float, boolean, blob, text, null, time, other}
use go_dqlite.Message.Fields.{type_code, value_bytes}
use go_dqlite.Message.Get.{get_int64, get_float64, get_string}
use go_dqlite.Message.Text.{string_bytes}
use go_dqlite.Message.Rows.{
  Rows, ColumnTypes, more, row, set_slots, read_types, row_header_size, slots, column_types,
  parse_time, get_value, get_values, next, with_types, is_nonzero,
}
use go_dqlite.Message.Reads.{
  Reads, Reads-pure, Reads-bind, Reads-map, get_uint8-Reads, get_uint64-Reads,
}
use go_dqlite.Message.ReadText.{HasNoNul, get_string-Reads, get_blob-Reads}

-- The slots of `ts` in `n` bytes: the low half of a byte first, and zeros behind the last slot.
unfoldable pub header_bytes : ℕ → List ℕ → List ℕ
header_bytes zero ts = []
header_bytes (suc n) [] = 0 ∷ header_bytes n []
header_bytes (suc n) (a ∷ []) = a ∷ header_bytes n []
header_bytes (suc n) (a ∷ b ∷ ts) = (a + 16 * b) ∷ header_bytes n ts

set_behind :
    (done rest : List ℕ) (i x v : ℕ)
    → length done ≡ i
    → set (done ++ x ∷ rest) i v ≡ done ++ v ∷ rest
set_behind [] rest zero x v e = refl
set_behind [] rest (suc i) x v e = absurd (omega arith)
set_behind (d ∷ done) rest zero x v e = absurd (omega arith)
set_behind (d ∷ done) rest (suc i) x v e = ap (◌∷◌ d) (set_behind done rest i x v (omega arith))

-- A byte of the padding sets nothing.
set_slots_pad : (ts : List ℕ) (i slot : ℕ) → length ts ≤ i * 2 → set_slots ts i slot ≡ ts
unfolding set_slots
set_slots_pad ts i slot h = rw (le→leb (length ts) (i * 2) h)

set_slots_one :
    (done : List ℕ) (i x a : ℕ)
    → length done ≡ i * 2
    → a < 16
    → set_slots (done ++ x ∷ []) i a ≡ done ++ a ∷ []
unfolding set_slots
set_slots_one done i x a e h =
    let n = length-append done (x ∷ []) in
    let k = length-append done (a ∷ []) in
    let low : a % 16 ≡ a = omega arith in
    rw (
      lt→leb (length (done ++ x ∷ [])) (i * 2) (omega arith),
      set_behind done [] (i * 2) x (a % 16) e,
      low,
      le→leb (length (done ++ x ∷ [])) (i * 2 + 1) (omega arith),
    )

set_slots_two :
    (done rest : List ℕ) (i x y a b : ℕ)
    → length done ≡ i * 2
    → a < 16
    → set_slots (done ++ x ∷ y ∷ rest) i (a + 16 * b) ≡ done ++ a ∷ b ∷ rest
unfolding set_slots
set_slots_two done rest i x y a b e h =
    let n = length-append done (x ∷ y ∷ rest) in
    let k = length-append done (a ∷ y ∷ rest) in
    let low : (a + 16 * b) % 16 ≡ a = omega arith in
    let high : (a + 16 * b) / 16 ≡ b = omega arith in
    let behind : (done ++ a ∷ []) ++ y ∷ rest ≡ done ++ a ∷ y ∷ rest =
      append_assoc done (a ∷ []) (y ∷ rest) in
    rw
      (
        lt→leb (length (done ++ x ∷ y ∷ rest)) (i * 2) (omega arith),
        set_behind done (y ∷ rest) (i * 2) x ((a + 16 * b) % 16) e,
        low,
        lt→leb (length (done ++ x ∷ y ∷ rest)) (i * 2 + 1) (omega arith),
        ← behind,
        set_behind (done ++ a ∷ []) rest (i * 2 + 1) y ((a + 16 * b) / 16)
            (omega (arith, length-append done (a ∷ []))),
        high,
      )
      (append_assoc done (a ∷ []) (b ∷ rest))

-- A slot that is no marker.
abbrev IsPlain : ℕ → Type 0
IsPlain slot = slot < 0xee

read_types_step :
    (n i slot : ℕ) (types : List ℕ) {enc : List ℕ} {c : ColumnTypes}
    → IsPlain slot
    → Reads (read_types false n (i + 1) (set_slots types i slot)) enc c
    → Reads (read_types false (suc n) i types) (slot ∷ enc) c
unfolding read_types
read_types_step n i slot types {enc} h r =
    Reads-bind _ (slot ∷ []) enc (get_uint8-Reads slot)
      (rw (==-ne slot 0xee (omega arith), ==-ne slot 0xff (omega arith)) r)

-- Types that a slot pair can hold without being a marker.
abbrev AreTypes : List ℕ → Type 0
AreTypes = All (λ t. t < 12)

found : List ℕ → ColumnTypes
found ts = record { types = ts; signal = more }

read_types_pad :
    (n i : ℕ) (ts : List ℕ)
    → length ts ≤ i * 2
    → Reads (read_types false n i ts) (header_bytes n []) (found ts)
unfolding header_bytes
read_types_pad zero i ts h = unfold found read_types in Reads-pure _
read_types_pad (suc n) i ts h =
    read_types_step n i 0 ts (omega arith)
      (rw (set_slots_pad ts i 0 h) (read_types_pad n (i + 1) ts (omega arith)))

-- The loop fills the slots from 2 * i on, whatever they held.
read_types_lem :
    (n i : ℕ) (done olds ts : List ℕ)
    → AreTypes ts
    → length done ≡ i * 2
    → length olds ≡ length ts
    → length ts ≤ 2 * n
    → Reads (read_types false n i (done ++ olds)) (header_bytes n ts) (found (done ++ ts))
unfolding header_bytes
read_types_lem n i done [] [] h p q r = rw append-nil (read_types_pad n i done (omega arith))
read_types_lem n i done [] (t ∷ ts) h p q r = absurd (omega arith)
read_types_lem n i done (o ∷ olds) [] h p q r = absurd (omega arith)
read_types_lem zero i done (o ∷ olds) (t ∷ ts) h p q r = absurd (omega arith)
read_types_lem (suc n) i done (o ∷ []) (a ∷ []) h p q r =
    read_types_step n i a (done ++ o ∷ []) (omega arith) (
      rw (set_slots_one done i o a p (omega arith))
        (read_types_pad n (i + 1) (done ++ a ∷ []) (omega (arith, length-append done (a ∷ [])))))
read_types_lem (suc n) i done (o ∷ []) (a ∷ b ∷ ts) h p q r = absurd (omega arith)
read_types_lem (suc n) i done (o ∷ o' ∷ olds) (a ∷ []) h p q r = absurd (omega arith)
read_types_lem (suc n) i done (o ∷ o' ∷ olds) (a ∷ b ∷ ts) (ha, (hb, h)) p q r =
    let here : List ℕ = a ∷ b ∷ [] in
    let ih =
      read_types_lem n (i + 1) (done ++ here) olds ts h (omega (arith, length-append done here))
        (omega arith) (omega arith) in
    read_types_step n i (a + 16 * b) (done ++ o ∷ o' ∷ olds) (omega arith) (
      rw (set_slots_two done olds i o o' a b p (omega arith))
        (rw (append_assoc done here olds, append_assoc done here ts) at ih))

abbrev pub codes : {Time : Type 0} → List (Value Time) → List ℕ
codes [] = []
codes (v ∷ vs) = type_code v ∷ codes vs

row_header_room : (n : ℕ) → n ≤ 2 * row_header_size n
unfolding row_header_size
row_header_room n = ground arith

column_types-Reads :
    (r : Rows) (ts : List ℕ)
    → length (slots r) ≡ length ts
    → 0 < length (slots r)
    → AreTypes ts
    → Reads
        (column_types false r)
        (header_bytes (row_header_size (length (slots r))) ts)
        (with_types r (found ts))
unfolding column_types
column_types-Reads r ts same some_column h =
    let n = row_header_size (length (slots r)) in
    rw (==-ne (length (slots r)) 0 (omega arith)) (
      Reads-map (with_types r) (header_bytes n ts) (
        read_types_lem n 0 [] (slots r) ts h (omega arith) same
          (omega (arith, row_header_room (length (slots r))))))

module _ {Time : Type 0} (format : Time → List ℕ) (parse : ℕ → List ℕ → Option Time)
    (unix : ℤ → Time) where
  -- A value that the encoding of a row can hold: in range, with no nul in a text, and a time that the
  -- formats read back.
  abbrev pub IsReadable : Value Time → Type 0
  IsReadable (integer v) = IsInt64 v
  IsReadable (float v) = v < 2 ^ 64
  IsReadable (boolean v) = Unit
  IsReadable (blob v) = length v < 2 ^ 64
  IsReadable (text v) = HasNoNul v
  IsReadable null = Unit
  IsReadable (time v) = HasNoNul (format v) × (parse_time parse unix (format v) ≡ some (time v))
  IsReadable other = ⊥

  get_int64-Reads : (v : ℤ) → IsInt64 v → Reads get_int64 (le_bytes 8 (to_uint64 v)) v
  unfolding get_int64
  get_int64-Reads v h =
      subst (Reads get_int64 (le_bytes 8 (to_uint64 v))) (to_int64-to_uint64 v h) (
        Reads-map to_int64 (le_bytes 8 (to_uint64 v))
          (get_uint64-Reads (to_uint64 v) (to_uint64-lt v)))

  get_value-Reads :
      (v : Value Time)
      → IsReadable v
      → Reads (get_value parse unix (type_code v)) (value_bytes format v) (some v)
  unfolding get_value value_bytes
  get_value-Reads (integer v) h =
      Reads-map (λ x. some (integer x)) (le_bytes 8 (to_uint64 v)) (get_int64-Reads v h)
  get_value-Reads (float v) h =
      Reads-map (λ x. some (float x)) (le_bytes 8 v) (unfold get_float64 in get_uint64-Reads v h)
  get_value-Reads (boolean true) h =
      Reads-map (λ v. some (boolean (is_nonzero v))) (le_bytes 8 1)
        (get_int64-Reads (pos 1) (omega arith))
  get_value-Reads (boolean false) h =
      Reads-map (λ v. some (boolean (is_nonzero v))) (le_bytes 8 0)
        (get_int64-Reads (pos 0) (omega arith))
  get_value-Reads (blob v) h = Reads-map (λ x. some (blob x)) _ (get_blob-Reads v h)
  get_value-Reads (text v) h = Reads-map (λ x. some (text x)) _ (get_string-Reads v h)
  get_value-Reads null h =
      Reads-map (λ x. some null) (le_bytes 8 0) (get_uint64-Reads 0 (omega arith))
  get_value-Reads (time v) (n, e) =
      subst (Reads (get_string >>= λ s. pure (parse_time parse unix s)) (string_bytes (format v))) e
        (Reads-map (parse_time parse unix) (string_bytes (format v))
          (get_string-Reads (format v) n))
  get_value-Reads other h = absurd h

  unfoldable pub row_bytes : List (Value Time) → List ℕ
  row_bytes [] = []
  row_bytes (v ∷ vs) = value_bytes format v ++ row_bytes vs

  get_values-Reads :
      (vs : List (Value Time))
      → All IsReadable vs
      → Reads (get_values parse unix (codes vs)) (row_bytes vs) (some vs)
  unfolding get_values row_bytes
  get_values-Reads [] h = Reads-pure (some [])
  get_values-Reads (v ∷ vs) (h, hs) =
      Reads-bind _ (value_bytes format v) (row_bytes vs) (get_value-Reads v h) (
        Reads-map (λ o. elim o [ none ↦ none | some bs ↦ some (v ∷ bs) ]) (row_bytes vs)
          (get_values-Reads vs hs))

  codes-AreTypes : (vs : List (Value Time)) → AreTypes (codes vs)
  codes-AreTypes [] = tt
  codes-AreTypes (integer v ∷ vs) = (omega arith, codes-AreTypes vs)
  codes-AreTypes (float v ∷ vs) = (omega arith, codes-AreTypes vs)
  codes-AreTypes (boolean v ∷ vs) = (omega arith, codes-AreTypes vs)
  codes-AreTypes (blob v ∷ vs) = (omega arith, codes-AreTypes vs)
  codes-AreTypes (text v ∷ vs) = (omega arith, codes-AreTypes vs)
  codes-AreTypes (null ∷ vs) = (omega arith, codes-AreTypes vs)
  codes-AreTypes (time v ∷ vs) = (omega arith, codes-AreTypes vs)
  codes-AreTypes (other ∷ vs) = (omega arith, codes-AreTypes vs)

  pub length-codes : (vs : List (Value Time)) → length (codes vs) ≡ length vs
  length-codes [] = refl
  length-codes (v ∷ vs) = ap suc (length-codes vs)

  -- The encoding of one row: the header of its types, and its values.
  abbrev pub encoded_row : List (Value Time) → List ℕ
  encoded_row vs = header_bytes (row_header_size (length vs)) (codes vs) ++ row_bytes vs

  -- Next reads back the row that its encoding holds, whatever types were cached, and caches its types.
  pub next-Reads :
      (r : Rows) (vs : List (Value Time))
      → length (slots r) ≡ length vs
      → 0 < length vs
      → All IsReadable vs
      → Reads
          (next parse unix r)
          (encoded_row vs)
          (row vs, record { columns = r.columns; types = some (codes vs) })
  unfolding next
  next-Reads r vs same some_value h =
      let n = row_header_size (length vs) in
      Reads-bind _ (header_bytes n (codes vs)) (row_bytes vs)
        (subst
          (λ k.
            Reads (column_types false r) (header_bytes (row_header_size k) (codes vs))
              (with_types r (found (codes vs))))
          same
          (column_types-Reads r (codes vs) (same ∙ sym (length-codes vs)) (omega arith)
            (codes-AreTypes vs)))
        (unfold found in Reads-map _ (row_bytes vs) (get_values-Reads vs h))
