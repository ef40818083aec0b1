-- ===== src/Message/Columns.antt =====
-- Rows.ColumnTypes of internal/protocol/message.go, and what it returns behind a row.
use go_dqlite.Prelude.{
  ℕ, ◌+◌, ◌<◌, ◌≤◌, ◌≡◌, refl, ap, true, Option, none, some, List, [], ◌∷◌, ◌++◌, length, All, map,
}
use go_dqlite.Prelude.{◌==◌, if◌then◌else◌}
use go_dqlite.Prelude.Int.{ℤ}
use go_dqlite.Message.State.{ok, Message, Action, advance, ◌>>=◌, pure}
use go_dqlite.Message.Values.{
  Value, integer, float, boolean, blob, text, null, time, other, integer_code, float_code,
  text_code, blob_code, null_code, unix_time_code, iso8601_code, boolean_code,
}
use go_dqlite.Message.Get.{body_size, remaining}
use go_dqlite.Message.Rows.{Rows, Signal, more, row, slots, column_types, next}
use go_dqlite.Message.ReadRows.{IsReadable, codes, encoded_row, next-Reads}

-- What ColumnTypes returns: a name for each column with the error of columnTypes, or the error of an
-- unknown type.
pub data ColumnNames : Type 0 where
  names : List (List ℕ) → Signal → ColumnNames
  unknown : ℕ → ColumnNames

-- The switch over the types; `none` is its default.
unfoldable pub type_name : ℕ → Option (List ℕ)
type_name t =
    if t == integer_code
    then some (b'I' ∷ b'N' ∷ b'T' ∷ b'E' ∷ b'G' ∷ b'E' ∷ b'R' ∷ [])
    else if t == float_code
    then some (b'F' ∷ b'L' ∷ b'O' ∷ b'A' ∷ b'T' ∷ [])
    else if t == blob_code
    then some (b'B' ∷ b'L' ∷ b'O' ∷ b'B' ∷ [])
    else if t == text_code
    then some (b'T' ∷ b'E' ∷ b'X' ∷ b'T' ∷ [])
    else if t == null_code
    then some (b'N' ∷ b'U' ∷ b'L' ∷ b'L' ∷ [])
    else if t == unix_time_code
    then some (b'T' ∷ b'I' ∷ b'M' ∷ b'E' ∷ [])
    else if t == iso8601_code
    then some (b'T' ∷ b'I' ∷ b'M' ∷ b'E' ∷ [])
    else if t == boolean_code
    then some (b'B' ∷ b'O' ∷ b'O' ∷ b'L' ∷ [])
    else none

-- One more name in front.
unfoldable with_name : List ℕ → ColumnNames → ColumnNames
with_name n (names ns s) = names (n ∷ ns) s
with_name n (unknown t) = unknown t

-- The loop of ColumnTypes.
unfoldable pub type_names : Signal → List ℕ → ColumnNames
unfolding type_name with_name
type_names signal [] = names [] signal
type_names signal (t ∷ ts) =
    let others = type_names signal ts in
    elim (type_name t) [ none ↦ unknown t | some n ↦ with_name n others ]

-- Rows.ColumnTypes
unfoldable pub column_names : Rows → Action (ColumnNames × Rows)
unfolding type_names
column_names r = do (c, r') ← column_types true r; pure (type_names c.signal c.types, r')

module _ {Time : Type 0} (format : Time → List ℕ) (parse : ℕ → List ℕ → Option Time)
    (unix : ℤ → Time) where
  -- The SQL name of the type of a value.
  abbrev pub sql_type : Value Time → List ℕ
  sql_type (integer v) = b'I' ∷ b'N' ∷ b'T' ∷ b'E' ∷ b'G' ∷ b'E' ∷ b'R' ∷ []
  sql_type (float v) = b'F' ∷ b'L' ∷ b'O' ∷ b'A' ∷ b'T' ∷ []
  sql_type (boolean v) = b'B' ∷ b'O' ∷ b'O' ∷ b'L' ∷ []
  sql_type (blob v) = b'B' ∷ b'L' ∷ b'O' ∷ b'B' ∷ []
  sql_type (text v) = b'T' ∷ b'E' ∷ b'X' ∷ b'T' ∷ []
  sql_type null = b'N' ∷ b'U' ∷ b'L' ∷ b'L' ∷ []
  sql_type (time v) = b'T' ∷ b'I' ∷ b'M' ∷ b'E' ∷ []
  sql_type other = []

  type_names-codes :
      (vs : List (Value Time))
      → All (IsReadable format parse unix) vs
      → type_names more (codes vs) ≡ names (map sql_type vs) more
  unfolding type_names type_name with_name
  type_names-codes [] h = refl
  type_names-codes (integer v ∷ vs) (h, hs) =
      ap (with_name (sql_type (integer v))) (type_names-codes vs hs)
  type_names-codes (float v ∷ vs) (h, hs) =
      ap (with_name (sql_type (float v))) (type_names-codes vs hs)
  type_names-codes (boolean v ∷ vs) (h, hs) =
      ap (with_name (sql_type (boolean v))) (type_names-codes vs hs)
  type_names-codes (blob v ∷ vs) (h, hs) =
      ap (with_name (sql_type (blob v))) (type_names-codes vs hs)
  type_names-codes (text v ∷ vs) (h, hs) =
      ap (with_name (sql_type (text v))) (type_names-codes vs hs)
  type_names-codes (null ∷ vs) (h, hs) = ap (with_name (sql_type null)) (type_names-codes vs hs)
  type_names-codes (time v ∷ vs) (h, hs) =
      ap (with_name (sql_type (time v))) (type_names-codes vs hs)
  type_names-codes (other ∷ vs) (h, hs) = absurd h

  -- Where the encoding of a row with columns and readable values is next in a message, Next
  -- returns the row, and ColumnTypes, called after it, the SQL names of the types of its values,
  -- without a change of the message.
  pub column_names-next :
      (r : Rows) (vs : List (Value Time)) (s : Message) (rest : List ℕ)
      → length (slots r) ≡ length vs
      → 0 < length vs
      → All (IsReadable format parse unix) vs
      → remaining s ≡ encoded_row format parse unix vs ++ rest
      → s.body.offset + length (encoded_row format parse unix vs) ≤ body_size s
      → (r' : Rows) × (s' : Message) × (next parse unix r s ≡ ok ((row vs, r'), s'))
        × (column_names r' s' ≡ ok ((names (map sql_type vs) more, r'), s'))
  unfolding column_names column_types
  column_names-next r vs s rest same some_value h e fits =
      let r' : Rows = record { columns = r.columns; types = some (codes vs) } in
      let s' = advance (length (encoded_row format parse unix vs)) s in
      (
        r',
        s',
        (next-Reads format parse unix r vs same some_value h).run s rest e fits,
        ap (λ n. ok ((n, r'), s')) (type_names-codes vs h),
      )
