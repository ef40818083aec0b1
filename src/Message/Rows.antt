-- ===== src/Message/Rows.antt =====
-- Result sets and files read from a message body: Rows and Files of internal/protocol/message.go.
-- Both point to their message, which here is passed along.
use go_dqlite.Prelude.{
  ℕ, zero, suc, ◌+◌, ◌-◌, ◌*◌, ◌/◌, ◌%◌, Bool, true, false, not, ◌&&◌, Option, none, some,
}
use go_dqlite.Prelude.{List, [], ◌∷◌, length, replicate, set, leb, ◌==◌, if◌then◌else◌}
use go_dqlite.Prelude.Int.{ℤ, pos, negsuc}
use go_dqlite.Message.State.{
  ok, panic, stuck, unknown_type, Action, ◌>>=◌, ◌>>◌, pure, fail, reset, word_size, word_bits,
}
use go_dqlite.Message.Get.{
  has_been_consumed, last_byte, buffer_for_get, get_uint8, get_uint64, get_int64, get_float64,
  get_string, get_bytes, get_blob, get_strings,
}
use go_dqlite.Message.Values.{
  Value, integer, float, boolean, blob, text, null, time, integer_code, float_code, text_code,
  blob_code, null_code, unix_time_code, iso8601_code, boolean_code,
}

-- `types` is nil until the first row header is read.
pub record Rows : Type 0 where
  pub columns : List (List ℕ)
  pub types : Option (List ℕ)

-- The errors of Rows: none, ErrRowsPart and io.EOF.
pub data Signal : Type 0 where
  more rows_part eof : Signal

pub record ColumnTypes : Type 0 where
  pub types : List ℕ
  pub signal : Signal

unfoldable pub get_rows : Action Rows
get_rows = do
  n ← get_uint64
  columns ← get_strings n
  pure (record { columns = columns; types = none })

-- Advance(-amount); the offset has passed these bytes before.
unfoldable pub retreat : ℕ → Action (Unit {0})
retreat amount m = ok (tt, record m { body = record m.body { offset = m.body.offset - amount } })

-- bufferForGet().Advance(-amount), if the offset is to be restored.
unfoldable pub restore : Bool → ℕ → Action (Unit {0})
unfolding retreat
restore true amount = buffer_for_get >> retreat amount
restore false amount = pure tt

-- The two slots of a byte of the row header: slot & 0x0f and slot >> 4, where they are no padding.
unfoldable pub set_slots : List ℕ → ℕ → ℕ → List ℕ
set_slots types i slot =
    if leb (length types) (i * 2)
    then types
    else let low = set types (i * 2) (slot % 16) in
      if leb (length types) (i * 2 + 1) then low else set low (i * 2 + 1) (slot / 16)

-- The loop of columnTypes, with `n` bytes of the header left; it ends at a marker.
unfoldable pub read_types : Bool → ℕ → ℕ → List ℕ → Action ColumnTypes
unfolding restore set_slots
read_types save zero i types = do restore save i; pure (record { types = types; signal = more })
read_types save (suc n) i types = do
  slot ← get_uint8
  if slot == 0xee
      then (do restore save (i + 1); pure (record { types = types; signal = rows_part }))
      else if slot == 0xff
      then (do restore save (i + 1); pure (record { types = types; signal = eof }))
      else read_types save n (i + 1) (set_slots types i slot)

-- The bytes of a row header for `n` columns: a 4-bit slot each, padded to a word.
unfoldable pub row_header_size : ℕ → ℕ
row_header_size n =
    let header_bits = n * 4 in
    let trailing_bits = header_bits % word_bits in
    let pad_bits = if trailing_bits == 0 then 0 else word_bits - trailing_bits in
    (header_bits + pad_bits) / word_bits * word_size

-- The cached types, or a zero for each column.
abbrev pub slots : Rows → List ℕ
slots r = elim r.types [ none ↦ replicate (length r.columns) 0 | some types ↦ types ]

abbrev pub is_cached : Rows → Bool
is_cached r = elim r.types [ none ↦ false | some _ ↦ true ]

abbrev pub with_types : Rows → ColumnTypes → ColumnTypes × Rows
with_types r c = (c, record r { types = some c.types })

-- Rows.columnTypes. The slice of types is shared, so that what was read before a marker stays.
unfoldable pub column_types : Bool → Rows → Action (ColumnTypes × Rows)
column_types save r =
    if save && is_cached r
    then pure (record { types = slots r; signal = more }, r)
    else if length (slots r) == 0
    then pure (with_types r (record { types = slots r; signal = eof }))
    else (do
      c ← read_types save (row_header_size (length (slots r))) 0 (slots r)
      pure (with_types r c))

-- What Rows.Next returns: a row, an error of columnTypes, or the error of time.ParseInLocation.
pub data Next (Time : Type 0) : Type 0 where
  row : List (Value Time) → Next Time
  ended : Signal → Next Time
  bad_time : Next Time

-- strings.TrimSuffix(s, "Z")
unfoldable pub trim_z : List ℕ → List ℕ
trim_z [] = []
trim_z (c ∷ []) = if c == b'Z' then [] else c ∷ []
trim_z (c ∷ d ∷ s) = c ∷ trim_z (d ∷ s)

-- v != 0
abbrev pub is_nonzero : ℤ → Bool
is_nonzero (pos n) = not (n == 0)
is_nonzero (negsuc n) = true

-- `parse` is time.ParseInLocation in UTC at the formats of iso8601Formats, by their index, and `unix`
-- is time.Unix of whole seconds.
module _ {Time : Type 0} (parse : ℕ → List ℕ → Option Time) (unix : ℤ → Time) where
  -- The loop over the formats, with `n` of them left from index `i` on.
  unfoldable pub parse_any : ℕ → ℕ → List ℕ → Option Time
  parse_any zero i s = none
  parse_any (suc n) i s =
      let rest = parse_any n (i + 1) s in elim (parse i s) [ some t ↦ some t | none ↦ rest ]

  unfoldable pub parse_time : List ℕ → Option (Value Time)
  unfolding parse_any trim_z
  parse_time [] = some null
  parse_time (c ∷ s) = elim (parse_any 9 0 (trim_z (c ∷ s))) [
    | some t ↦ some (time t)
    | none ↦ none
  ]

  -- The body of the loop of Next over the types; `none` is the error of a time.
  unfoldable pub get_value : ℕ → Action (Option (Value Time))
  unfolding parse_time
  get_value code =
      if code == integer_code
      then (do v ← get_int64; pure (some (integer v)))
      else if code == float_code
      then (do v ← get_float64; pure (some (float v)))
      else if code == blob_code
      then (do v ← get_blob; pure (some (blob v)))
      else if code == text_code
      then (do v ← get_string; pure (some (text v)))
      else if code == null_code
      then (do _ ← get_uint64; pure (some null))
      else if code == unix_time_code
      then (do v ← get_int64; pure (some (time (unix v))))
      else if code == iso8601_code
      then (do v ← get_string; pure (parse_time v))
      else if code == boolean_code
      then (do v ← get_int64; pure (some (boolean (is_nonzero v))))
      else fail unknown_type

  unfoldable pub get_values : List ℕ → Action (Option (List (Value Time)))
  get_values [] = pure (some [])
  get_values (code ∷ codes) = do
    v ← get_value code
    elim v [
      | none ↦ pure none
      | some a ↦ (do
        vs ← get_values codes
        pure (elim vs [ none ↦ none | some bs ↦ some (a ∷ bs) ]))
    ]

  next_values : ColumnTypes × Rows → Action (Next Time × Rows)
  next_values (c, r) = elim c.signal [
    | more ↦ (do vs ← get_values c.types; pure (elim vs [ none ↦ bad_time | some bs ↦ row bs ], r))
    | rows_part ↦ pure (ended rows_part, r)
    | eof ↦ pure (ended eof, r)
  ]

  -- Rows.Next, into a destination that is as long as the row.
  unfoldable pub next : Rows → Action (Next Time × Rows)
  unfolding next_values
  next r = column_types false r >>= next_values

-- What Rows.Close returns.
pub data CloseError : Type 0 where
  consumed closed_part closed_eof unexpected_end : CloseError

close_error : Action CloseError
close_error m = if has_been_consumed m then ok (consumed, m) else elim (last_byte m) [
  | ok slot ↦
      ok (
        if slot == 0xee then closed_part else if slot == 0xff then closed_eof else unexpected_end,
        m,
      )
  | panic p ↦ panic p
  | stuck ↦ stuck
]

-- Rows.Close
unfoldable pub close : Action CloseError
unfolding close_error
close = do e ← close_error; reset; pure e

-- Files, and the name and data of one.
pub record File : Type 0 where
  pub name : List ℕ
  pub content : List ℕ

unfoldable pub get_files : Action ℕ
get_files = get_uint64

-- Files.Next with `n` files left: the file, and how many are left.
unfoldable pub next_file : ℕ → Action (File × ℕ)
next_file zero = pure (record { name = []; content = [] }, 0)
next_file (suc n) = do
  name ← get_string
  size ← get_uint64
  bs ← get_bytes size
  pure (record { name = name; content = bs }, n)
