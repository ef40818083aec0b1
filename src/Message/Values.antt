-- ===== src/Message/Values.antt =====
-- The statement parameters of internal/protocol/message.go: putNamedValues and putNamedValues32.
use go_dqlite.Prelude.{ℕ, ◌+◌, ◌-◌, ◌%◌, ◌^◌, Bool, true, false}
use go_dqlite.Prelude.{List, [], ◌∷◌, length, ltb, ◌==◌, if◌then◌else◌}
use go_dqlite.Prelude.Int.{ℤ, pos, to_uint64}
use go_dqlite.Message.State.{
  unexpected_ordinal, unsupported_value, too_many_parameters, Action, ◌>>=◌, ◌>>◌, pure, fail,
  word_size,
}
use go_dqlite.Message.Put.{
  buffer_for_put, get_offset, do_advance, put_uint8, put_uint32, put_uint64, put_blob, put_string,
}

-- SQLite's datatype codes, and those for times and booleans (constants.go).
abbrev pub integer_code : ℕ
integer_code = 1

abbrev pub float_code : ℕ
float_code = 2

abbrev pub text_code : ℕ
text_code = 3

abbrev pub blob_code : ℕ
blob_code = 4

abbrev pub null_code : ℕ
null_code = 5

abbrev pub unix_time_code : ℕ
unix_time_code = 9

abbrev pub iso8601_code : ℕ
iso8601_code = 10

abbrev pub boolean_code : ℕ
boolean_code = 11

-- The dynamic types that the type switches tell apart. A float64 is its bit pattern, the result of
-- math.Float64bits; `other` is a value of any other type.
pub data Value (Time : Type 0) : Type 0 where
  integer : ℤ → Value Time
  float : ℕ → Value Time
  boolean : Bool → Value Time
  blob : List ℕ → Value Time
  text : List ℕ → Value Time
  null : Value Time
  time : Time → Value Time
  other : Value Time

-- driver.NamedValue, with the fields that the encoding reads.
pub record NamedValue (Time : Type 0) : Type 0 where
  pub ordinal : ℕ
  pub value : Value Time

unfoldable pub put_int64 : ℤ → Action (Unit {0})
put_int64 v = put_uint64 (to_uint64 v)

unfoldable pub put_float64 : ℕ → Action (Unit {0})
put_float64 bits = put_uint64 bits

-- `format` is time.Time.Format at the first of iso8601Formats.
module _ {Time : Type 0} (format : Time → List ℕ) where
  -- The type byte of the first loop.
  unfoldable pub put_type : Value Time → Action (Unit {0})
  put_type (integer v) = put_uint8 integer_code
  put_type (float v) = put_uint8 float_code
  put_type (boolean v) = put_uint8 boolean_code
  put_type (blob v) = put_uint8 blob_code
  put_type (text v) = put_uint8 text_code
  put_type null = put_uint8 null_code
  put_type (time v) = put_uint8 iso8601_code
  put_type other = fail unsupported_value

  -- The first loop, from index `i` on.
  unfoldable pub put_types : ℕ → List (NamedValue Time) → Action (Unit {0})
  unfolding put_type
  put_types i [] = pure tt
  put_types i (v ∷ vs) =
      (if v.ordinal == i + 1 then put_type v.value else fail unexpected_ordinal)
      >> put_types (i + 1) vs

  -- The padding behind the types: the offset is advanced, and the bytes passed over stay.
  unfoldable pub skip_padding : Action (Unit {0})
  skip_padding = do
    buffer_for_put 1
    offset ← get_offset
    let trailing = offset % word_size
    if trailing == 0 then pure tt else do_advance (word_size - trailing)

  -- The body of the second loop.
  unfoldable pub put_value : Value Time → Action (Unit {0})
  unfolding put_int64 put_float64
  put_value (integer v) = put_int64 v
  put_value (float v) = put_float64 v
  put_value (boolean true) = put_uint64 1
  put_value (boolean false) = put_uint64 0
  put_value (blob v) = put_blob v
  put_value (text v) = put_string v
  put_value null = put_int64 (pos 0)
  put_value (time v) = put_string (format v)
  put_value other = fail unsupported_value

  unfoldable pub put_values : List (NamedValue Time) → Action (Unit {0})
  unfolding put_value
  put_values [] = pure tt
  put_values (v ∷ vs) = put_value v.value >> put_values vs

  unfoldable pub put_named_values_inner : List (NamedValue Time) → Action (Unit {0})
  unfolding put_types skip_padding put_values
  put_named_values_inner values = do put_types 0 values; skip_padding; put_values values

  unfoldable pub put_named_values : List (NamedValue Time) → Action (Unit {0})
  put_named_values values =
      if length values == 0
      then pure tt
      else if ltb 255 (length values)
      then fail too_many_parameters
      else (do put_uint8 (length values); put_named_values_inner values)

  unfoldable pub put_named_values32 : List (NamedValue Time) → Action (Unit {0})
  put_named_values32 values =
      if length values == 0
      then pure tt
      else if ltb (2 ^ 32 - 1) (length values)
      then fail too_many_parameters
      else (do put_uint32 (length values); put_named_values_inner values)
