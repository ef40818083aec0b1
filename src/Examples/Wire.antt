-- ===== src/Examples/Wire.antt =====
-- internal/protocol on small messages. Times are numbers, of one digit in text.
use go_dqlite.Prelude.{true, ℕ, ◌+◌, ◌/◌, ◌%◌, ◌≤◌, ◌≡◌, refl, arith, false, ◌⊎◌}
use go_dqlite.Prelude.{Option, none, some, List, [], ◌∷◌, ◌++◌, length, take, replicate}
use go_dqlite.Prelude.Int.{ℤ, pos, negsuc}
use go_dqlite.Message.State.{Panic, Message, ok, panic, stuck, init, advance}
use go_dqlite.Message.Bytes.{le_bytes, padding}
use go_dqlite.Message.Put.{grow, buffer_for_put, put_string, put_blob, put_header}
use go_dqlite.Message.Writes.{IsReady, Appends}
use go_dqlite.Message.Text.{string_bytes, blob_bytes}
use go_dqlite.Message.Values.{
  boolean, Value, integer, text, null, time, NamedValue, put_named_values,
}
use go_dqlite.Message.Fields.{AreBindable, EncodesField, params, value_bytes, values_bytes}
use go_dqlite.Message.Header.{wire_header, put_header_lem}
use go_dqlite.Message.Binding.{put_named_values_lem}
use go_dqlite.Message.Start.{init-buffer_for_put, init_of_zero-stuck}
use go_dqlite.Message.Get.{get_string, get_blob}
use go_dqlite.Message.Columns.{names, column_names, column_names-next}
use go_dqlite.Message.Rows.{Rows, more, row, next, row_header_size, parse_time, parse_any, trim_z}
use go_dqlite.Message.ReadRows.{encoded_row, header_bytes, row_bytes}
use go_dqlite.Message.ReadAll.{marker, read_all, result_set, results, rows_bytes, read_all_lem}
use go_dqlite.Message.RoundTrip.{
  received, get_string-put_string, get_blob-put_blob, get_string-put_string_of_nul,
}
use go_dqlite.Protocol.Schema.{encode, exec_v0}
use go_dqlite.Protocol.Encoding.{IsEncoded, encode_lem}

abbrev format : ℕ → List ℕ
format t = (48 + t % 10) ∷ []

-- The first format reads a digit.
unfoldable parse_digit : List ℕ → Option ℕ
parse_digit [] = none
parse_digit (b ∷ bs) = some ((b + 2) % 10)

abbrev parse : ℕ → List ℕ → Option ℕ
parse i s = parse_digit s

abbrev unix : ℤ → ℕ
unix (pos n) = n
unix (negsuc n) = 0

-- A message to write to, with a buffer of two words.
abbrev blank : Message
blank = record {
  words = 0;
  mtype = 0;
  schema = 0;
  extra = 0;
  header = replicate 8 0;
  body = record { bytes = replicate 16 0; offset = 0 };
}

-- A received message.
abbrev pub reply : ℕ → List ℕ → Message
reply mtype bytes = record {
  words = length bytes / 8;
  mtype = mtype;
  schema = 0;
  extra = 0;
  header = replicate 8 0;
  body = record { bytes = bytes; offset = 0 };
}

abbrev values : List (NamedValue ℕ)
values =
    record { ordinal = 1; value = text (104 ∷ 105 ∷ []) }
    ∷ record { ordinal = 2; value = integer (negsuc 4) }
    ∷ record { ordinal = 3; value = time 7 }
    ∷ []

values-AreBindable : AreBindable 0 values
values-AreBindable = (refl, tt, (refl, tt, (refl, tt, tt)))

encode_lem_example :
    (t : Message) × (encode format (exec_v0 1 2 values) blank ≡ ok (tt, t))
    × IsEncoded format (exec_v0 1 2 values) t
unfolding value_bytes values_bytes string_bytes padding le_bytes
encode_lem_example =
    encode_lem format (exec_v0 1 2 values) blank (values-AreBindable, omega arith) (omega arith)
      refl (omega arith)

blank-IsReady : IsReady blank
blank-IsReady = record { positive = omega arith; within = omega arith; aligned = refl }

put_named_values_lem_example :
    ((AreBindable 0 values × (length values ≤ 255))
      × ((t : Message) × (enc : List ℕ) × (put_named_values format values blank ≡ ok (tt, t))
          × Appends blank enc t
          × EncodesField format 0 (params 1 values) enc))
    ⊎ ((¬ (AreBindable 0 values × (length values ≤ 255)))
        × ((p : Panic) × (put_named_values format values blank ≡ panic p)))
put_named_values_lem_example = put_named_values_lem format values blank blank-IsReady

-- A message of eight bytes, all of them written.
abbrev written : Message
written = record blank { body = record { bytes = 1 ∷ 2 ∷ 3 ∷ 4 ∷ 5 ∷ 6 ∷ 7 ∷ 8 ∷ []; offset = 8 } }

init-buffer_for_put_example :
    (s : Message) × (t : Message) × (init 8 blank ≡ ok (tt, s))
    × (length s.body.bytes ≡ 8)
    × (s.body.offset ≡ 0)
    × (buffer_for_put 20 written ≡ ok (tt, t))
    × (take 8 t.body.bytes ≡ 1 ∷ 2 ∷ 3 ∷ 4 ∷ 5 ∷ 6 ∷ 7 ∷ 8 ∷ [])
    × (t.body.offset ≡ 8)
    × (8 + 20 ≤ length t.body.bytes)
init-buffer_for_put_example =
    init-buffer_for_put 8 20 blank written (omega arith) refl refl (omega arith)

init_of_zero-stuck_example :
    (s : Message) × (init 0 blank ≡ ok (tt, s))
    × ((fuel : ℕ) → grow fuel (s.body.offset + 1) s.body.bytes ≡ stuck)
    × (buffer_for_put 1 s ≡ stuck)
init_of_zero-stuck_example = init_of_zero-stuck 1 blank (omega arith)

put_header_lem_example :
    put_header 3 1 (advance 16 blank)
    ≡ ok (
      tt,
      record (advance 16 blank) {
        mtype = 3;
        schema = 1;
        extra = 0;
        words = 2;
        header = wire_header 2 3 1;
      },
    )
unfolding advance
put_header_lem_example = put_header_lem 3 1 (advance 16 blank) refl (omega arith) refl (omega arith)

get_string-put_string_example :
    (t : Message) × (put_string (104 ∷ 105 ∷ []) blank ≡ ok (tt, t))
    × (get_string (received 1 0 t) ≡ ok (104 ∷ 105 ∷ [], received 1 t.body.offset t))
unfolding string_bytes padding
get_string-put_string_example =
    get_string-put_string (104 ∷ 105 ∷ []) 1 blank (omega arith, (omega arith, tt)) (omega arith)
      refl (omega arith) (omega arith)

get_blob-put_blob_example :
    (t : Message) × (put_blob (0 ∷ 7 ∷ []) blank ≡ ok (tt, t))
    × (get_blob (received 2 0 t) ≡ ok (0 ∷ 7 ∷ [], received 2 t.body.offset t))
unfolding blob_bytes padding le_bytes
get_blob-put_blob_example =
    get_blob-put_blob (0 ∷ 7 ∷ []) 2 blank (omega arith) (omega arith) refl (omega arith)
      (omega arith)

get_string-put_string_of_nul_example :
    (t : Message) × (put_string (104 ∷ 0 ∷ 105 ∷ []) blank ≡ ok (tt, t))
    × (get_string (received 1 0 t)
        ≡ ok (104 ∷ [], received 1 (0 + length (string_bytes (104 ∷ []))) t))
get_string-put_string_of_nul_example =
    get_string-put_string_of_nul (104 ∷ []) (105 ∷ []) 1 blank (omega arith, tt) (omega arith) refl
      (omega arith) (omega arith)

-- A result set of two columns and two rows.
abbrev columns : List (List ℕ)
columns = (105 ∷ []) ∷ (116 ∷ []) ∷ []

abbrev rows : List (List (Value ℕ))
rows = (integer (negsuc 0) ∷ text (97 ∷ []) ∷ []) ∷ (null ∷ time 3 ∷ []) ∷ []

abbrev result_bytes : List ℕ
result_bytes = result_set format parse unix false columns rows

abbrev message_bytes : List ℕ
message_bytes = result_bytes ++ replicate 7 0xff

read_all_lem_example :
    read_all format parse unix 3 (reply 7 message_bytes)
    ≡ ok (
      (columns, results format parse unix false rows),
      advance (length result_bytes) (reply 7 message_bytes),
    )
unfolding result_set rows_bytes string_bytes padding le_bytes row_bytes header_bytes row_header_size
    marker value_bytes parse_time parse_any trim_z parse_digit
read_all_lem_example =
    read_all_lem format parse unix false columns rows (replicate 7 0xff) (reply 7 message_bytes)
      (omega arith) (omega arith) ((omega arith, tt), ((omega arith, tt), tt))
      (
        (refl, (omega arith, ((omega arith, tt), tt))),
        ((refl, (tt, (((omega arith, tt), refl), tt))), tt),
      )
      refl (omega arith)

abbrev one_column : Rows
one_column = record { columns = (105 ∷ []) ∷ []; types = none }

abbrev one_row : List (Value ℕ)
one_row = boolean true ∷ []

abbrev row_message : Message
row_message = reply 7 (encoded_row format parse unix one_row)

column_names-next_example :
    (r' : Rows) × (s' : Message) × (next parse unix one_column row_message
      ≡ ok ((row one_row, r'), s'))
    × (column_names r' s' ≡ ok ((names ((66 ∷ 79 ∷ 79 ∷ 76 ∷ []) ∷ []) more, r'), s'))
unfolding header_bytes row_header_size row_bytes value_bytes le_bytes
column_names-next_example =
    column_names-next format parse unix one_column one_row row_message [] refl (omega arith)
      (tt, tt) refl (omega arith)
