-- ===== src/Message/ReadAll.antt =====
-- A whole result set of internal/protocol/message.go: getRows, and calls of Rows.Next up to the marker
-- behind the rows.
use go_dqlite.Prelude.{ℕ, zero, suc, ◌+◌, ◌^◌, ◌≤◌, ◌<◌, ◌≡◌, refl, sym, subst, ◌∙◌, arith}
use go_dqlite.Prelude.{
  Bool, true, false, List, [], ◌∷◌, ◌++◌, length, length-replicate, All, Option, none, some,
}
use go_dqlite.Prelude.{==-ne}
use go_dqlite.Prelude.Int.{ℤ}
use go_dqlite.Message.State.{ok, Message, Action, advance, ◌>>=◌, pure}
use go_dqlite.Message.Bytes.{le_bytes}
use go_dqlite.Message.Values.{Value}
use go_dqlite.Message.Get.{body_size, remaining}
use go_dqlite.Message.Reads.{
  Reads, Reads-pure, Reads-bind, Reads-map, get_uint8-Reads, get_uint64-Reads,
}
use go_dqlite.Message.ReadText.{HasNoNul, strings_bytes, get_strings-Reads}
use go_dqlite.Message.Rows.{
  Rows, Signal, rows_part, eof, Next, row, ended, get_rows, slots, column_types, read_types,
  row_header_size, next, with_types,
}
use go_dqlite.Message.ReadRows.{IsReadable, encoded_row, length-codes, next-Reads}

-- The byte that a server puts behind the rows, whether more rows follow in another message, and the
-- error that Next makes of it.
unfoldable pub marker : Bool → ℕ
marker true = 0xee
marker false = 0xff

unfoldable pub marker_signal : Bool → Signal
marker_signal true = rows_part
marker_signal false = eof

row_header_positive : (n : ℕ) → 0 < n → 0 < row_header_size n
unfolding row_header_size
row_header_positive n = ground arith

read_types-marker :
    (part : Bool) (n i : ℕ) (types : List ℕ)
    → Reads
        (read_types false (suc n) i types)
        (marker part ∷ [])
        (record { types = types; signal = marker_signal part })
unfolding read_types marker marker_signal
read_types-marker true n i types = Reads-bind _ (0xee ∷ []) [] (get_uint8-Reads 0xee) (Reads-pure _)
read_types-marker false n i types =
    Reads-bind _ (0xff ∷ []) [] (get_uint8-Reads 0xff) (Reads-pure _)

column_types-marker :
    (part : Bool) (r : Rows)
    → 0 < length (slots r)
    → Reads
        (column_types false r)
        (marker part ∷ [])
        (with_types r (record { types = slots r; signal = marker_signal part }))
unfolding column_types
column_types-marker part r h =
    let (k, e) = positive (row_header_size (length (slots r))) (row_header_positive _ h) in
    rw (==-ne (length (slots r)) 0 (omega arith), e)
      (Reads-map (with_types r) (marker part ∷ []) (read_types-marker part k 0 (slots r)))
  where
    positive : (n : ℕ) → 0 < n → (k : ℕ) × (n ≡ suc k)
    positive zero h = absurd (omega arith)
    positive (suc n) h = (n, refl)

module _ {Time : Type 0} (format : Time → List ℕ) (parse : ℕ → List ℕ → Option Time)
    (unix : ℤ → Time) where
  -- `n` calls of Rows.Next.
  unfoldable pub calls : ℕ → Rows → Action (List (Next Time))
  calls zero r = pure []
  calls (suc n) r = do (x, r') ← next parse unix r; xs ← calls n r'; pure (x ∷ xs)

  -- The rows of a result set, a marker behind them.
  unfoldable pub rows_bytes : Bool → List (List (Value Time)) → List ℕ
  rows_bytes part [] = marker part ∷ []
  rows_bytes part (vs ∷ rows) = encoded_row format parse unix vs ++ rows_bytes part rows

  unfoldable pub results : Bool → List (List (Value Time)) → List (Next Time)
  results part [] = ended (marker_signal part) ∷ []
  results part (vs ∷ rows) = row vs ∷ results part rows

  next-marker-Reads :
      (part : Bool) (r : Rows)
      → 0 < length (slots r)
      → Reads
          (next parse unix r)
          (marker part ∷ [])
          (ended (marker_signal part), record { columns = r.columns; types = some (slots r) })
  unfolding next marker marker_signal
  next-marker-Reads true r h =
      Reads-bind _ (0xee ∷ []) [] (unfold marker marker_signal in column_types-marker true r h)
        (Reads-pure _)
  next-marker-Reads false r h =
      Reads-bind _ (0xff ∷ []) [] (unfold marker marker_signal in column_types-marker false r h)
        (Reads-pure _)

  -- A row of as many columns as the result set has, each value one that the encoding holds.
  abbrev pub IsRow : ℕ → List (Value Time) → Type 0
  IsRow columns vs = (length vs ≡ columns) × All (IsReadable format parse unix) vs

  calls-Reads :
      (part : Bool) (rows : List (List (Value Time))) (r : Rows)
      → 0 < length (slots r)
      → All (IsRow (length (slots r))) rows
      → Reads (calls (suc (length rows)) r) (rows_bytes part rows) (results part rows)
  unfolding calls rows_bytes results
  calls-Reads part [] r p h =
      Reads-bind _ (marker part ∷ []) [] (next-marker-Reads part r p) (Reads-pure _)
  calls-Reads part (vs ∷ rows) r p ((e, v), h) =
      let same = length-codes format parse unix vs ∙ e in
      Reads-bind _ (encoded_row format parse unix vs) (rows_bytes part rows)
        (next-Reads format parse unix r vs (sym e) (omega arith) v)
        (Reads-map (λ xs. row vs ∷ xs) (rows_bytes part rows)
          (calls-Reads part rows _ (omega arith) (subst (λ n. All (IsRow n) rows) (sym same) h)))

  get_rows-Reads :
      (columns : List (List ℕ))
      → All HasNoNul columns
      → length columns < 2 ^ 63
      → Reads get_rows
          (le_bytes 8 (length columns) ++ strings_bytes columns)
          (record { columns = columns; types = none })
  unfolding get_rows
  get_rows-Reads columns h small =
      Reads-bind _ (le_bytes 8 (length columns)) (strings_bytes columns)
        (get_uint64-Reads (length columns) (omega arith))
        (Reads-map (λ cs. record { columns = cs; types = none }) (strings_bytes columns)
          (get_strings-Reads columns h))

  -- A result set: its columns, its rows and a marker.
  unfoldable pub result_set : Bool → List (List ℕ) → List (List (Value Time)) → List ℕ
  result_set part columns rows =
      (le_bytes 8 (length columns) ++ strings_bytes columns) ++ rows_bytes part rows

  -- The columns, and what `n` calls of Next return.
  unfoldable pub read_all : ℕ → Action (List (List ℕ) × List (Next Time))
  read_all n = do r ← get_rows; xs ← calls n r; pure (r.columns, xs)

  pub read_all_lem :
      (part : Bool) (columns : List (List ℕ)) (rows : List (List (Value Time))) (rest : List ℕ)
      (s : Message)
      → 0 < length columns
      → length columns < 2 ^ 63
      → All HasNoNul columns
      → All (IsRow (length columns)) rows
      → remaining s ≡ result_set part columns rows ++ rest
      → s.body.offset + length (result_set part columns rows) ≤ body_size s
      → read_all (length rows + 1) s
        ≡ ok ((columns, results part rows), advance (length (result_set part columns rows)) s)
  unfolding result_set read_all
  read_all_lem part columns rows rest s some_column few h k e fits =
      let start : Rows = record { columns = columns; types = none } in
      let wide : length (slots start) ≡ length columns = length-replicate (length columns) 0 in
      let one : length rows + 1 ≡ suc (length rows) = omega arith in
      let all =
        calls-Reads part rows start (omega arith) (subst (λ n. All (IsRow n) rows) (sym wide) k) in
      let pair : List (List ℕ) → List (Next Time) → Action (List (List ℕ) × List (Next Time)) =
        λ cs xs. pure (cs, xs) in
      let pair_of : List (List ℕ) → List (Next Time) → List (List ℕ) × List (Next Time) =
        λ cs xs. (cs, xs) in
      let whole =
        Reads-bind (λ r. calls (suc (length rows)) r >>= λ xs. pair r.columns xs) _
          (rows_bytes part rows) (get_rows-Reads columns h few)
          (Reads-map (pair_of columns) (rows_bytes part rows) all) in
      rw one (whole.run s rest e fits)
