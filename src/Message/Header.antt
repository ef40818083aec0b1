-- ===== src/Message/Header.antt =====
-- putHeader of internal/protocol/message.go, and the whole encoding of a body and its header.
use go_dqlite.Prelude.{ℕ, ◌+◌, ◌/◌, ◌%◌, ◌^◌, ◌<◌, ◌≡◌, refl, ap, sym, subst, ◌∙◌, arith}
use go_dqlite.Prelude.{
  List, [], ◌∷◌, ◌++◌, length, append_assoc, append-nil, ==-ne, lt→leb, ==_of_eq, length-append,
}
use go_dqlite.Message.State.{ok, Message, Action, ◌>>◌}
use go_dqlite.Message.Action.{bind_ok}
use go_dqlite.Message.Bytes.{le_bytes, length-le_bytes, padding}
use go_dqlite.Message.Put.{copy_at, finalize, put_header}
use go_dqlite.Message.Writes.{IsReady, content, Appends-offset}
use go_dqlite.Message.Text.{length-string_bytes}
use go_dqlite.Message.Params.{length-type_bytes}
use go_dqlite.Message.Fields.{
  Field, uint64, uint32, string, params, values_bytes, type_bytes, EncodesField, Encodes, WritesAt,
}

-- The header of a message: the words of the body, the type, the schema and the reserved field.
abbrev pub wire_header : ℕ → ℕ → ℕ → List ℕ
wire_header words mtype schema = le_bytes 4 words ++ (mtype ∷ schema ∷ le_bytes 2 0)

finalize_header :
    (h : List ℕ) (words mtype schema : ℕ) (m : Message)
    → length h ≡ 8
    → m.header ≡ h
    → 0 < words
    → finalize words mtype schema 0 m
      ≡ ok (tt, record m { header = wire_header words mtype schema })
unfolding finalize copy_at le_bytes
finalize_header (a ∷ b ∷ c ∷ d ∷ e ∷ f ∷ g ∷ h ∷ []) words mtype schema m len eq w =
    rw (==-ne words 0 (omega arith), eq)
finalize_header h words mtype schema m len eq w = absurd (omega arith)

-- On a body of whole words, not empty and below 2 ^ 32 bytes, and a header of 8 bytes, putHeader
-- returns, and sets the type, the schema version and the number of words, in the message and in
-- its header.
pub put_header_lem :
    (mtype schema : ℕ) (m : Message)
    → length m.header ≡ 8
    → 0 < m.body.offset
    → m.body.offset % 8 ≡ 0
    → m.body.offset < 2 ^ 32
    → put_header mtype schema m
      ≡ ok (
        tt,
        record m {
          mtype = mtype;
          schema = schema;
          extra = 0;
          words = m.body.offset / 8;
          header = wire_header (m.body.offset / 8) mtype schema;
        },
      )
unfolding put_header
put_header_lem mtype schema m len pos al small =
    let o = m.body.offset in
    let unwrapped : o % 2 ^ 32 ≡ o = omega arith in
    rw (lt→leb o 0 pos, ==_of_eq (o % 8) 0 al, unwrapped)
      (finalize_header m.header (o / 8) mtype schema
        (record m { mtype = mtype; schema = schema; extra = 0; words = o / 8 }) len refl
        (omega arith))

module _ {Time : Type 0} (format : Time → List ℕ) where
  -- The offset behind fields that begin at offset `o`.
  abbrev pub size : ℕ → List (Field Time) → ℕ
  size o [] = o
  size o (uint64 n ∷ fs) = size (o + 8) fs
  size o (uint32 n ∷ fs) = size (o + 4) fs
  size o (string v ∷ fs) = size (o + (length v + 1 + padding (length v + 1))) fs
  size o (params w [] ∷ fs) = size o fs
  size o (params w (v ∷ vs) ∷ fs) =
      let n = w + length (v ∷ vs) in
      size (o + (n + padding (o + n) + length (values_bytes format (v ∷ vs)))) fs

  length-field :
      (o : ℕ) (f : Field Time) (fs : List (Field Time)) (xs : List ℕ)
      → EncodesField format o f xs
      → size (o + length xs) fs ≡ size o (f ∷ fs)
  length-field o (uint64 n) fs xs e =
      ap (λ l. size (o + l) fs) (ap (λ l. length l) e ∙ length-le_bytes 8 n)
  length-field o (uint32 n) fs xs e =
      ap (λ l. size (o + l) fs) (ap (λ l. length l) e ∙ length-le_bytes 4 n)
  length-field o (string v) fs xs e =
      ap (λ l. size (o + l) fs) (ap (λ l. length l) e ∙ length-string_bytes v)
  length-field o (params w []) fs xs e = ap (λ l. size l fs) (omega (arith, ap (λ l. length l) e))
  length-field o (params w (v ∷ vs)) fs xs (pad, len, e) =
      ap (λ l. size (o + l) fs)
        (omega (
          arith,
          ap (λ l. length l) e,
          len,
          length-append (le_bytes w (length (v ∷ vs)))
              (type_bytes format (v ∷ vs) ++ (pad ++ values_bytes format (v ∷ vs))),
          length-append (type_bytes format (v ∷ vs)) (pad ++ values_bytes format (v ∷ vs)),
          length-append pad (values_bytes format (v ∷ vs)),
          length-le_bytes w (length (v ∷ vs)),
          length-type_bytes format (v ∷ vs),
        ))

  -- A body and its header, from the message `s` on: the fields are encoded behind the content of `s`.
  pub record Completed (fs : List (Field Time)) (mtype schema : ℕ) (s t : Message) : Type 0 where
    pub encoding : List ℕ
    pub contents : content t ≡ content s ++ encoding
    pub encodes : Encodes format s.body.offset fs encoding
    pub offset : t.body.offset ≡ size s.body.offset fs
    pub words : t.words ≡ size s.body.offset fs / 8
    pub mtype_set : t.mtype ≡ mtype
    pub schema_set : t.schema ≡ schema
    pub header : t.header ≡ wire_header (size s.body.offset fs / 8) mtype schema
    pub ready : IsReady t

  -- `a` writes the fields from the offset on, and then the header.
  pub record Completes (a : Action Unit) (fs : List (Field Time)) (mtype schema : ℕ) : Type 0 where
    pub run :
        (s : Message)
        → IsReady s
        → length s.header ≡ 8
        → 0 < size s.body.offset fs
        → size s.body.offset fs % 8 ≡ 0
        → size s.body.offset fs < 2 ^ 32
        → (t : Message) × (a s ≡ ok (tt, t)) × Completed fs mtype schema s t

  pub put_header-Completes :
      (mtype schema : ℕ) → Completes (put_header mtype schema) [] mtype schema
  put_header-Completes mtype schema = record {
    run = λ s r len pos al small. (
      _,
      put_header_lem mtype schema s len pos al small,
      record {
        encoding = [];
        contents = sym (append-nil (content s));
        encodes = refl;
        offset = refl;
        words = refl;
        mtype_set = refl;
        schema_set = refl;
        header = refl;
        ready = record { positive = r.positive; within = r.within; aligned = r.aligned };
      },
    );
  }

  pub Completes-field :
      (f : Field Time) {fs : List (Field Time)} {mtype schema : ℕ} (p : Action Unit)
      {a : Action Unit}
      → WritesAt p (λ o. EncodesField format o f)
      → Completes a fs mtype schema
      → Completes (p >> a) (f ∷ fs) mtype schema
  Completes-field f {fs} {mtype} {schema} p {a} wp wa = record {
    run = λ s r len pos al small.
        let (t, xs, e, h, hf) = wp s r in
        let o = s.body.offset in
        let at : t.body.offset ≡ o + length xs = Appends-offset r h in
        let whole : size t.body.offset fs ≡ size o (f ∷ fs) =
          ap (λ n. size n fs) at ∙ length-field o f fs xs hf in
        let (u, d, c) =
          wa.run t h.ready (rw h.header len) (omega (arith, whole)) (omega (arith, whole))
            (omega (arith, whole)) in
        (
          u,
          bind_ok p (λ _. a) e ∙ d,
          record {
            encoding = xs ++ c.encoding;
            contents =
                c.contents ∙ ap (λ l. l ++ c.encoding) h.contents ∙ append_assoc _ xs c.encoding;
            encodes = (
              xs,
              c.encoding,
              refl,
              hf,
              subst (λ n. Encodes format n fs c.encoding) at c.encodes,
            );
            offset = c.offset ∙ whole;
            words = c.words ∙ ap (λ n. n / 8) whole;
            mtype_set = c.mtype_set;
            schema_set = c.schema_set;
            header = c.header ∙ ap (λ n. wire_header (n / 8) mtype schema) whole;
            ready = c.ready;
          },
        );
  }
