-- ===== src/Message/RoundTrip.antt =====
-- The writers of internal/protocol/message.go followed by its readers, on the message rewound as one
-- that was received.
use go_dqlite.Prelude.{ℕ, ◌+◌, ◌*◌, ◌%◌, ◌^◌, ◌≤◌, ◌<◌, ◌≡◌, sym, subst, ◌∙◌, ap}
use go_dqlite.Prelude.{
  List, ◌∷◌, ◌++◌, append_assoc, length, drop, replicate, take-append-drop, drop-length_append,
}
use go_dqlite.Message.State.{ok, Message, Action, advance}
use go_dqlite.Message.Bytes.{padding}
use go_dqlite.Message.Put.{put_string, put_blob}
use go_dqlite.Message.Writes.{IsReady, content, length-content, Appends, Appends-offset, Writes}
use go_dqlite.Message.Text.{string_bytes, blob_bytes, put_string-Writes, put_blob-Writes}
use go_dqlite.Message.Get.{remaining, get_string, get_blob}
use go_dqlite.Message.Reads.{Reads}
use go_dqlite.Message.ReadText.{HasNoNul, get_string_lem, get_string-Reads, get_blob-Reads}

-- The bytes of a message in the body of a received one of this many words, read from this offset on.
unfoldable pub received : ℕ → ℕ → Message → Message
received words offset m = record m { words = words; body = record m.body { offset = offset } }

module _ (words : ℕ) {s t : Message} (enc : List ℕ) (r : IsReady s) (a : Appends s enc t) where
  remaining-received :
      remaining (received words s.body.offset t) ≡ enc ++ drop t.body.offset t.body.bytes
  unfolding received
  remaining-received =
      let rest = drop t.body.offset t.body.bytes in
      let whole : t.body.bytes ≡ content s ++ (enc ++ rest) =
        sym (take-append-drop t.body.offset t.body.bytes)
        ∙ ap (λ l. l ++ rest) a.contents
        ∙ append_assoc (content s) enc rest in
      subst (λ o. drop o t.body.bytes ≡ enc ++ rest) (length-content r)
        (ap (drop (length (content s))) whole ∙ drop-length_append (content s) (enc ++ rest))

  advance-received :
      advance (length enc) (received words s.body.offset t) ≡ received words t.body.offset t
  unfolding received advance
  advance-received = ap (λ o. received words o t) (sym (Appends-offset r a))

-- What a writer writes, a reader of its encoding reads back.
get-put :
    {A : Type 0} {put : Action Unit} {get : Action A} {enc : List ℕ} {v : A}
    → Writes put enc
    → Reads get enc v
    → (words : ℕ) (s : Message) → IsReady s
    → s.body.offset + length enc ≤ words * 8 % 2 ^ 32
    → (t : Message) × (put s ≡ ok (tt, t))
      × (get (received words s.body.offset t) ≡ ok (v, received words t.body.offset t))
unfolding received
get-put {enc} {v} w g words s r fits =
    let (t, e, a) = w s r in
    (
      t,
      e,
      g.run (received words s.body.offset t) (drop t.body.offset t.body.bytes)
            (remaining-received words enc r a) fits
          ∙ ap (λ m. ok (v, m)) (advance-received words enc r a),
    )

-- A string without a nul that putString writes to a message with a buffer of whole words, not
-- empty, is returned by getString on the message received, if its body has the words for it;
-- getString then stands where the writer stood.
pub get_string-put_string :
    (v : List ℕ) (words : ℕ) (s : Message)
    → HasNoNul v
    → 0 < length s.body.bytes
    → length s.body.bytes % 8 ≡ 0
    → s.body.offset ≤ length s.body.bytes
    → s.body.offset + length (string_bytes v) ≤ words * 8 % 2 ^ 32
    → (t : Message) × (put_string v s ≡ ok (tt, t))
      × (get_string (received words s.body.offset t) ≡ ok (v, received words t.body.offset t))
get_string-put_string v words s h p al w fits =
    get-put (put_string-Writes v) (get_string-Reads v h) words s
      (record { positive = p; within = w; aligned = al }) fits

-- A blob shorter than 2 ^ 64 bytes that putBlob writes to a message with a buffer of whole words,
-- not empty, is returned by getBlob on the message received, if its body has the words for it;
-- getBlob then stands where the writer stood.
pub get_blob-put_blob :
    (v : List ℕ) (words : ℕ) (s : Message)
    → length v < 2 ^ 64
    → 0 < length s.body.bytes
    → length s.body.bytes % 8 ≡ 0
    → s.body.offset ≤ length s.body.bytes
    → s.body.offset + length (blob_bytes v) ≤ words * 8 % 2 ^ 32
    → (t : Message) × (put_blob v s ≡ ok (tt, t))
      × (get_blob (received words s.body.offset t) ≡ ok (v, received words t.body.offset t))
get_blob-put_blob v words s h p al w fits =
    get-put (put_blob-Writes v) (get_blob-Reads v h) words s
      (record { positive = p; within = w; aligned = al }) fits

-- If putString writes a string with a nul in it to a message with a buffer of whole words, not
-- empty, getString on the message received, where its body goes beyond the offset, returns only
-- the part in front of the first nul, and advances as for that part alone.
pub get_string-put_string_of_nul :
    (v rest : List ℕ) (words : ℕ) (s : Message)
    → HasNoNul v
    → 0 < length s.body.bytes
    → length s.body.bytes % 8 ≡ 0
    → s.body.offset ≤ length s.body.bytes
    → s.body.offset < words * 8 % 2 ^ 32
    → (t : Message) × (put_string (v ++ 0 ∷ rest) s ≡ ok (tt, t))
      × (get_string (received words s.body.offset t)
          ≡ ok (v, received words (s.body.offset + length (string_bytes v)) t))
unfolding received advance string_bytes
get_string-put_string_of_nul v rest words s h p al w fits =
    let r : IsReady s = record { positive = p; within = w; aligned = al } in
    let (t, e, a) = put_string-Writes (v ++ 0 ∷ rest) s r in
    let enc = string_bytes (v ++ 0 ∷ rest) in
    let z : List ℕ = 0 ∷ replicate (padding (length (v ++ 0 ∷ rest) + 1)) 0 in
    let d = drop t.body.offset t.body.bytes in
    (
      t,
      e,
      get_string_lem (received words s.body.offset t) v _ h fits (
          remaining-received words enc r a
          ∙ ap (λ l. l ++ d) (append_assoc v (0 ∷ rest) z)
          ∙ append_assoc v (0 ∷ (rest ++ z)) d),
    )
