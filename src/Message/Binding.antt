-- ===== src/Message/Binding.antt =====
-- Which statement parameters putNamedValues and putNamedValues32 of internal/protocol/message.go
-- accept: the others make them panic.
use go_dqlite.Prelude.{ℕ, ◌+◌, ◌≤◌, ◌≡◌, refl, ◌∙◌, arith}
use go_dqlite.Prelude.{List, [], ◌∷◌, length, ◌⊎◌, inl, inr, Bool-cases}
use go_dqlite.Prelude.{ltb, ==-ne, eq_of_==, le→ltb, ==_of_eq, ◌==◌}
use go_dqlite.Message.State.{
  Panic, Message, ok, panic, Action, ◌>>◌, fail, too_many_parameters, unsupported_value,
  unexpected_ordinal,
}
use go_dqlite.Message.Action.{bind_ok, bind_panic}
use go_dqlite.Message.Writes.{IsReady, Appends, Writes}
use go_dqlite.Message.Words.{put_uint8-Writes}
use go_dqlite.Message.Values.{
  Value, integer, float, boolean, blob, text, null, time, other, NamedValue, put_type, put_types,
  put_named_values_inner, put_named_values,
}
use go_dqlite.Message.Fields.{AreBindable, IsSupported, EncodesField, params, type_code}
use go_dqlite.Message.Params.{put_named_values-WritesAt}

-- A run that ends in a panic.
abbrev Panics : Action Unit → Message → Type 0
Panics act s = (p : Panic) × (act s ≡ panic p)

-- A run that returns, and appends bytes that satisfy `P` at the offset.
abbrev Returns : Action Unit → (ℕ → List ℕ → Type 0) → Message → Type 0
Returns act P s =
    (t : Message) × (enc : List ℕ) × (act s ≡ ok (tt, t)) × Appends s enc t × P s.body.offset enc

module _ {Time : Type 0} (format : Time → List ℕ) where
  -- The type byte of a parameter, or the panic of an unsupported one.
  put_type-cases :
      (v : Value Time)
      → (IsSupported v × Writes (put_type format v) (type_code v ∷ []))
        ⊎ ((¬ IsSupported v) × (put_type format v ≡ fail unsupported_value))
  unfolding put_type
  put_type-cases (integer v) = inl (tt, put_uint8-Writes _)
  put_type-cases (float v) = inl (tt, put_uint8-Writes _)
  put_type-cases (boolean v) = inl (tt, put_uint8-Writes _)
  put_type-cases (blob v) = inl (tt, put_uint8-Writes _)
  put_type-cases (text v) = inl (tt, put_uint8-Writes _)
  put_type-cases null = inl (tt, put_uint8-Writes _)
  put_type-cases (time v) = inl (tt, put_uint8-Writes _)
  put_type-cases other = inr ((λ h. h), refl)

  put_types-cases :
      (i : ℕ) (vs : List (NamedValue Time)) (s : Message)
      → IsReady s
      → AreBindable i vs ⊎ ((¬ AreBindable i vs) × Panics (put_types format i vs) s)
  unfolding put_types
  put_types-cases i [] s r = inl tt
  put_types-cases i (v ∷ vs) s r = elim (Bool-cases (v.ordinal == i + 1)) [
    | inl e ↦ elim (put_type-cases v.value) [
      | inl (h, w) ↦
          let (t, f, a) = w s r in
          elim (put_types-cases (i + 1) vs t a.ready) [
            | inl hs ↦ inl (eq_of_== v.ordinal (i + 1) e, h, hs)
            | inr (n, (p, g)) ↦ inr (
              (λ (x, y, z). n z),
              (
                p,
                rw e (bind_ok (put_type format v.value) (λ _. put_types format (i + 1) vs) f ∙ g),
              ),
            )
          ]
      | inr (n, f) ↦ inr ((λ (x, y, z). n y), (unsupported_value, rw (e, f) refl))
    ]
    | inr e ↦
        inr ((λ (x, y, z). cc (e, ==_of_eq v.ordinal (i + 1) x)), (unexpected_ordinal, rw e refl))
  ]

  inner-Panics :
      (vs : List (NamedValue Time)) (s : Message)
      → Panics (put_types format 0 vs) s
      → Panics (put_named_values_inner format vs) s
  unfolding put_named_values_inner
  inner-Panics vs s (p, e) = (p, bind_panic (put_types format 0 vs) _ e)

  -- A count in front of parameters.
  counted-cases :
      {put : Action Unit} {enc : List ℕ} (vs : List (NamedValue Time)) (s : Message)
      → Writes put enc
      → IsReady s
      → AreBindable 0 vs
        ⊎ ((¬ AreBindable 0 vs) × Panics (put >> put_named_values_inner format vs) s)
  counted-cases {put} vs s w r =
      let (t, e, a) = w s r in
      elim (put_types-cases 0 vs t a.ready) [
        | inl h ↦ inl h
        | inr (n, q) ↦
            let (p, f) = inner-Panics vs t q in
            inr (n, (p, bind_ok put (λ _. put_named_values_inner format vs) e ∙ f))
      ]

  -- On a message that can be written to, putNamedValues returns and appends the encoding of the
  -- parameters if they are numbered from 1 in their order, of supported types, and at most 255. It
  -- panics if they are not.
  pub put_named_values_lem :
      (vs : List (NamedValue Time)) (s : Message)
      → IsReady s
      → ((AreBindable 0 vs × (length vs ≤ 255))
          × Returns (put_named_values format vs) (λ o. EncodesField format o (params 1 vs)) s)
        ⊎ ((¬ (AreBindable 0 vs × (length vs ≤ 255))) × Panics (put_named_values format vs) s)
  unfolding put_named_values
  put_named_values_lem [] s r =
      inl ((tt, omega arith), put_named_values-WritesAt format [] tt (omega arith) s r)
  put_named_values_lem (v ∷ vs) s r = elim (Bool-cases (ltb 255 (length (v ∷ vs)))) [
    | inl e ↦ inr (
      (λ (h, le). cc (e, le→ltb 255 (length (v ∷ vs)) le)),
      (too_many_parameters, rw (==-ne (length (v ∷ vs)) 0 (omega arith), e) refl),
    )
    | inr e ↦ elim (counted-cases (v ∷ vs) s (put_uint8-Writes (length (v ∷ vs))) r) [
      | inl h ↦
          inl ((h, ground arith), put_named_values-WritesAt format (v ∷ vs) h (ground arith) s r)
      | inr (n, (p, f)) ↦
          inr ((λ (h, le). n h), (p, rw (==-ne (length (v ∷ vs)) 0 (omega arith), e) f))
    ]
  ]
