-- ===== src/Driver/Verdicts.antt =====
-- What driverError of driver/driver.go makes of every error.
use go_dqlite.Prelude.{
  ℕ, ◌≡◌, refl, sym, ◌∙◌, subst, ◌⊎◌, inl, inr, Bool, true, false, Bool-cases, Option-cases, some,
}
use go_dqlite.Prelude.{List, ==-ne, ==_of_eq, eq_of_==, ◌==◌, if◌then◌else◌}
use go_dqlite.Prelude.Int.{ℤ, to_int64}
use go_dqlite.Message.State.{Outcome, ok, panic}
use go_dqlite.Outcome.{nil_pointer}
use go_dqlite.Protocol.Response.{request, unexpected_type}
use go_dqlite.Protocol.Connection.{Connection, connection, short_write, no_progress}
use go_dqlite.Protocol.Session.{
  Fault, cause, decoding, sqlite, too_many, bad_conn, bad_protocol, no_leader,
}
use go_dqlite.Driver.Errors.{lost, unwrapped_error, driver_error}

-- The codes of a server that is not, or no longer, the leader, the code of a statement that it does
-- not know, and the code 0.
pub data IsLossCode : ℕ → Type 0 where
  not_leading : (c : ℕ) → c ≡ 10250 → IsLossCode c
  lost_lead : (c : ℕ) → c ≡ 10506 → IsLossCode c
  not_leading_legacy : (c : ℕ) → c ≡ 8202 → IsLossCode c
  lost_lead_legacy : (c : ℕ) → c ≡ 8458 → IsLossCode c
  unknown : (c : ℕ) → c ≡ 12 → IsLossCode c
  none_given : (c : ℕ) → c ≡ 0 → IsLossCode c

IsLossCode-cases : (c : ℕ) → IsLossCode c ⊎ (IsLossCode c → ⊥)
IsLossCode-cases c = elim (Bool-cases (c == 10250)) [
  | inl e ↦ inl (not_leading c (eq_of_== c 10250 e))
  | inr a ↦ elim (Bool-cases (c == 10506)) [
    | inl e ↦ inl (lost_lead c (eq_of_== c 10506 e))
    | inr b ↦ elim (Bool-cases (c == 8202)) [
      | inl e ↦ inl (not_leading_legacy c (eq_of_== c 8202 e))
      | inr d ↦ elim (Bool-cases (c == 8458)) [
        | inl e ↦ inl (lost_lead_legacy c (eq_of_== c 8458 e))
        | inr f ↦ elim (Bool-cases (c == 12)) [
          | inl e ↦ inl (unknown c (eq_of_== c 12 e))
          | inr g ↦ elim (Bool-cases (c == 0)) [
            | inl e ↦ inl (none_given c (eq_of_== c 0 e))
            | inr h ↦ inr (λ l. elim l [
              | not_leading _ e ↦ cc (a, ==_of_eq c 10250 e)
              | lost_lead _ e ↦ cc (b, ==_of_eq c 10506 e)
              | not_leading_legacy _ e ↦ cc (d, ==_of_eq c 8202 e)
              | lost_lead_legacy _ e ↦ cc (f, ==_of_eq c 8458 e)
              | unknown _ e ↦ cc (g, ==_of_eq c 12 e)
              | none_given _ e ↦ cc (h, ==_of_eq c 0 e)
            ])
          ]
        ]
      ]
    ]
  ]
]

module _ {Net Err : Type 0} (conn : Connection Net Err) where
  -- The errors that say that a connection is of no more use.
  pub data IsLost : Fault Err → Type 0 where
    errno : (e : Err) → conn.is_errno e ≡ true → IsLost (cause (connection e))
    op_error : (e : Err) → conn.is_op_error e ≡ true → IsLost (cause (connection e))
    wrapped :
        (e root : Err)
        → conn.unwrap e ≡ some root
        → conn.is_op_error root ≡ true
        → IsLost (cause (connection e))
    end_of_file : (e : Err) → conn.is_eof e ≡ true → IsLost (cause (connection e))
    code : (c : ℕ) (description : List ℕ) → IsLossCode c → IsLost (decoding (request c description))

  -- The other errors: that of a request becomes one of SQLite, and each other one stays.
  pub data IsKept : Fault Err → Fault Err → Type 0 where
    refused :
        (c : ℕ) (description : List ℕ)
        → (IsLossCode c → ⊥)
        → IsKept (decoding (request c description)) (sqlite (to_int64 c) description)
    network :
        (e : Err)
        → conn.is_errno e ≡ false
        → conn.is_op_error e ≡ false
        → ((root : Err) → conn.unwrap e ≡ some root → conn.is_op_error root ≡ false)
        → conn.is_eof e ≡ false
        → IsKept (cause (connection e)) (cause (connection e))
    short : IsKept (cause short_write) (cause short_write)
    stalled : IsKept (cause no_progress) (cause no_progress)
    mistyped : (a b : ℕ) → IsKept (decoding (unexpected_type a b)) (decoding (unexpected_type a b))
    answered : (c : ℤ) (m : List ℕ) → IsKept (sqlite c m) (sqlite c m)
    parameters : (n : ℕ) → IsKept (too_many n) (too_many n)
    bad : IsKept bad_conn bad_conn
    protocol : IsKept bad_protocol bad_protocol
    leaderless : IsKept no_leader no_leader

  pub lost-if : (log : Bool) → lost conn log ≡ (if log then ok bad_conn else panic nil_pointer)
  lost-if true = refl
  lost-if false = refl

  pub loss-lost :
      (c : ℕ) (d : List ℕ) (log : Bool)
      → IsLossCode c
      → driver_error conn log (decoding (request c d)) ≡ lost conn log
  unfolding driver_error
  loss-lost c d log (not_leading _ e) = rw e refl
  loss-lost c d log (lost_lead _ e) = rw e refl
  loss-lost c d log (not_leading_legacy _ e) = rw e refl
  loss-lost c d log (lost_lead_legacy _ e) = rw e refl
  loss-lost c d log (unknown _ e) = rw e refl
  loss-lost c d log (none_given _ e) = rw e refl

  refused-kept :
      (c : ℕ) (d : List ℕ) (log : Bool)
      → (IsLossCode c → ⊥)
      → driver_error conn log (decoding (request c d)) ≡ ok (sqlite (to_int64 c) d)
  unfolding driver_error
  refused-kept c d log n =
      rw
        (
          ==-ne c 8202 (λ e. n (not_leading_legacy c e)),
          ==-ne c 8458 (λ e. n (lost_lead_legacy c e)),
          ==-ne c 10250 (λ e. n (not_leading c e)),
          ==-ne c 10506 (λ e. n (lost_lead c e)),
          ==-ne c 12 (λ e. n (unknown c e)),
          ==-ne c 0 (λ e. n (none_given c e)),
        )
        refl

  Verdict : Fault Err → Type 0
  Verdict e =
      (IsLost e
        × ((log : Bool)
            → driver_error conn log e ≡ (if log then ok bad_conn else panic nil_pointer)))
      ⊎ ((f : Fault Err) × IsKept e f × ((log : Bool) → driver_error conn log e ≡ ok f))

  eof-Verdict :
      (e : Err)
      → conn.is_errno e ≡ false
      → conn.is_op_error e ≡ false
      → ((root : Err) → conn.unwrap e ≡ some root → conn.is_op_error root ≡ false)
      → ((log : Bool)
          → unwrapped_error conn log e
            ≡ (if conn.is_eof e then lost conn log else ok (cause (connection e))))
      → Verdict (cause (connection e))
  unfolding driver_error Verdict
  eof-Verdict e a b r u = elim (Bool-cases (conn.is_eof e)) [
    | inl h ↦ inl (end_of_file e h, λ log. rw (a, b, u log, h) (lost-if log))
    | inr h ↦ inr (cause (connection e), network e a b r h, λ log. rw (a, b, u log, h) refl)
  ]

  network-Verdict : (e : Err) → Verdict (cause (connection e))
  unfolding driver_error Verdict unwrapped_error
  network-Verdict e = elim (Bool-cases (conn.is_errno e)) [
    | inl a ↦ inl (errno e a, λ log. rw a (lost-if log))
    | inr a ↦ elim (Bool-cases (conn.is_op_error e)) [
      | inl b ↦ inl (op_error e b, λ log. rw (a, b) (lost-if log))
      | inr b ↦ elim (Option-cases (conn.unwrap e)) [
        | inl n ↦ eof-Verdict e a b (λ root h. cc) (λ log. rw (n, unwrapped_error) refl)
        | inr (root, h) ↦ elim (Bool-cases (conn.is_op_error root)) [
          | inl k ↦ inl (wrapped e root h k, λ log. rw (a, b, h, unwrapped_error, k) (lost-if log))
          | inr k ↦ eof-Verdict e a b (λ other g. cc) (λ log. rw (h, unwrapped_error, k) refl)
        ]
      ]
    ]
  ]

  -- driverError converts every error: one that says that the connection is lost becomes
  -- driver.ErrBadConn, or a panic where the log function is nil. With every log function, also nil, any
  -- other error of a request becomes one of SQLite with its code, and each error that is left stays.
  pub driver_error_lem :
      (e : Fault Err)
      → (IsLost e
          × ((log : Bool)
              → driver_error conn log e ≡ (if log then ok bad_conn else panic nil_pointer)))
        ⊎ ((f : Fault Err) × IsKept e f × ((log : Bool) → driver_error conn log e ≡ ok f))
  unfolding driver_error Verdict
  driver_error_lem (cause (connection e)) = network-Verdict e
  driver_error_lem (cause short_write) = inr (_, short, λ log. refl)
  driver_error_lem (cause no_progress) = inr (_, stalled, λ log. refl)
  driver_error_lem (decoding (request c d)) = elim (IsLossCode-cases c) [
    | inl h ↦ inl (code c d h, λ log. loss-lost c d log h ∙ lost-if log)
    | inr n ↦ inr (sqlite (to_int64 c) d, refused c d n, λ log. refused-kept c d log n)
  ]
  driver_error_lem (decoding (unexpected_type a b)) = inr (_, mistyped a b, λ log. refl)
  driver_error_lem (sqlite c m) = inr (_, answered c m, λ log. refl)
  driver_error_lem (too_many n) = inr (_, parameters n, λ log. refl)
  driver_error_lem bad_conn = inr (_, bad, λ log. refl)
  driver_error_lem bad_protocol = inr (_, protocol, λ log. refl)
  driver_error_lem no_leader = inr (_, leaderless, λ log. refl)

  kept-driver_error : (e f : Fault Err) (log : Bool) → IsKept e f → driver_error conn log f ≡ ok f
  unfolding driver_error unwrapped_error
  kept-driver_error _ _ log (refused c d n) = refl
  kept-driver_error _ _ log (network e a b r h) = elim (Option-cases (conn.unwrap e)) [
    | inl n ↦ rw (a, b, n, unwrapped_error, h) refl
    | inr (root, k) ↦ rw (a, b, k, unwrapped_error, r root k, h) refl
  ]
  kept-driver_error _ _ log short = refl
  kept-driver_error _ _ log stalled = refl
  kept-driver_error _ _ log (mistyped a b) = refl
  kept-driver_error _ _ log (answered c m) = refl
  kept-driver_error _ _ log (parameters n) = refl
  kept-driver_error _ _ log bad = refl
  kept-driver_error _ _ log protocol = refl
  kept-driver_error _ _ log leaderless = refl

  -- What a conversion returns stays as it is in a second one, as that of Tx.Commit and Tx.Rollback,
  -- with every log function, also nil.
  pub driver_error-driver_error :
      (first second : Bool) (e f : Fault Err)
      → driver_error conn first e ≡ ok f
      → driver_error conn second f ≡ ok f
  driver_error-driver_error first second e f h = elim (driver_error_lem e) [
    | inl (l, k) ↦ bad_only first (sym (k first) ∙ h)
    | inr (g, k, same) ↦
        let eq : g ≡ f = ok_inj (sym (same first) ∙ h) in
        subst (λ x. driver_error conn second x ≡ ok x) eq (kept-driver_error e g second k)
  ]
    where
      ok_inj : {x y : Fault Err} → (let o : Outcome (Fault Err) = ok x in o) ≡ ok y → x ≡ y
      ok_inj e = cc

      bad_only :
          (log : Bool)
          → (let o : Outcome (Fault Err) = if log then ok bad_conn else panic nil_pointer in o)
            ≡ ok f
          → driver_error conn second f ≡ ok f
      bad_only true e =
          subst (λ x. driver_error conn second x ≡ ok x) (ok_inj e)
            (kept-driver_error bad_conn bad_conn second bad)
      bad_only false e = cc
