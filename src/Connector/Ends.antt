-- ===== src/Connector/Ends.antt =====
-- Steps on a connection that is dialed, in internal/protocol/connector.go and driver/driver.go: an error
-- closes it.
use go_dqlite.Prelude.{ℕ, suc, ◌≡◌, ◌∙◌, arith, true, false, Option}
use go_dqlite.Message.State.{ok, Action}
use go_dqlite.Protocol.Response.{Reply}
use go_dqlite.Protocol.Connection.{Connection, call, close}
use go_dqlite.Protocol.Keeping.{
  IsCounted, Holds, returned, panicked, never, Holds-cases, Outcome-cases, call-Holds,
}
use go_dqlite.Protocol.Session.{
  Fault, Try, Session, Io, return, raise, ◌>>=◌, ◌>>◌, attempt, encode_into, read_from, decode_from,
  do_call, do_close,
}
use go_dqlite.Connector.Handshake.{after_step, or_close}

module _ {Net Err : Type 0} (conn : Connection Net Err) (count : Net → ℕ)
    (k : IsCounted conn count) where
  -- Behind the handshake the connection is one more than `n`, and the protocol is not closed.
  abbrev pub IsOpen : ℕ → Session Net Err → Type 0
  IsOpen n s = (count s.net ≡ suc n) × (s.protocol.closed ≡ false)

  unfoldable pub Stays : {A : Type 0} → Io Net Err A → Type 0
  Stays m = (n : ℕ) (s : Session Net Err) → IsOpen n s → Holds (λ r. IsOpen n (r.1)) (m s)

  pub decode_from-Stays : {A : Type 0} (get : Action (Reply A)) → Stays (decode_from get)
  unfolding Stays
  decode_from-Stays get n s o = elim (Outcome-cases (get s.response)) [
    | returned (a, m) g _ ↦ rw (g, decode_from) o
    | panicked p g ↦ rw (g, decode_from) tt
    | never g ↦ rw (g, decode_from) tt
  ]

  pub do_call-Stays : (deadline : Option ℕ) → Stays (do_call conn deadline)
  unfolding Stays do_call
  do_call-Stays deadline n s (c, d) =
      elim (Holds-cases (call conn deadline s.request s.response s.protocol s.net)
        (call-Holds conn count k deadline s.request s.response s.protocol s.net)) [
          | returned (e, m, p, net) g (c', d') ↦ rw (g, do_call) (c' ∙ c, d' ∙ d)
          | panicked p g ↦ rw (g, do_call) tt
          | never g ↦ rw (g, do_call) tt
        ]

  module _ {B : Type 0} (E : ℕ → B → Session Net Err → Type 0) where
    -- What holds behind the steps: `E` of their result, or the connection is closed and an error is raised.
    abbrev pub IsEnd : ℕ → Try Err B × Session Net Err → Type 0
    IsEnd n (return a, t) = E n a t
    IsEnd n (raise e, t) = count t.net ≡ n

    unfoldable pub Ends : Io Net Err B → Type 0
    Ends m = (n : ℕ) (s : Session Net Err) → IsOpen n s → Holds (IsEnd n) (m s)

    pub encode-Ends :
        (put : Action (Unit {0})) (f : Io Net Err B) → Ends f → Ends (encode_into put >> f)
    unfolding Ends
    encode-Ends put f h n s o = elim (Outcome-cases (put s.request)) [
      | returned (_, m) g _ ↦ rw (g, ◌>>◌, ◌>>=◌, encode_into) (h n (record s { request = m }) o)
      | panicked p g ↦ rw (g, ◌>>◌, ◌>>=◌, encode_into) tt
      | never g ↦ rw (g, ◌>>◌, ◌>>=◌, encode_into) tt
    ]

    pub read-Ends :
        (get : Action (Unit {0})) (f : Io Net Err B) → Ends f → Ends (read_from get >> f)
    unfolding Ends
    read-Ends get f h n s o = elim (Outcome-cases (get s.response)) [
      | returned (_, m) g _ ↦ rw (g, ◌>>◌, ◌>>=◌, read_from) (h n (record s { response = m }) o)
      | panicked p g ↦ rw (g, ◌>>◌, ◌>>=◌, read_from) tt
      | never g ↦ rw (g, ◌>>◌, ◌>>=◌, read_from) tt
    ]

    -- A close takes the connection away, whatever is returned behind it.
    pub close-Ends :
        (a : Try Err B)
        → ((n : ℕ) (t : Session Net Err) → count t.net ≡ n → IsEnd n (a, t))
        → Ends (do_close conn >>= λ _. (λ t. ok (a, t)))
    unfolding Ends do_close close
    close-Ends a f n s (c, d) =
        let s' = record s {
          protocol = record s.protocol { closed = true };
          net = (conn.close s.net).1;
        } in
        rw (d, ◌>>=◌, do_close, close) (f n s' (omega (arith, k.closes s.net, c)))

    pub or_close-Ends :
        {A : Type 0} (convert : Fault Err → Fault Err) (m : Io Net Err A) (f : A → Io Net Err B)
        → Stays m
        → ((a : A) → Ends (f a))
        → Ends (or_close conn convert m f)
    unfolding Ends Stays or_close after_step
    or_close-Ends convert m f h g n s o = elim (Holds-cases (m s) (h n s o)) [
      | returned (return a, t) e q ↦ rw (e, or_close, ◌>>=◌, attempt) (g a n t q)
      | returned (raise x, t) e q ↦
          rw (e, or_close, ◌>>=◌, attempt) (close-Ends (raise (convert x)) (λ m t h. h) n t q)
      | panicked p e ↦ rw (e, or_close, ◌>>=◌, attempt) tt
      | never e ↦ rw (e, or_close, ◌>>=◌, attempt) tt
    ]
