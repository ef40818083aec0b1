-- ===== src/Connector/Table.antt =====
-- The table of results in the comment of connectAttemptOne, internal/protocol/connector.go.
use go_dqlite.Prelude.{
  ℕ, suc, ◌≡◌, ◌≢◌, refl, ◌∙◌, ◌⊎◌, arith, inl, inr, false, Option, none, some, List, [],
}
use go_dqlite.Prelude.Int.{ℤ}
use go_dqlite.Message.Bytes.{le_bytes}
use go_dqlite.Protocol.Connection.{
  Connection, Protocol, Failure, connection, write_all, with_deadline,
}
use go_dqlite.Protocol.Keeping.{
  IsCounted, Holds, returned, panicked, never, Holds-cases, count-with_deadline, count-write_all,
}
use go_dqlite.Protocol.Session.{Fault, Try, Session, return, raise, cause, blank}
use go_dqlite.Message.Ending.{Ran}
use go_dqlite.Protocol.Keeping.{Holds-Ran}
use go_dqlite.Connector.Progress.{connect_attempt_one-Ran}
use go_dqlite.Connector.Config.{Connector}
use go_dqlite.Connector.Handshake.{
  Answer, leads, no_leader_known, reports, handshake, after_hello, new_protocol, ask,
}
use go_dqlite.Connector.Attempt.{
  Dialed, dialed, refused, DialFunc, Probe, failing, to_probe, after_handshake, after_dial,
  connect_attempt_one,
}
use go_dqlite.Connector.Closing.{Settled, ask-Holds}
use go_dqlite.Connector.Ends.{IsEnd}

-- `count` is how many more dials have succeeded than connections were closed.
pub record IsNetwork {World Handle Err : Type 0} (conn : Handle → Connection World Err)
    (dial : DialFunc World Handle Err) (count : World → ℕ) : Type 0 where
  pub counted : (h : Handle) → IsCounted (conn h) count
  pub dials :
      (deadline : Option ℕ) (address : List ℕ) (w : World)
      → count (dial deadline address w).1
        ≡ (elim (dial deadline address w).0 [ dialed h ↦ suc (count w) | refused e ↦ count w ])

-- The rows of the table, with the count behind the call where it was `n` before.
pub data IsRow {Handle Err : Type 0} (n : ℕ) : Probe Handle Err → ℕ → Type 0 where
  failure : (e : Fault Err) → IsRow n (record { link = none; leader = []; err = some e }) n
  not_leader : IsRow n (record { link = none; leader = []; err = none }) n
  other_leader :
      (leader : List ℕ)
      → leader ≢ []
      → IsRow n (record { link = none; leader = leader; err = none }) n
  leader :
      (h : Handle) (p : Protocol Err)
      → p.closed ≡ false
      → IsRow n (record { link = some (h, p); leader = []; err = none }) (suc n)

module _ {World Handle Err : Type 0} (conn : Handle → Connection World Err)
    (with_timeout : Option ℕ → ℤ → World → Option ℕ) (c : Connector (DialFunc World Handle Err))
    (count : World → ℕ) (network : IsNetwork conn c.dial count) where
  abbrev pub Row : ℕ → Probe Handle Err × World → Type 0
  Row n r = IsRow n (r.0) (count (r.1))

  at : (n m : ℕ) (p : Probe Handle Err) → IsRow n p m → (m' : ℕ) → m' ≡ m → IsRow n p m'
  at n m p r m' e = rw e r

  ended :
      (n : ℕ) (h : Handle) (r : Try Err Answer) (s : Session World Err)
      → IsEnd
          (conn h)
          count
          (network.counted h)
          (Settled (conn h) count (network.counted h))
          n
          (r, s)
      → IsRow n (to_probe conn with_timeout c h r s.protocol) (count s.net)
  ended n h (return leads) s (e, q) = rw e (leader h s.protocol q)
  ended n h (return no_leader_known) s e = rw e not_leader
  ended n h (return (reports a)) s (e, q) = rw e (other_leader a q)
  ended n h (raise x) s e = rw e (failure x)

  unfoldable pub Greeted : Handle → Option ℕ → ℕ → World → Try Err (Protocol Err) × World → Type 0
  Greeted h deadline version w r =
      (w' : World) × (count w' ≡ count w)
      × (((e : Fault Err) × (r ≡ (raise e, w'))) ⊎ (r ≡ (return (new_protocol version), w')))

  after_hello_lem :
      (h : Handle) (deadline : Option ℕ) (version : ℕ) (w : World)
      (r : Option (Failure Err) × World)
      → count (r.1) ≡ count w
      → Greeted h deadline version w (after_hello (conn h) deadline version r)
  unfolding after_hello Greeted
  after_hello_lem h deadline version w (some e, w') q = (
    _,
    count-with_deadline (conn h) count (network.counted h) deadline none w' ∙ q,
    inl (cause e, refl),
  )
  after_hello_lem h deadline version w (none, w') q =
      (_, count-with_deadline (conn h) count (network.counted h) deadline none w' ∙ q, inr refl)

  pub handshake_lem :
      (h : Handle) (deadline : Option ℕ) (version : ℕ) (w : World)
      → Greeted h deadline version w (handshake (conn h) deadline version w)
  unfolding handshake
  handshake_lem h deadline version w =
      let k = network.counted h in
      let start = with_deadline (conn h) deadline deadline w in
      after_hello_lem h deadline version w (write_all (conn h) (le_bytes 8 version) start) (
        count-write_all (conn h) count k (le_bytes 8 version) start
        ∙ count-with_deadline (conn h) count k deadline deadline w)

  after_handshake_lem :
      (deadline : Option ℕ) (address : List ℕ) (version n : ℕ) (h : Handle)
      (r : Try Err (Protocol Err) × World) (w : World)
      → count w ≡ suc n
      → Greeted h deadline version w r
      → Holds (Row n) (after_handshake conn with_timeout c deadline address version h r)
  unfolding after_handshake Greeted
  after_handshake_lem deadline address version n h r w o (w', q, inl (e, g)) =
      rw (g, after_handshake)
        (at n n (failing e) (failure e) _ (omega (arith, q, o, (network.counted h).closes w')))
  after_handshake_lem deadline address version n h r w o (w', q, inr g) =
      let s : Session World Err = record {
        protocol = new_protocol version;
        request = blank;
        response = blank;
        net = w';
      } in
      elim (Holds-cases (ask (conn h) deadline c.id address version s) (
        ask-Holds (conn h) count (network.counted h) deadline c.id address version n s
          (q ∙ o, refl))) [
            | returned (x, t) f z ↦ rw (g, after_handshake, f) (ended n h x t z)
            | panicked p f ↦ rw (g, after_handshake, f) tt
            | never f ↦ rw (g, after_handshake, f) tt
          ]

  after_dial_lem :
      (deadline : Option ℕ) (address : List ℕ) (version n : ℕ) (r : Dialed Handle Err × World)
      → count (r.1) ≡ (elim (r.0) [ dialed h ↦ suc n | refused e ↦ n ])
      → Holds (Row n) (after_dial conn with_timeout c deadline address version r)
  unfolding after_dial
  after_dial_lem deadline address version n (refused e, w) q =
      at n n (failing (cause (connection e))) (failure (cause (connection e))) (count w) q
  after_dial_lem deadline address version n (dialed h, w) q =
      after_handshake_lem deadline address version n h (handshake (conn h) deadline version w) w q
        (handshake_lem h deadline version w)

  -- connectAttemptOne ends on every network that counts the dials that have succeeded less the closes: it
  -- returns or panics. Where it returns, its results are a
  -- row of the table in its comment: an error and nothing else, nothing at all, the address of another
  -- leader, which is not empty, or a protocol that is not closed. A connection that it has dialed is
  -- closed but in the last row, where it is open.
  pub connect_attempt_one-IsRow :
      (deadline : Option ℕ) (address : List ℕ) (version : ℕ) (w : World)
      → Ran
          (λ r. IsRow (count w) (r.0) (count (r.1)))
          (connect_attempt_one conn with_timeout c deadline address version w)
  unfolding connect_attempt_one
  connect_attempt_one-IsRow deadline address version w =
      let timeout = with_timeout deadline c.dial_timeout w in
      Holds-Ran (λ r. IsRow (count w) (r.0) (count (r.1)))
        (connect_attempt_one conn with_timeout c deadline address version w)
        (connect_attempt_one-Ran conn with_timeout c deadline address version w)
        (after_dial_lem deadline address version (count w) (c.dial timeout address w)
          (network.dials timeout address w))
