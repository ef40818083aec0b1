-- ===== src/Connector/Attempt.antt =====
-- connectAttemptOne and connectAttemptAll of internal/protocol/connector.go. The network is a state
-- World; `conn` is the net.Conn of a handle that was dialed. The deadlines of the contexts are made by
-- `with_timeout`, context.WithTimeout.
use go_dqlite.Prelude.{ℕ, Option, none, some, List, [], ◌∷◌}
use go_dqlite.Prelude.Int.{ℤ}
use go_dqlite.Node.{NodeInfo}
use go_dqlite.Message.State.{Outcome, ok, panic, stuck}
use go_dqlite.Protocol.Constants.{version_one, version_legacy}
use go_dqlite.Protocol.Connection.{Connection, Protocol, connection}
use go_dqlite.Protocol.Session.{Fault, Try, return, raise, cause, bad_protocol, no_leader, blank}
use go_dqlite.Connector.Config.{Connector}
use go_dqlite.Connector.Handshake.{Answer, leads, no_leader_known, reports, handshake, ask}

-- What a dial returns.
pub data Dialed (Handle Err : Type 0) : Type 0 where
  dialed : Handle → Dialed Handle Err
  refused : Err → Dialed Handle Err

-- DialFunc, with the deadline of its context.
abbrev pub DialFunc : Type 0 → Type 0 → Type 0 → Type 0
DialFunc World Handle Err = Option ℕ → List ℕ → World → Dialed Handle Err × World

-- A protocol and its connection.
abbrev pub Link : Type 0 → Type 0 → Type 0
Link Handle Err = Handle × Protocol Err

-- The three results of connectAttemptOne.
pub record Probe (Handle Err : Type 0) : Type 0 where
  pub link : Option (Link Handle Err)
  pub leader : List ℕ
  pub err : Option (Fault Err)

abbrev pub failing : {Handle Err : Type 0} → Fault Err → Probe Handle Err
failing e = record { link = none; leader = []; err = some e }

module _ {World Handle Err : Type 0} (conn : Handle → Connection World Err)
    (with_timeout : Option ℕ → ℤ → World → Option ℕ)
    (c : Connector (DialFunc World Handle Err)) where
  abbrev pub to_probe : Handle → Try Err Answer → Protocol Err → Probe Handle Err
  to_probe h (return leads) p = record { link = some (h, p); leader = []; err = none }
  to_probe h (return no_leader_known) p = record { link = none; leader = []; err = none }
  to_probe h (return (reports leader)) p = record { link = none; leader = leader; err = none }
  to_probe h (raise e) p = failing e

  -- connectAttemptOne behind the handshake.
  unfoldable pub after_handshake :
      Option ℕ
      → List ℕ
      → ℕ
      → Handle
      → Try Err (Protocol Err) × World
      → Outcome (Probe Handle Err × World)
  unfolding ask
  after_handshake deadline address version h (raise e, w) =
      let (_, w') = (conn h).close w in ok (failing e, w')
  after_handshake deadline address version h (return p, w) =
      elim (ask (conn h) deadline c.id address version
        (record { protocol = p; request = blank; response = blank; net = w })) [
          | ok (r, s) ↦ ok (to_probe h r s.protocol, s.net)
          | panic q ↦ panic q
          | stuck ↦ stuck
        ]

  -- connectAttemptOne behind the dial.
  unfoldable pub after_dial :
      Option ℕ → List ℕ → ℕ → Dialed Handle Err × World → Outcome (Probe Handle Err × World)
  unfolding after_handshake handshake
  after_dial deadline address version (refused e, w) = ok (failing (cause (connection e)), w)
  after_dial deadline address version (dialed h, w) =
      after_handshake deadline address version h (handshake (conn h) deadline version w)

  unfoldable pub connect_attempt_one :
      Option ℕ → List ℕ → ℕ → World → Outcome (Probe Handle Err × World)
  unfolding after_dial
  connect_attempt_one deadline address version w =
      after_dial deadline address version
        (c.dial (with_timeout deadline c.dial_timeout w) address w)

  -- The attempt on the leader that a server has reported.
  unfoldable pub after_reported : Probe Handle Err → Option (Link Handle Err)
  after_reported p = elim p.err [ some _ ↦ none | none ↦ p.link ]

  -- What connectAttemptAll makes of the attempt on a server, in the context with this deadline.
  unfoldable pub after_probe :
      Option ℕ → ℕ → Probe Handle Err × World → Outcome (Option (Link Handle Err) × World)
  unfolding connect_attempt_one after_reported
  after_probe deadline version (p, w) = elim p.err [
    | some _ ↦ ok (none, w)
    | none ↦ elim p.link [
      | some l ↦ ok (some l, w)
      | none ↦ elim p.leader [
        | [] ↦ ok (none, w)
        | b ∷ bs ↦
            elim (connect_attempt_one (with_timeout deadline c.attempt_timeout w) (b ∷ bs) version
              w) [ ok (q, w') ↦ ok (after_reported q, w') | panic e ↦ panic e | stuck ↦ stuck ]
      ]
    ]
  ]

  -- The first attempt on a server, and the second with the legacy protocol.
  unfoldable pub after_first :
      Option ℕ → List ℕ → Probe Handle Err × World → Outcome (Option (Link Handle Err) × World)
  unfolding connect_attempt_one after_probe
  after_first deadline address (p, w) = elim p.err [
    | some bad_protocol ↦ elim (connect_attempt_one deadline address version_legacy w) [
      | ok (q, w') ↦ after_probe deadline version_legacy (q, w')
      | panic e ↦ panic e
      | stuck ↦ stuck
    ]
    | _ ↦ after_probe deadline version_one (p, w)
  ]

  -- A round of the loop of connectAttemptAll.
  unfoldable pub try_server : Option ℕ → List ℕ → World → Outcome (Option (Link Handle Err) × World)
  unfolding connect_attempt_one after_first
  try_server deadline address w = elim (connect_attempt_one deadline address version_one w) [
    | ok (p, w') ↦ after_first deadline address (p, w')
    | panic e ↦ panic e
    | stuck ↦ stuck
  ]

  -- The loop of connectAttemptAll.
  unfoldable pub try_servers :
      Option ℕ → List NodeInfo → World → Outcome (Try Err (Link Handle Err) × World)
  unfolding try_server
  try_servers deadline [] w = ok (raise no_leader, w)
  try_servers deadline (n ∷ ns) w =
      elim (try_server (with_timeout deadline c.attempt_timeout w) n.address w) [
        | ok (some l, w') ↦ ok (return l, w')
        | ok (none, w') ↦ try_servers deadline ns w'
        | panic e ↦ panic e
        | stuck ↦ stuck
      ]
