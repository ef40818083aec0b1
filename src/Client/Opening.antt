-- ===== src/Client/Opening.antt =====
-- New of client/client.go and FindLeader of client/leader.go. The only option that they look at is the
-- dial function.
use go_dqlite.Prelude.{ℕ, Bool, Option, some, List, [], ◌∷◌}
use go_dqlite.Prelude.Int.{ℤ, pos}
use go_dqlite.Node.{NodeInfo}
use go_dqlite.Message.State.{Outcome}
use go_dqlite.Protocol.Constants.{version_one}
use go_dqlite.Protocol.Connection.{Connection, Protocol, connection}
use go_dqlite.Protocol.Session.{Try, return, raise, cause}
use go_dqlite.Connector.Config.{Config, new_connector}
use go_dqlite.Connector.Handshake.{handshake}
use go_dqlite.Connector.Attempt.{Dialed, dialed, refused, DialFunc, Link}
use go_dqlite.Connector.Connect.{State, Strategy, Retry, connect}

-- The loop over the options, from the default dial function.
unfoldable pub choose_dial : {Dial : Type 0} → List (Dial → Dial) → Dial → Dial
choose_dial [] d = d
choose_dial (f ∷ fs) d = choose_dial fs (f d)

-- WithDialFunc
abbrev pub with_dial : {Dial : Type 0} → Dial → Dial → Dial
with_dial dial _ = dial

-- The config of FindLeader, where only Dial is set.
abbrev pub dial_config : {Dial : Type 0} → Dial → Config Dial
dial_config d = record {
  dial = some d;
  dial_timeout = pos 0;
  attempt_timeout = pos 0;
  backoff_factor = pos 0;
  backoff_cap = pos 0;
  retry_limit = 0;
}

module _ {World Handle Err : Type 0} (conn : Handle → Connection World Err) where
  -- New behind the handshake.
  unfoldable pub after_greeting :
      Handle → Try Err (Protocol Err) × World → Try Err (Link Handle Err) × World
  after_greeting h (raise e, w) = let (_, w') = (conn h).close w in (raise e, w')
  after_greeting h (return p, w) = (return (h, p), w)

  -- New behind the dial.
  unfoldable pub after_new :
      Option ℕ → Dialed Handle Err × World → Try Err (Link Handle Err) × World
  unfolding after_greeting handshake
  after_new deadline (refused e, w) = (raise (cause (connection e)), w)
  after_new deadline (dialed h, w) = after_greeting h (handshake (conn h) deadline version_one w)

  -- New
  unfoldable pub new_client :
      DialFunc World Handle Err
      → List (DialFunc World Handle Err → DialFunc World Handle Err)
      → Option ℕ
      → List ℕ
      → World
      → Try Err (Link Handle Err) × World
  unfolding after_new choose_dial
  new_client default_dial options deadline address w =
      after_new deadline (choose_dial options default_dial deadline address w)

module _ {World Handle Err : Type 0} (conn : Handle → Connection World Err)
    (with_timeout : Option ℕ → ℤ → World → Option ℕ)
    (sort : (NodeInfo → NodeInfo → Bool) → List NodeInfo → List NodeInfo)
    (get : World → Try Err (List NodeInfo) × World)
    (default_dial protocol_dial : DialFunc World Handle Err) (is_done : World → Bool)
    (retry : Retry Err (State World Handle Err)) (binary_exponential : ℤ → ℕ → ℤ)
    (limit : ℕ → Strategy (State World Handle Err)) (sleep : ℤ → World → World) where
  -- FindLeader, in a context with this deadline, or none.
  unfoldable pub find_leader :
      List (DialFunc World Handle Err → DialFunc World Handle Err)
      → Option ℕ
      → World
      → Outcome (Try Err (Link Handle Err) × World)
  unfolding connect choose_dial
  find_leader options deadline w =
      connect conn with_timeout sort get
        (new_connector protocol_dial 0 (dial_config (choose_dial options default_dial))) is_done
        retry binary_exponential limit sleep deadline w
