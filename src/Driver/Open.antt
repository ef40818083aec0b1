-- ===== src/Driver/Open.antt =====
-- The options of driver/driver.go, New, and the Connector of the driver, which finds the leader and opens
-- a database.
use go_dqlite.Prelude.{ℕ, zero, Bool, true, Option, none, some, List, [], ◌∷◌}
use go_dqlite.Prelude.Int.{ℤ, pos}
use go_dqlite.Node.{NodeInfo}
use go_dqlite.Message.State.{Outcome, ok, panic, stuck}
use go_dqlite.Protocol.Request
use go_dqlite.Protocol.Response.{decode_db}
use go_dqlite.Protocol.Connection.{Connection}
use go_dqlite.Protocol.Session.{
  Try, Session, Io, return, raise, ◌>>◌, done, encode_into, decode_from, do_call, blank,
  with_messages,
}
use go_dqlite.Connector.Config.{Config, new_connector}
use go_dqlite.Connector.Handshake.{or_close}
use go_dqlite.Connector.Attempt.{DialFunc, Link}
use go_dqlite.Connector.Connect.{State, Strategy, Retry, connect}
use go_dqlite.Driver.Conn.{Conn}

-- The options that Connect and New look at. A context is its deadline.
pub record Options (Dial : Type 0) : Type 0 where
  pub dial : Dial
  pub attempt_timeout : ℤ
  pub connection_timeout : ℤ
  pub backoff_factor : ℤ
  pub backoff_cap : ℤ
  pub retry_limit : ℕ
  pub context : Option (Option ℕ)
  pub log : Bool

module _ {Dial : Type 0} where
  -- WithDialFunc
  abbrev pub with_dial_func : Dial → Options Dial → Options Dial
  with_dial_func dial o = record o { dial = dial }

  -- WithConnectionTimeout
  abbrev pub with_connection_timeout : ℤ → Options Dial → Options Dial
  with_connection_timeout timeout o = record o { connection_timeout = timeout }

  -- WithConnectionBackoffFactor
  abbrev pub with_backoff_factor : ℤ → Options Dial → Options Dial
  with_backoff_factor factor o = record o { backoff_factor = factor }

  -- WithConnectionBackoffCap
  abbrev pub with_backoff_cap : ℤ → Options Dial → Options Dial
  with_backoff_cap cap o = record o { backoff_cap = cap }

  -- WithAttemptTimeout
  abbrev pub with_attempt_timeout : ℤ → Options Dial → Options Dial
  with_attempt_timeout timeout o = record o { attempt_timeout = timeout }

  -- WithRetryLimit
  abbrev pub with_retry_limit : ℕ → Options Dial → Options Dial
  with_retry_limit limit o = record o { retry_limit = limit }

  -- WithContext
  abbrev pub with_context : Option ℕ → Options Dial → Options Dial
  with_context context o = record o { context = some context }

  -- defaultOptions, whose Dial and Log are those of the client.
  abbrev pub default_options : Dial → Options Dial
  default_options dial = record {
    dial = dial;
    attempt_timeout = pos 0;
    connection_timeout = pos 0;
    backoff_factor = pos 0;
    backoff_cap = pos 0;
    retry_limit = 0;
    context = none;
    log = true;
  }

  -- The loop of New over its options.
  unfoldable pub apply_options : List (Options Dial → Options Dial) → Options Dial → Options Dial
  apply_options [] o = o
  apply_options (f ∷ fs) o = apply_options fs (f o)

  -- The client config of New, whose DialTimeout is not set.
  unfoldable pub client_config : Options Dial → Config Dial
  client_config o = record {
    dial = some o.dial;
    dial_timeout = pos 0;
    attempt_timeout = o.attempt_timeout;
    backoff_factor = o.backoff_factor;
    backoff_cap = o.backoff_cap;
    retry_limit = o.retry_limit;
  }

module _ {Net Err : Type 0} (conn : Connection Net Err) where
  -- Connector.Connect behind the search for the leader: the ID of the database.
  unfoldable pub open_database : Option ℕ → List ℕ → Io Net Err ℕ
  unfolding with_messages or_close
  open_database deadline uri = with_messages 4096 4096 (do
    encode_into
        (Request.encode_open uri 0 (b'v' ∷ b'o' ∷ b'l' ∷ b'a' ∷ b't' ∷ b'i' ∷ b'l' ∷ b'e' ∷ []))
    or_close conn (λ e. e) (do_call conn deadline)
        (λ _. or_close conn (λ e. e) (decode_from decode_db) (λ id. done id)))

-- The context of Connect: that of the options, if there is one, with the connection timeout.
unfoldable pub connect_deadline :
    {World Dial : Type 0}
    → (Option ℕ → ℤ → World → Option ℕ)
    → Options Dial
    → Option ℕ
    → World
    → Option ℕ
connect_deadline with_timeout o deadline w =
    let chosen : Option ℕ = elim o.context [ none ↦ deadline | some d ↦ d ] in
    elim o.connection_timeout [ pos zero ↦ chosen | _ ↦ with_timeout chosen o.connection_timeout w ]

module _ {World Handle Err : Type 0} (conn : Handle → Connection World Err)
    (o : Options (DialFunc World Handle Err)) where
  -- Connect behind the search for the leader. The session of the new Conn is returned with it.
  unfoldable pub after_search :
      Option ℕ
      → List ℕ
      → Outcome (Try Err (Link Handle Err) × World)
      → Outcome (Try Err (Handle × Conn × Session World Err) × World)
  unfolding open_database
  after_search deadline uri (ok (raise e, w)) = ok (raise e, w)
  after_search deadline uri (ok (return (h, p), w)) =
      elim (open_database (conn h) deadline uri
        (record { protocol = p; request = blank; response = blank; net = w })) [
          | ok (return id, s) ↦ ok (return (h, record { id = id; log = o.log }, s), s.net)
          | ok (raise e, s) ↦ ok (raise e, s.net)
          | panic p ↦ panic p
          | stuck ↦ stuck
        ]
  after_search deadline uri (panic p) = panic p
  after_search deadline uri stuck = stuck

module _ {World Handle Err : Type 0} (conn : Handle → Connection World Err)
    (with_timeout : Option ℕ → ℤ → World → Option ℕ)
    (sort : (NodeInfo → NodeInfo → Bool) → List NodeInfo → List NodeInfo)
    (get : World → Try Err (List NodeInfo) × World) (default_dial : DialFunc World Handle Err)
    (is_done : Option ℕ → World → Bool) (retry : Retry Err (State World Handle Err))
    (binary_exponential : ℤ → ℕ → ℤ) (limit : ℕ → Strategy (State World Handle Err))
    (sleep : ℤ → World → World) (o : Options (DialFunc World Handle Err)) where
  -- Connector.Connect of the driver.
  unfoldable pub open_conn :
      Option ℕ → List ℕ → World → Outcome (Try Err (Handle × Conn × Session World Err) × World)
  unfolding connect_deadline after_search client_config
  open_conn deadline uri w =
      let d = connect_deadline with_timeout o deadline w in
      after_search conn o d uri (
        connect conn with_timeout sort get (new_connector default_dial 0 (client_config o))
          (is_done d) retry binary_exponential limit sleep d w)
