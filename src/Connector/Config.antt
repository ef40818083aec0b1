-- ===== src/Connector/Config.antt =====
-- Config of internal/protocol/config.go and NewConnector of connector.go. Durations are in
-- nanoseconds. A Dial that is nil is none.
use go_dqlite.Prelude.{ℕ, zero, ◌*◌, Option, none, some}
use go_dqlite.Prelude.Int.{ℤ, pos}

pub record Config (Dial : Type 0) : Type 0 where
  pub dial : Option Dial
  pub dial_timeout : ℤ
  pub attempt_timeout : ℤ
  pub backoff_factor : ℤ
  pub backoff_cap : ℤ
  pub retry_limit : ℕ

-- Connector and its config, with a Dial that is not nil.
pub record Connector (Dial : Type 0) : Type 0 where
  pub id : ℕ
  pub dial : Dial
  pub dial_timeout : ℤ
  pub attempt_timeout : ℤ
  pub backoff_factor : ℤ
  pub backoff_cap : ℤ
  pub retry_limit : ℕ

abbrev pub milliseconds : ℕ → ℤ
milliseconds n = pos (n * 1000000)

-- A field that is zero takes its default.
unfoldable pub or_default : ℤ → ℤ → ℤ
or_default (pos zero) d = d
or_default v d = v

abbrev or_dial : {Dial : Type 0} → Option Dial → Dial → Dial
or_dial none d = d
or_dial (some f) d = f

-- NewConnector. `default_dial` is Dial of dial.go.
unfoldable pub new_connector : {Dial : Type 0} → Dial → ℕ → Config Dial → Connector Dial
unfolding or_default
new_connector default_dial id config = record {
  id = id;
  dial = or_dial config.dial default_dial;
  dial_timeout = or_default config.dial_timeout (milliseconds 5000);
  attempt_timeout = or_default config.attempt_timeout (milliseconds 15000);
  backoff_factor = or_default config.backoff_factor (milliseconds 100);
  backoff_cap = or_default config.backoff_cap (milliseconds 1000);
  retry_limit = config.retry_limit;
}
