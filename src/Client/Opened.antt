-- ===== src/Client/Opened.antt =====
-- The connections that New of client/client.go leaves open.
use go_dqlite.Prelude.{ℕ, suc, ◌≡◌, refl, ◌∙◌, arith, inl, inr, Option, List}
use go_dqlite.Prelude.Int.{ℤ, pos}
use go_dqlite.Protocol.Connection.{Connection, Protocol}
use go_dqlite.Protocol.Constants.{version_one}
use go_dqlite.Protocol.Session.{Try}
use go_dqlite.Connector.Config.{Connector}
use go_dqlite.Connector.Handshake.{handshake}
use go_dqlite.Connector.Attempt.{Dialed, dialed, refused, DialFunc}
use go_dqlite.Connector.Table.{IsNetwork, Greeted, handshake_lem}
use go_dqlite.Connector.Leaks.{IsTried}
use go_dqlite.Client.Opening.{choose_dial, after_greeting, after_new, new_client}

module _ {World Handle Err : Type 0} (conn : Handle → Connection World Err)
    (default_dial : DialFunc World Handle Err)
    (options : List (DialFunc World Handle Err → DialFunc World Handle Err)) (count : World → ℕ)
    (network : IsNetwork conn (choose_dial options default_dial) count) where
  abbrev no_timeout : Option ℕ → ℤ → World → Option ℕ
  no_timeout deadline duration w = deadline

  abbrev connector : Connector (DialFunc World Handle Err)
  connector = record {
    id = 0;
    dial = choose_dial options default_dial;
    dial_timeout = pos 0;
    attempt_timeout = pos 0;
    backoff_factor = pos 0;
    backoff_cap = pos 0;
    retry_limit = 0;
  }

  after_greeting_lem :
      (n : ℕ) (h : Handle) (deadline : Option ℕ) (w : World) (r : Try Err (Protocol Err) × World)
      → count w ≡ suc n
      → Greeted conn no_timeout connector count network h deadline version_one w r
      → IsTried count n (after_greeting conn h r)
  unfolding after_greeting Greeted
  after_greeting_lem n h deadline w r o (w', q, inl (e, g)) =
      rw g (omega (arith, q, o, (network.counted h).closes w'))
  after_greeting_lem n h deadline w r o (w', q, inr g) = rw g (q ∙ o, refl)

  after_new_lem :
      (n : ℕ) (deadline : Option ℕ) (r : Dialed Handle Err × World)
      → count (r.1) ≡ (elim (r.0) [ dialed h ↦ suc n | refused e ↦ n ])
      → IsTried count n (after_new conn deadline r)
  unfolding after_new
  after_new_lem n deadline (refused e, w) q = q
  after_new_lem n deadline (dialed h, w) q =
      after_greeting_lem n h deadline w (handshake (conn h) deadline version_one w) q
        (handshake_lem conn no_timeout connector count network h deadline version_one w)

  -- In a network that counts the dials that have succeeded less the closes, and with any options: if New
  -- returns a client, one connection more is open than before, and its protocol is not closed; if it
  -- returns an error, no connection more is open.
  pub new_client_lem :
      (deadline : Option ℕ) (address : List ℕ) (w : World)
      → IsTried count (count w) (new_client conn default_dial options deadline address w)
  unfolding new_client
  new_client_lem deadline address w =
      after_new_lem (count w) deadline (choose_dial options default_dial deadline address w)
        (network.dials deadline address w)
