-- ===== src/Connector/Connect.antt =====
-- connectAttemptAll, makeRetryStrategies and Connect of internal/protocol/connector.go. The retry
-- package, sort.Slice, the node store and the clock are parameters.
use go_dqlite.Prelude.{
  ℕ, ◌+◌, ◌%◌, ◌^◌, Bool, true, Option, none, some, List, [], ◌∷◌, ltb, if◌then◌else◌,
}
use go_dqlite.Prelude.Int.{ℤ}
use go_dqlite.Node.{NodeInfo}
use go_dqlite.Message.State.{Outcome, ok, panic, stuck}
use go_dqlite.Outcome.{no_protocol}
use go_dqlite.Protocol.Connection.{Connection}
use go_dqlite.Protocol.Session.{Fault, Try, return, raise, no_leader}
use go_dqlite.Connector.Config.{Connector}
use go_dqlite.Connector.Attempt.{DialFunc, Link, try_servers}
use go_dqlite.Connector.Delay.{lt_int, delay}

-- A strategy of the retry package on the state of an action: whether the attempt is to be made.
abbrev pub Strategy : Type 0 → Type 0
Strategy S = ℕ → S → Bool × S

abbrev pub Retry : Type 0 → Type 0 → Type 0
Retry Err S =
    (ℕ → S → Outcome (Option (Fault Err) × S))
    → List (Strategy S)
    → S
    → Outcome (Option (Fault Err) × S)

abbrev pub less_role : NodeInfo → NodeInfo → Bool
less_role n m = lt_int n.role m.role

-- The strategy that waits before each attempt but the first.
unfoldable pub wait : {S : Type 0} → (ℕ → ℤ) → ℤ → (ℤ → S → S) → Strategy S
unfolding delay
wait backoff cap sleep attempt s =
    if ltb 0 attempt then (true, sleep (delay cap (backoff attempt)) s) else (true, s)

-- makeRetryStrategies; `binary_exponential` and `limit` are of the retry package.
unfoldable pub make_retry_strategies :
    {S : Type 0} → (ℤ → ℕ → ℤ) → (ℕ → Strategy S) → (ℤ → S → S) → ℤ → ℤ → ℕ → List (Strategy S)
unfolding wait
make_retry_strategies binary_exponential limit sleep factor cap n =
    let waits = wait (binary_exponential factor) cap sleep ∷ [] in
    let most = (n + 1) % 2 ^ 64 in if ltb 1 most then limit most ∷ waits else waits

-- The state of Connect: its protocol, which may be nil, and the world.
abbrev pub State : Type 0 → Type 0 → Type 0 → Type 0
State World Handle Err = Option (Link Handle Err) × World

module _ {World Handle Err : Type 0} (conn : Handle → Connection World Err)
    (with_timeout : Option ℕ → ℤ → World → Option ℕ)
    (sort : (NodeInfo → NodeInfo → Bool) → List NodeInfo → List NodeInfo)
    (get : World → Try Err (List NodeInfo) × World)
    (c : Connector (DialFunc World Handle Err)) where
  -- connectAttemptAll behind the node store.
  unfoldable pub after_get :
      Option ℕ → Try Err (List NodeInfo) × World → Outcome (Try Err (Link Handle Err) × World)
  unfolding try_servers
  after_get deadline (raise e, w) = ok (raise e, w)
  after_get deadline (return ns, w) = try_servers conn with_timeout c deadline (sort less_role ns) w

  unfoldable pub connect_attempt_all :
      Option ℕ → World → Outcome (Try Err (Link Handle Err) × World)
  unfolding after_get
  connect_attempt_all deadline w = after_get deadline (get w)

  -- The action of Connect behind connectAttemptAll.
  unfoldable pub after_all :
      Outcome (Try Err (Link Handle Err) × World)
      → Outcome (Option (Fault Err) × (State World Handle Err))
  after_all (ok (return l, w)) = ok (none, (some l, w))
  after_all (ok (raise e, w)) = ok (some e, (none, w))
  after_all (panic p) = panic p
  after_all stuck = stuck

  module _ (is_done : World → Bool) where
    -- The action that Connect retries.
    unfoldable pub try_connect :
        Option ℕ
        → ℕ
        → State World Handle Err
        → Outcome (Option (Fault Err) × (State World Handle Err))
    unfolding after_all connect_attempt_all
    try_connect deadline attempt (p, w) =
        if is_done w then ok (none, (p, w)) else after_all (connect_attempt_all deadline w)

    -- Connect behind the retries.
    unfoldable pub after_retry :
        Outcome (Option (Fault Err) × (State World Handle Err))
        → Outcome (Try Err (Link Handle Err) × World)
    after_retry (ok (some e, (p, w))) = ok (raise no_leader, w)
    after_retry (ok (none, (none, w))) =
        if is_done w then ok (raise no_leader, w) else panic no_protocol
    after_retry (ok (none, (some l, w))) =
        if is_done w then ok (raise no_leader, w) else ok (return l, w)
    after_retry (panic p) = panic p
    after_retry stuck = stuck

    -- Connect, in a context with this deadline, or none, that is done where `is_done` says so.
    unfoldable pub connect :
        Retry Err (State World Handle Err)
        → (ℤ → ℕ → ℤ)
        → (ℕ → Strategy (State World Handle Err))
        → (ℤ → World → World)
        → Option ℕ
        → World
        → Outcome (Try Err (Link Handle Err) × World)
    unfolding try_connect after_retry make_retry_strategies
    connect retry binary_exponential limit sleep deadline w = after_retry (
        retry (try_connect deadline)
          (make_retry_strategies binary_exponential limit (λ d s. (s.0, sleep d (s.1)))
            c.backoff_factor c.backoff_cap c.retry_limit)
          (none, w))
