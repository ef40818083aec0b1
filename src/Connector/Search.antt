-- ===== src/Connector/Search.antt =====
-- Connect of internal/protocol/connector.go over the retry package: what it returns, and which
-- connections stay open.
use go_dqlite.Prelude.{subst, sym}
use go_dqlite.Prelude.{
  ℕ, suc, ◌+◌, ◌%◌, ◌^◌, ◌≡◌, ◌<◌, arith, refl, ◌∙◌, ◌⊎◌, inl, inr, Bool, true, false, Bool-cases,
  Option, none, some, List, All, ltb,
}
use go_dqlite.Prelude.Int.{ℤ}
use go_dqlite.Node.{NodeInfo}
use go_dqlite.Message.State.{Outcome, ok, panic, stuck}
use go_dqlite.Protocol.Connection.{Connection}
use go_dqlite.Message.Ending.{Ran}
use go_dqlite.Protocol.Keeping.{Ran-Holds, Holds, Outcome-cases, returned, panicked, never}
use go_dqlite.Protocol.Session.{Fault, Try, return, raise, no_leader}
use go_dqlite.Connector.Config.{Connector}
use go_dqlite.Connector.Attempt.{DialFunc, Link}
use go_dqlite.Connector.Connect.{
  less_role, after_get, connect_attempt_all, State, Strategy, Retry, wait, after_all, try_connect,
  after_retry, make_retry_strategies, connect,
}
use go_dqlite.Connector.Table.{IsNetwork}
use go_dqlite.Connector.Leaks.{IsLinked, IsTried, try_servers_lem}

-- Retry performs an action again until it is successful. Where every strategy lets the first attempt
-- pass, it returns without an error only behind a successful attempt: if an attempt that fails keeps
-- P, a successful one gives Q, and the strategies keep P, then Q holds behind a success, and P behind
-- an error. A limit of more than one lets the first attempt pass, and Limit does not touch the state.
pub record IsRetry {Err S : Type 0} (retry : Retry Err S) (limit : ℕ → Strategy S) : Type 1 where
  pub runs :
      (P Q : S → Type 0) (action : ℕ → S → Outcome (Option (Fault Err) × S))
      (strategies : List (Strategy S)) (s : S)
      → ((i : ℕ) (s : S)
          → P s
          → Holds (λ r. elim (r.0) [ none ↦ Q (r.1) | some e ↦ P (r.1) ]) (action i s))
      → All
          (λ strategy.
            ((s : S) → (strategy 0 s).0 ≡ true) × ((i : ℕ) (s : S) → P s → P (strategy i s).1))
          strategies
      → P s
      → Holds (λ r. elim (r.0) [ none ↦ Q (r.1) | some e ↦ P (r.1) ]) (retry action strategies s)
  pub limits : (n i : ℕ) (s : S) → (limit n i s).1 ≡ s
  pub starts : (n : ℕ) (s : S) → 1 < n → (limit n 0 s).0 ≡ true

-- The result of Connect: a protocol that is not closed and that has the only connection that is more
-- than `n`, in a context that is not done; or ErrNoAvailableLeader, where no connection stays open
-- unless the context is done.
abbrev pub IsFound :
    {World Handle Err : Type 0}
    → (World → ℕ)
    → (World → Bool)
    → ℕ
    → Try Err (Link Handle Err) × World
    → Type 0
IsFound count is_done n (return (h, p), w) =
    (count w ≡ suc n) × (p.closed ≡ false) × (is_done w ≡ false)
IsFound count is_done n (raise e, w) =
    (e ≡ no_leader) × ((count w ≡ n) ⊎ ((count w ≡ suc n) × (is_done w ≡ true)))

module _ {World Handle Err : Type 0} (conn : Handle → Connection World Err)
    (with_timeout : Option ℕ → ℤ → World → Option ℕ)
    (sort : (NodeInfo → NodeInfo → Bool) → List NodeInfo → List NodeInfo)
    (get : World → Try Err (List NodeInfo) × World) (c : Connector (DialFunc World Handle Err))
    (count : World → ℕ) (network : IsNetwork conn c.dial count)
    (stores : (w : World) → count (get w).1 ≡ count w) where
  after_get_lem :
      (deadline : Option ℕ) (n : ℕ) (r : Try Err (List NodeInfo) × World)
      → count (r.1) ≡ n
      → Ran (IsTried count n) (after_get conn with_timeout sort get c deadline r)
  unfolding after_get
  after_get_lem deadline n (raise e, w) q = q
  after_get_lem deadline n (return ns, w) q =
      try_servers_lem conn with_timeout c count network deadline (sort less_role ns) n w q

  -- connectAttemptAll ends on every network that counts the dials that have succeeded less the closes, a
  -- count that the node store does not change: it returns or panics. Where it returns, a connection
  -- more than before is open if it returns a protocol, which is not closed, and none if it returns an
  -- error: every other connection that the attempts on the servers and on the leaders that they
  -- reported have dialed is closed.
  pub connect_attempt_all_lem :
      (deadline : Option ℕ) (w : World)
      → Ran
          (λ r. elim (r.0) [
            | return l ↦ (count (r.1) ≡ suc (count w)) × ((l.1).closed ≡ false)
            | raise e ↦ count (r.1) ≡ count w
          ])
          (connect_attempt_all conn with_timeout sort get c deadline w)
  unfolding connect_attempt_all
  connect_attempt_all_lem deadline w =
      shape (after_get conn with_timeout sort get c deadline (get w))
        (after_get_lem deadline (count w) (get w) (stores w))
    where
      shape :
          (o : Outcome (Try Err (Link Handle Err) × World))
          → Ran (IsTried count (count w)) o
          → Ran
              (λ r. elim (r.0) [
                | return l ↦ (count (r.1) ≡ suc (count w)) × ((l.1).closed ≡ false)
                | raise e ↦ count (r.1) ≡ count w
              ])
              o
      shape (ok (return (h, p), w')) q = q
      shape (ok (raise e, w')) q = q
      shape (panic p) q = tt
      shape stuck q = q

  -- What an attempt of Connect begins with, and what a successful one ends with.
  Before : ℕ → State World Handle Err → Type 0
  Before n s = (s.0 ≡ none) × (count (s.1) ≡ n)

  module _ (is_done : World → Bool) where
    After : ℕ → State World Handle Err → Type 0
    After n s = IsLinked count n (s.0) (s.1) × (s.0 ≡ none → is_done (s.1) ≡ true)

    after_all-Holds :
        (n : ℕ) (o : Outcome (Try Err (Link Handle Err) × World))
        → Holds (IsTried count n) o
        → Holds
            (λ r. elim (r.0) [ none ↦ After n (r.1) | some e ↦ Before n (r.1) ])
            (after_all conn with_timeout sort get c o)
    unfolding after_all After Before
    after_all-Holds n (ok (return (h, p), w)) q = (q, λ e. cc)
    after_all-Holds n (ok (raise e, w)) q = (refl, q)
    after_all-Holds n (panic p) q = tt
    after_all-Holds n stuck q = tt

    attempt-Holds :
        (deadline : Option ℕ) (n i : ℕ) (s : State World Handle Err)
        → Before n s
        → Holds
            (λ r. elim (r.0) [ none ↦ After n (r.1) | some e ↦ Before n (r.1) ])
            (try_connect conn with_timeout sort get c is_done deadline i s)
    unfolding try_connect connect_attempt_all After Before
    attempt-Holds deadline n i (p, w) (e, q) = elim (Bool-cases (is_done w)) [
      | inl d ↦ rw (d, e) (q, λ _. d)
      | inr d ↦ rw d (
          after_all-Holds n (after_get conn with_timeout sort get c deadline (get w)) (
            Ran-Holds (IsTried count n) (after_get conn with_timeout sort get c deadline (get w))
              (after_get_lem deadline n (get w) (stores w ∙ q))))
    ]

    module _ (sleep : ℤ → World → World)
        (sleeps : (d : ℤ) (w : World) → count (sleep d w) ≡ count w)
        (retry : Retry Err (State World Handle Err)) (limit : ℕ → Strategy (State World Handle Err))
        (retries : IsRetry retry limit) (binary_exponential : ℤ → ℕ → ℤ) where
      sleep_in : ℤ → State World Handle Err → State World Handle Err
      sleep_in d s = (s.0, sleep d (s.1))

      Passes : ℕ → Strategy (State World Handle Err) → Type 0
      Passes n strategy =
          ((s : State World Handle Err) → (strategy 0 s).0 ≡ true)
          × ((i : ℕ) (s : State World Handle Err) → Before n s → Before n (strategy i s).1)

      wait-Passes : (backoff : ℕ → ℤ) (cap : ℤ) (n : ℕ) → Passes n (wait backoff cap sleep_in)
      unfolding wait Passes Before sleep_in
      wait-Passes backoff cap n = (λ s. refl, λ i s q. later i s q)
        where
          later :
              (i : ℕ) (s : State World Handle Err)
              → Before n s
              → Before n (wait backoff cap sleep_in i s).1
          later i s (e, q) = elim (Bool-cases (ltb 0 i)) [
            | inl h ↦ rw h (e, sleeps _ _ ∙ q)
            | inr h ↦ rw h (e, q)
          ]

      strategies-Passes :
          (factor cap : ℤ) (m n : ℕ)
          → All (Passes n) (make_retry_strategies binary_exponential limit sleep_in factor cap m)
      unfolding make_retry_strategies Passes Before
      strategies-Passes factor cap m n =
          let w = wait-Passes (binary_exponential factor) cap n in
          elim (Bool-cases (ltb 1 ((m + 1) % 2 ^ 64))) [
            | inl h ↦ rw h (
              (
                λ s. retries.starts ((m + 1) % 2 ^ 64) s (ground (arith, h)),
                λ i s q. rw (retries.limits ((m + 1) % 2 ^ 64) i s) q,
              ),
              (w, tt),
            )
            | inr h ↦ rw h (w, tt)
          ]

      Found : ℕ → Outcome (Try Err (Link Handle Err) × World) → Type 0
      Found n o = (r : Try Err (Link Handle Err) × World) × (o ≡ ok r) × IsFound count is_done n r

      after_retry-Found :
          (n : ℕ) (r : Option (Fault Err) × State World Handle Err)
          → Holds (λ r. elim (r.0) [ none ↦ After n (r.1) | some e ↦ Before n (r.1) ]) (ok r)
          → Found n (after_retry conn with_timeout sort get c is_done (ok r))
      unfolding after_retry Found After Before
      after_retry-Found n (some e, (p, w)) (_, q) = ((raise no_leader, w), refl, (refl, inl q))
      after_retry-Found n (none, (none, w)) (q, d) =
          ((raise no_leader, w), rw (d refl) refl, (refl, inl q))
      after_retry-Found n (none, (some (h, p), w)) ((q, f), d) = elim (Bool-cases (is_done w)) [
        | inl e ↦ ((raise no_leader, w), rw e refl, (refl, inr (q, e)))
        | inr e ↦ ((return (h, p), w), rw e refl, (q, f, e))
      ]

      -- In a network that counts the dials that have succeeded less the closes, which the node store
      -- and the sleeps do not change, and with a retry package that ends behind a success, and whose
      -- limits of more than one let the first attempt pass: where the retries return, Connect returns, and so does not panic for want of a protocol. If it
      -- returns a protocol, this is not closed, the context is not done, and one connection more is open
      -- than before. If it returns an error, this is ErrNoAvailableLeader, and no connection more is
      -- open, or the context is done and one connection more is open, which nothing closes.
      pub connect_lem :
          (deadline : Option ℕ) (w : World) (r : Option (Fault Err) × State World Handle Err)
          → retry
              (try_connect conn with_timeout sort get c is_done deadline)
              (make_retry_strategies binary_exponential limit
                (λ d s. (s.0, sleep d (s.1)))
                c.backoff_factor
                c.backoff_cap
                c.retry_limit)
              (none, w)
            ≡ ok r
          → (x : Try Err (Link Handle Err) × World) × (connect conn with_timeout sort get c is_done
                retry binary_exponential limit sleep deadline w
              ≡ ok x)
            × IsFound count is_done (count w) x
      unfolding connect Found sleep_in Passes Before After
      connect_lem deadline w r e =
          let n = count w in
          let start : Before n (none, w) = (refl, refl) in
          let h =
            retries.runs (Before n) (After n)
              (try_connect conn with_timeout sort get c is_done deadline)
              (make_retry_strategies binary_exponential limit sleep_in c.backoff_factor
                c.backoff_cap c.retry_limit)
              (none, w) (attempt-Holds deadline n)
              (strategies-Passes c.backoff_factor c.backoff_cap c.retry_limit n) start in
          let (x, f, i) = after_retry-Found n r (rw e at h) in (x, rw e f, i)

      -- The result of Connect, where it returns.
      pub connect-Holds :
          (deadline : Option ℕ) (w : World)
          → Holds (IsFound count is_done (count w)) (
              connect conn with_timeout sort get c is_done retry binary_exponential limit sleep
                deadline w)
      unfolding connect after_retry Passes Before Found
      connect-Holds deadline w =
          elim (Outcome-cases (
            retry (try_connect conn with_timeout sort get c is_done deadline)
              (make_retry_strategies binary_exponential limit (λ d s. (s.0, sleep d (s.1)))
                c.backoff_factor c.backoff_cap c.retry_limit)
              (none, w))) [
                | returned r e _ ↦
                    let (x, f, i) = connect_lem deadline w r e in
                    subst (Holds (IsFound count is_done (count w))) (sym f) i
                | panicked p e ↦ rw (e, connect) tt
                | never e ↦ rw (e, connect) tt
              ]
