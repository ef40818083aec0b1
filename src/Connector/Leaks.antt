-- ===== src/Connector/Leaks.antt =====
-- connectAttemptAll and Connect of internal/protocol/connector.go: which connections stay open.
use go_dqlite.Prelude.{ℕ, suc, ◌≡◌, refl, subst, false, Option, none, some, List, [], ◌∷◌}
use go_dqlite.Prelude.Int.{ℤ}
use go_dqlite.Node.{NodeInfo}
use go_dqlite.Protocol.Constants.{version_one, version_legacy}
use go_dqlite.Protocol.Connection.{Connection}
use go_dqlite.Message.Ending.{Ran, End, returned, panicked, Ran-cases}
use go_dqlite.Protocol.Session.{
  Try, return, raise, cause, decoding, sqlite, too_many, bad_conn, bad_protocol, no_leader,
}
use go_dqlite.Connector.Config.{Connector}
use go_dqlite.Connector.Attempt.{
  DialFunc, Link, Probe, after_reported, connect_attempt_one, after_probe, after_first, try_server,
  try_servers,
}
use go_dqlite.Connector.Table.{
  IsNetwork, IsRow, failure, not_leader, other_leader, leader, connect_attempt_one-IsRow,
}

-- With a protocol one connection more than `n` is open, and without one `n`.
abbrev pub IsLinked :
    {World Handle Err : Type 0} → (World → ℕ) → ℕ → Option (Link Handle Err) → World → Type 0
IsLinked count n (some (h, p)) w = (count w ≡ suc n) × (p.closed ≡ false)
IsLinked count n none w = count w ≡ n

-- With a protocol one connection more than `n` is open, and with an error `n`.
abbrev pub IsTried :
    {World Handle Err : Type 0} → (World → ℕ) → ℕ → Try Err (Link Handle Err) × World → Type 0
IsTried count n (return (h, p), w) = (count w ≡ suc n) × (p.closed ≡ false)
IsTried count n (raise e, w) = count w ≡ n

module _ {World Handle Err : Type 0} (conn : Handle → Connection World Err)
    (with_timeout : Option ℕ → ℤ → World → Option ℕ) (c : Connector (DialFunc World Handle Err))
    (count : World → ℕ) (network : IsNetwork conn c.dial count) where
  after_reported_lem :
      (n m : ℕ) (p : Probe Handle Err) (w : World)
      → IsRow n p m
      → count w ≡ m
      → IsLinked count n (after_reported conn with_timeout c p) w
  unfolding after_reported
  after_reported_lem n m p w (failure e) q = q
  after_reported_lem n m p w not_leader q = q
  after_reported_lem n m p w (other_leader a f) q = q
  after_reported_lem n m p w (leader h l f) q = (q, f)

  probing :
      (deadline : Option ℕ) (address : List ℕ) (version n : ℕ) (w : World)
      → count w ≡ n
      → End
          (λ r. IsRow n (r.0) (count (r.1)))
          (connect_attempt_one conn with_timeout c deadline address version w)
  probing deadline address version n w q =
      Ran-cases (connect_attempt_one conn with_timeout c deadline address version w) (
        subst
          (λ m.
            Ran (λ r. IsRow m (r.0) (count (r.1)))
              (connect_attempt_one conn with_timeout c deadline address version w))
          q
          (connect_attempt_one-IsRow conn with_timeout c count network deadline address version w))

  after_probe_lem :
      (deadline : Option ℕ) (version n m : ℕ) (p : Probe Handle Err) (w : World)
      → IsRow n p m
      → count w ≡ m
      → Ran
          (λ r. IsLinked count n (r.0) (r.1))
          (after_probe conn with_timeout c deadline version (p, w))
  unfolding after_probe
  after_probe_lem deadline version n m p w (failure e) q = q
  after_probe_lem deadline version n m p w not_leader q = q
  after_probe_lem deadline version n m p w (leader h l f) q = (q, f)
  after_probe_lem deadline version n m p w (other_leader [] f) q = q
  after_probe_lem deadline version n m p w (other_leader (b ∷ bs) f) q =
      elim (probing (with_timeout deadline c.attempt_timeout w) (b ∷ bs) version n w q) [
        | returned (x, w') g r ↦ rw (g, after_probe) (after_reported_lem n (count w') x w' r refl)
        | panicked e g ↦ rw (g, after_probe) tt
      ]

  retried :
      (deadline : Option ℕ) (address : List ℕ) (n : ℕ) (w : World)
      → count w ≡ n
      → Ran
          (λ r. IsLinked count n (r.0) (r.1))
          (after_first conn with_timeout c deadline address
            (record { link = none; leader = []; err = some bad_protocol }, w))
  unfolding after_first
  retried deadline address n w q = elim (probing deadline address version_legacy n w q) [
    | returned (x, w') g r ↦
        rw (g, after_first) (after_probe_lem deadline version_legacy n (count w') x w' r refl)
    | panicked e g ↦ rw (g, after_first) tt
  ]

  after_first_lem :
      (deadline : Option ℕ) (address : List ℕ) (n m : ℕ) (p : Probe Handle Err) (w : World)
      → IsRow n p m
      → count w ≡ m
      → Ran
          (λ r. IsLinked count n (r.0) (r.1))
          (after_first conn with_timeout c deadline address (p, w))
  unfolding after_first
  after_first_lem deadline address n m p w (failure (cause x)) q =
      after_probe_lem deadline version_one n n p w (failure (cause x)) q
  after_first_lem deadline address n m p w (failure (decoding x)) q =
      after_probe_lem deadline version_one n n p w (failure (decoding x)) q
  after_first_lem deadline address n m p w (failure (sqlite x y)) q =
      after_probe_lem deadline version_one n n p w (failure (sqlite x y)) q
  after_first_lem deadline address n m p w (failure (too_many x)) q =
      after_probe_lem deadline version_one n n p w (failure (too_many x)) q
  after_first_lem deadline address n m p w (failure bad_conn) q =
      after_probe_lem deadline version_one n n p w (failure bad_conn) q
  after_first_lem deadline address n m p w (failure bad_protocol) q = retried deadline address n w q
  after_first_lem deadline address n m p w (failure no_leader) q =
      after_probe_lem deadline version_one n n p w (failure no_leader) q
  after_first_lem deadline address n m p w not_leader q =
      after_probe_lem deadline version_one n n p w not_leader q
  after_first_lem deadline address n m p w (other_leader a f) q =
      after_probe_lem deadline version_one n n p w (other_leader a f) q
  after_first_lem deadline address n m p w (leader h l f) q =
      after_probe_lem deadline version_one n (suc n) p w (leader h l f) q

  try_server_lem :
      (deadline : Option ℕ) (address : List ℕ) (n : ℕ) (w : World)
      → count w ≡ n
      → Ran (λ r. IsLinked count n (r.0) (r.1)) (try_server conn with_timeout c deadline address w)
  unfolding try_server
  try_server_lem deadline address n w q = elim (probing deadline address version_one n w q) [
    | returned (x, w') g r ↦
        rw (g, try_server) (after_first_lem deadline address n (count w') x w' r refl)
    | panicked e g ↦ rw (g, try_server) tt
  ]

  pub try_servers_lem :
      (deadline : Option ℕ) (ns : List NodeInfo) (n : ℕ) (w : World)
      → count w ≡ n
      → Ran (IsTried count n) (try_servers conn with_timeout c deadline ns w)
  unfolding try_servers
  try_servers_lem deadline [] n w q = q
  try_servers_lem deadline (s ∷ ns) n w q =
      let timeout = with_timeout deadline c.attempt_timeout w in
      elim (Ran-cases (try_server conn with_timeout c timeout s.address w)
        (try_server_lem timeout s.address n w q)) [
          | returned (some (h, p), w') g r ↦ rw (g, try_servers) r
          | returned (none, w') g r ↦ rw (g, try_servers) (try_servers_lem deadline ns n w' r)
          | panicked e g ↦ rw (g, try_servers) tt
        ]
