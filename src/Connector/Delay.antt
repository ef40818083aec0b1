-- ===== src/Connector/Delay.antt =====
-- The waiting strategy of makeRetryStrategies in internal/protocol/connector.go: how long it sleeps.
use go_dqlite.Prelude.{
  ℕ, zero, suc, ◌*◌, ◌≤◌, ◌<◌, ◌≡◌, refl, arith, inl, inr, Bool, true, false, Bool-cases, ◌||◌, ltb,
  lt→ltb, if◌then◌else◌,
}
use go_dqlite.Prelude.Int.{ℤ, pos, negsuc}
use go_dqlite.Connector.Config.{Config, new_connector, or_default, milliseconds}

abbrev pub lt_int : ℤ → ℤ → Bool
lt_int (pos a) (pos b) = ltb a b
lt_int (pos a) (negsuc b) = false
lt_int (negsuc a) (pos b) = true
lt_int (negsuc a) (negsuc b) = ltb b a

-- The duration from the backoff, which may be negative or zero where the backoff has overflowed.
unfoldable pub delay : ℤ → ℤ → ℤ
delay cap duration = if lt_int cap duration || lt_int duration (pos 1) then cap else duration

delay_bounds :
    (cap : ℕ) (duration : ℤ)
    → 0 < cap
    → (n : ℕ) × (delay (pos cap) duration ≡ pos n)
      × (0 < n)
      × (n ≤ cap)
      × ((k : ℕ) → duration ≡ pos k → 0 < k → k ≤ cap → n ≡ k)
unfolding delay
delay_bounds cap (pos d) h = elim (Bool-cases (ltb cap d || ltb d 1)) [
  | inl e ↦ (cap, rw e refl, h, omega arith, λ k i p q. outside k i p q e)
  | inr e ↦ (d, rw e refl, ground arith, ground arith, λ k i p q. cc)
]
  where
    outside : (k : ℕ) → pos d ≡ pos k → 0 < k → k ≤ cap → ltb cap d || ltb d 1 ≡ true → cap ≡ k
    outside k i p q e = let j : d ≡ k = cc in absurd (ground arith)
delay_bounds cap (negsuc d) h = (cap, refl, h, omega arith, λ k i p q. cc)

cap_or_second :
    (v : ℤ) (cap : ℕ)
    → v ≡ pos cap
    → or_default v (milliseconds 1000) ≡ pos (if ltb 0 cap then cap else 1000 * 1000000)
unfolding or_default
cap_or_second v zero h = rw h refl
cap_or_second v (suc n) h = rw (h, lt→ltb 0 (suc n) (omega arith)) refl

-- For a new connector whose config has a backoff cap that is not negative, and whatever duration the
-- backoff returns, also one that has overflowed: the sleep is positive, and at most the cap, or a
-- second where the config has none; a duration within these bounds is slept as it is.
pub new_connector-delay :
    {Dial : Type 0} (default_dial : Dial) (id : ℕ) (config : Config Dial) (cap : ℕ) (duration : ℤ)
    → config.backoff_cap ≡ pos cap
    → (let most = if ltb 0 cap then cap else 1000 * 1000000 in
        (n : ℕ) × (delay (new_connector default_dial id config).backoff_cap duration ≡ pos n)
        × (0 < n)
        × (n ≤ most)
        × ((k : ℕ) → duration ≡ pos k → 0 < k → k ≤ most → n ≡ k))
unfolding new_connector
new_connector-delay default_dial id config cap duration h =
    rw (cap_or_second config.backoff_cap cap h)
      (delay_bounds (if ltb 0 cap then cap else 1000 * 1000000) duration (ground arith))
