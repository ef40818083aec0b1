-- ===== src/Outcome.antt =====
-- How a Go call ends: it returns, it panics, or it never returns.

-- What the code panics with. `index`, `nil_pointer` and `closed_channel` are the runtime's own panics,
-- on an index or a slice out of range, on a nil pointer or function, and on a second close.
pub data Panic : Type 0 where
  index nil_pointer short_message no_string unexpected_ordinal unsupported_value : Panic
  closed_channel no_protocol negative_read : Panic
  too_many_parameters not_positive not_aligned empty_body unknown_type buffer_size : Panic

-- `stuck`: the code never returns.
pub data Outcome {ℓ} (A : Type ℓ) : Type ℓ where
  ok : A → Outcome A
  panic : Panic → Outcome A
  stuck : Outcome A
