-- ===== src/Message/Action.antt =====
-- How a sequence of actions runs.
use go_dqlite.Prelude.{◌≡◌}
use go_dqlite.Message.State.{Panic, ok, panic, Message, Action, ◌>>=◌}

module _ {A B : Type 0} (m : Action A) (f : A → Action B) {s : Message} where
  -- The rest of a block goes on from what its first action returns.
  pub bind_ok : {a : A} {t : Message} → m s ≡ ok (a, t) → (m >>= f) s ≡ f a t
  bind_ok e = rw (e, ◌>>=◌)

  pub bind_panic : {p : Panic} → m s ≡ panic p → (m >>= f) s ≡ panic p
  bind_panic e = rw (e, ◌>>=◌)
