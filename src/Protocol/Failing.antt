-- ===== src/Protocol/Failing.antt =====
-- Protocol.Call of internal/protocol/protocol.go behind an error of the network.
use go_dqlite.Prelude.{ℕ, ◌≡◌, ap, sym, ◌∙◌, arith, true, Option, none, some}
use go_dqlite.Message.State.{Outcome, ok, panic, stuck, Message}
use go_dqlite.Protocol.Connection.{
  Connection, Failure, connection, short_write, no_progress, Protocol, keep_error, with_deadline,
  exchange, after_exchange, call, call_unless,
}

module _ {Net Err : Type 0} (conn : Connection Net Err) where
  after_exchange-kept :
      (deadline : Option ℕ) (p p' : Protocol Err)
      (x : Outcome (Option (Failure Err) × Message × Net)) (e : Err) (m : Message) (net : Net)
      → after_exchange conn deadline p x ≡ ok (some (connection e), m, p', net)
      → conn.is_op_error e ≡ true
      → p'.net_err ≡ some (connection e)
  unfolding after_exchange keep_error
  after_exchange-kept deadline p p' (ok (some (connection f), n, net1)) e m net h op = grind arith
  after_exchange-kept deadline p p' (ok (some short_write, n, net1)) e m net h op = grind arith
  after_exchange-kept deadline p p' (ok (some no_progress, n, net1)) e m net h op = grind arith
  after_exchange-kept deadline p p' (ok (none, n, net1)) e m net h op = grind arith
  after_exchange-kept deadline p p' (panic q) e m net h op = grind arith
  after_exchange-kept deadline p p' stuck e m net h op = grind arith

  -- If a call, on a connection without an error before, has returned an error of the connection
  -- that is a net.OpError, every later call returns the same error, and touches neither the
  -- connection nor the response.
  pub call_after_error :
      (deadline later : Option ℕ) (request response request2 response2 m : Message)
      (p p' : Protocol Err) (e : Err) (net net' net2 : Net)
      → p.net_err ≡ none
      → call conn deadline request response p net ≡ ok (some (connection e), m, p', net')
      → conn.is_op_error e ≡ true
      → call conn later request2 response2 p' net2 ≡ ok (some (connection e), response2, p', net2)
  unfolding call call_unless
  call_after_error deadline later request response request2 response2 m p p' e net net' net2 n h
        op =
      let kept =
        after_exchange-kept deadline p p'
          (exchange conn request response (with_deadline conn deadline deadline net)) e m net'
          (ap (λ o. call_unless conn o deadline request response p net) (sym n) ∙ h) op in
      ap (λ o. call_unless conn o later request2 response2 p' net2) kept
