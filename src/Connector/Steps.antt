-- ===== src/Connector/Steps.antt =====
-- The steps of connectAttemptOne, internal/protocol/connector.go, that close the protocol.
use go_dqlite.Prelude.{◌≡◌, refl, ◌∙◌, true, false}
use go_dqlite.Outcome.{ok}
use go_dqlite.Protocol.Connection.{Connection, close}
use go_dqlite.Protocol.Session.{
  Fault, Io, Session, return, raise, throw, attempt, do_close, bind_return, attempt-return,
}
use go_dqlite.Connector.Handshake.{or_close, after_step}

module _ {Net Err : Type 0} (conn : Connection Net Err) where
  abbrev pub shut : Session Net Err → Session Net Err
  shut s = record s { protocol = record s.protocol { closed = true }; net = (conn.close s.net).1 }

  pub do_close-return :
      (s : Session Net Err)
      → s.protocol.closed ≡ false
      → do_close conn s ≡ ok (return (conn.close s.net).0, shut s)
  unfolding do_close close
  do_close-return s e = rw (e, close) refl

  pub or_close-return :
      {A B : Type 0} (convert : Fault Err → Fault Err) (m : Io Net Err A) (f : A → Io Net Err B)
      (s t : Session Net Err) (a : A)
      → m s ≡ ok (return a, t)
      → or_close conn convert m f s ≡ f a t
  unfolding or_close after_step
  or_close-return convert m f s t a e =
      bind_return (attempt m) (after_step conn convert f) {s = s} (attempt-return s m e)

  pub or_close-raise :
      {A B : Type 0} (convert : Fault Err → Fault Err) (m : Io Net Err A) (f : A → Io Net Err B)
      (s t : Session Net Err) (e : Fault Err)
      → m s ≡ ok (raise e, t)
      → t.protocol.closed ≡ false
      → or_close conn convert m f s ≡ ok (raise (convert e), shut t)
  unfolding or_close after_step
  or_close-raise convert m f s t e g live =
      bind_return (attempt m) (after_step conn convert f) {s = s} (attempt-return s m g)
      ∙ bind_return (do_close conn) (λ _. throw (convert e)) {s = t} (do_close-return t live)
