-- ===== src/Connector/Closing.antt =====
-- What connectAttemptOne of internal/protocol/connector.go does with the connection behind the handshake.
use go_dqlite.Prelude.{ℕ, ◌≡◌, ◌≢◌, inl, inr, Bool-cases, Option, List, [], ◌∷◌}
use go_dqlite.App.Roles.{bytes_eq}
use go_dqlite.Message.State.{reset, init}
use go_dqlite.Protocol.Request
use go_dqlite.Protocol.Response.{decode_node_compat, decode_welcome}
use go_dqlite.Protocol.Connection.{Connection}
use go_dqlite.Protocol.Keeping.{IsCounted, Holds}
use go_dqlite.Protocol.Session.{Session, return, done, decode_from, do_call, blank, with_messages}
use go_dqlite.Connector.Handshake.{
  Answer, leads, no_leader_known, reports, as_bad_protocol, register, route, ask,
}
use go_dqlite.Connector.Ends.{
  IsOpen, IsEnd, Ends, encode-Ends, read-Ends, close-Ends, or_close-Ends, do_call-Stays,
  decode_from-Stays,
}

module _ {Net Err : Type 0} (conn : Connection Net Err) (count : Net → ℕ)
    (k : IsCounted conn count) where
  -- The connection stays open if the server leads, and is closed if it does not.
  abbrev pub Settled : ℕ → Answer → Session Net Err → Type 0
  Settled n leads t = IsOpen conn count k n t
  Settled n no_leader_known t = count t.net ≡ n
  Settled n (reports a) t = (count t.net ≡ n) × (a ≢ [])

  leads-Ends : Ends conn count k Settled (done leads)
  unfolding Ends
  leads-Ends n s o = o

  register-Ends :
      (deadline : Option ℕ) (id : ℕ) → Ends conn count k Settled (register conn deadline id)
  unfolding register
  register-Ends deadline id = encode-Ends conn count k Settled reset _ (
      read-Ends conn count k Settled reset _ (
        encode-Ends conn count k Settled (Request.encode_client id) _ (
          or_close-Ends conn count k Settled (λ e. e) (do_call conn deadline) _
            (do_call-Stays conn count k deadline)
            (λ _.
              or_close-Ends conn count k Settled (λ e. e) (decode_from decode_welcome) _
                (decode_from-Stays conn count k decode_welcome) (λ _. leads-Ends)))))

  route-Ends :
      (deadline : Option ℕ) (id : ℕ) (address leader : List ℕ)
      → Ends conn count k Settled (route conn deadline id address leader)
  unfolding route
  route-Ends deadline id address [] =
      close-Ends conn count k Settled (return no_leader_known) (λ m t h. h)
  route-Ends deadline id address (b ∷ bs) = elim (Bool-cases (bytes_eq (b ∷ bs) address)) [
    | inl e ↦ rw e (register-Ends deadline id)
    | inr e ↦
        rw e (close-Ends conn count k Settled (return (reports (b ∷ bs))) (λ m t h. (h, λ e. cc)))
  ]

  pub ask-Holds :
      (deadline : Option ℕ) (id : ℕ) (address : List ℕ) (version n : ℕ) (s : Session Net Err)
      → IsOpen conn count k n s
      → Holds (IsEnd conn count k Settled n) (ask conn deadline id address version s)
  unfolding ask with_messages Ends
  ask-Holds deadline id address version =
      encode-Ends conn count k Settled (λ _. init 16 blank) _
        (read-Ends conn count k Settled (λ _. init 512 blank) _
          (encode-Ends conn count k Settled Request.encode_leader _ (
            or_close-Ends conn count k Settled (as_bad_protocol conn) (do_call conn deadline) _
              (do_call-Stays conn count k deadline)
              (λ _.
                or_close-Ends conn count k Settled (λ e. e)
                  (decode_from (decode_node_compat version)) _
                  (decode_from-Stays conn count k (decode_node_compat version))
                  (λ r. route-Ends deadline id address (r.1))))))
