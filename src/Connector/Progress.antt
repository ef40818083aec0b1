-- ===== src/Connector/Progress.antt =====
-- The attempts of internal/protocol/connector.go end: they return or panic, on every network.
use go_dqlite.Prelude.{ℕ, refl, arith, inl, inr, Bool-cases, Option, List, [], ◌∷◌, replicate}
use go_dqlite.Prelude.Int.{ℤ}
use go_dqlite.App.Roles.{bytes_eq}
use go_dqlite.Message.State.{Message, reset, init}
use go_dqlite.Message.Ending.{
  Ran, Ran-map, returned, panicked, Ran-cases, decode_welcome-IsReader, decode_node_compat-IsReader,
}
use go_dqlite.Protocol.Request
use go_dqlite.Protocol.Response.{decode_welcome, decode_node_compat}
use go_dqlite.Protocol.Schema
use go_dqlite.Protocol.Schema.{encode}
use go_dqlite.Protocol.Connection.{Connection, Protocol}
use go_dqlite.Protocol.Progress.{
  Runs, bind-Runs, attempt-Runs, done-Runs, encode-Runs, reset_request-Runs, reset_response-Runs,
  decode-Runs, do_call-Runs, do_close-Runs,
}
use go_dqlite.Protocol.Session.{
  Fault, Try, Session, Io, return, raise, ◌>>◌, throw, attempt, encode_into, read_from, decode_from,
  do_call, do_close, blank, with_messages,
}
use go_dqlite.Connector.Config.{Connector}
use go_dqlite.Connector.Handshake.{
  leads, no_leader_known, reports, as_bad_protocol, after_step, or_close, register, route, ask,
  handshake,
}
use go_dqlite.Connector.Attempt.{
  Dialed, dialed, refused, DialFunc, after_handshake, after_dial, connect_attempt_one,
}

abbrev new : ℕ → Message
new q = record {
  words = 0;
  mtype = 0;
  schema = 0;
  extra = 0;
  header = replicate 8 0;
  body = record { bytes = replicate q 0; offset = 0 };
}

abbrev no_times : Unit {0} → List ℕ
no_times t = []

module _ {Net Err : Type 0} (conn : Connection Net Err) where
  pub or_close-Runs :
      {A B : Type 0} (convert : Fault Err → Fault Err) (m : Io Net Err A) (f : A → Io Net Err B)
      → Runs conn m
      → ((a : A) → Runs conn (f a))
      → Runs conn (or_close conn convert m f)
  unfolding or_close after_step
  or_close-Runs convert m f h g =
      bind-Runs conn (attempt m) (after_step conn convert f) (attempt-Runs conn m h) step
    where
      step : (r : Try Err _) → Runs conn (after_step conn convert f r)
      step (return a) = g a
      step (raise e) =
          bind-Runs conn (do_close conn) (λ _. throw (convert e)) (do_close-Runs conn)
            (λ _. done-Runs conn (raise (convert e)))

  register-Runs : (deadline : Option ℕ) (id : ℕ) → Runs conn (register conn deadline id)
  unfolding register encode
  register-Runs deadline id = bind-Runs conn (encode_into reset) _ (reset_request-Runs conn) (λ _.
      bind-Runs conn (read_from reset) _ (reset_response-Runs conn) (λ _.
        bind-Runs conn (encode_into (Request.encode_client id)) _
          (encode-Runs conn no_times (Schema.client id) tt (omega arith))
          (λ _.
            or_close-Runs (λ e. e) (do_call conn deadline) _ (do_call-Runs conn deadline)
              (λ _.
                or_close-Runs (λ e. e) (decode_from decode_welcome) _
                  (decode-Runs conn decode_welcome decode_welcome-IsReader)
                  (λ _. done-Runs conn (return leads))))))

  route-Runs :
      (deadline : Option ℕ) (id : ℕ) (address leader : List ℕ)
      → Runs conn (route conn deadline id address leader)
  unfolding route
  route-Runs deadline id address [] =
      bind-Runs conn (do_close conn) _ (do_close-Runs conn)
        (λ _. done-Runs conn (return no_leader_known))
  route-Runs deadline id address (b ∷ bs) = elim (Bool-cases (bytes_eq (b ∷ bs) address)) [
    | inl e ↦ rw e (register-Runs deadline id)
    | inr e ↦ rw e (
        bind-Runs conn (do_close conn) _ (do_close-Runs conn)
          (λ _. done-Runs conn (return (reports (b ∷ bs)))))
  ]

  asking-Runs :
      (deadline : Option ℕ) (id : ℕ) (address : List ℕ) (version : ℕ)
      → Runs conn (
          encode_into Request.encode_leader
          >> or_close conn (as_bad_protocol conn) (do_call conn deadline) (λ _.
            or_close conn
              (λ e. e)
              (decode_from (decode_node_compat version))
              (λ r. route conn deadline id address (r.1))))
  unfolding encode
  asking-Runs deadline id address version =
      bind-Runs conn (encode_into Request.encode_leader) _
        (encode-Runs conn no_times Schema.leader tt (omega arith))
        (λ _.
          or_close-Runs (as_bad_protocol conn) (do_call conn deadline) _
            (do_call-Runs conn deadline)
            (λ _.
              or_close-Runs (λ e. e) (decode_from (decode_node_compat version)) _
                (decode-Runs conn (decode_node_compat version)
                  (decode_node_compat-IsReader version))
                (λ r. route-Runs deadline id address (r.1))))

  ask-Ran :
      (deadline : Option ℕ) (id : ℕ) (address : List ℕ) (version : ℕ) (s : Session Net Err)
      → Ran (λ r. Unit) (ask conn deadline id address version s)
  unfolding ask with_messages init reset Runs
  ask-Ran deadline id address version s =
      Ran-map (ask conn deadline id address version s) (λ r w. tt)
        (asking-Runs deadline id address version
          (record { protocol = s.protocol; request = new 16; response = new 512; net = s.net })
          (record {
            request = record { positive = omega arith; within = omega arith; aligned = refl };
            response = omega arith;
          }))

module _ {World Handle Err : Type 0} (conn : Handle → Connection World Err)
    (with_timeout : Option ℕ → ℤ → World → Option ℕ)
    (c : Connector (DialFunc World Handle Err)) where
  after_handshake-Ran :
      (deadline : Option ℕ) (address : List ℕ) (version : ℕ) (h : Handle)
      (r : Try Err (Protocol Err) × World)
      → Ran (λ r. Unit) (after_handshake conn with_timeout c deadline address version h r)
  unfolding after_handshake
  after_handshake-Ran deadline address version h (raise e, w) = tt
  after_handshake-Ran deadline address version h (return p, w) =
      let s : Session World Err = record {
        protocol = p;
        request = blank;
        response = blank;
        net = w;
      } in
      elim (Ran-cases (ask (conn h) deadline c.id address version s)
        (ask-Ran (conn h) deadline c.id address version s)) [
          | returned (x, t) g _ ↦ rw (g, after_handshake) tt
          | panicked p g ↦ rw (g, after_handshake) tt
        ]

  after_dial-Ran :
      (deadline : Option ℕ) (address : List ℕ) (version : ℕ) (r : Dialed Handle Err × World)
      → Ran (λ r. Unit) (after_dial conn with_timeout c deadline address version r)
  unfolding after_dial
  after_dial-Ran deadline address version (refused e, w) = tt
  after_dial-Ran deadline address version (dialed h, w) =
      after_handshake-Ran deadline address version h (handshake (conn h) deadline version w)

  pub connect_attempt_one-Ran :
      (deadline : Option ℕ) (address : List ℕ) (version : ℕ) (w : World)
      → Ran (λ r. Unit) (connect_attempt_one conn with_timeout c deadline address version w)
  unfolding connect_attempt_one
  connect_attempt_one-Ran deadline address version w =
      after_dial-Ran deadline address version
        (c.dial (with_timeout deadline c.dial_timeout w) address w)
