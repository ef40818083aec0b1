-- ===== src/Protocol/Progress.antt =====
-- Steps on a connection that end: they return or panic, on every connection.
use go_dqlite.Prelude.{ℕ, ◌^◌, ◌<◌, arith, inl, inr, Bool-cases, Option}
use go_dqlite.Prelude.{List, length}
use go_dqlite.Message.State.{ok, Action, reset}
use go_dqlite.Message.Ending.{Ran, returned, panicked, Ran-cases, IsReader}
use go_dqlite.Message.Writes.{IsReady}
use go_dqlite.Message.Header.{size}
use go_dqlite.Protocol.Schema.{Call, fields, encode}
use go_dqlite.Protocol.Encoding.{IsValid, encode_lem}
use go_dqlite.Protocol.Response.{Reply}
use go_dqlite.Protocol.Connection.{Connection, call, close}
use go_dqlite.Protocol.Total.{Ends, call-total}
use go_dqlite.Protocol.Total
use go_dqlite.Protocol.Session.{
  Try, Session, Io, return, raise, ◌>>=◌, attempt, encode_into, read_from, decode_from, do_call,
  do_close,
}

-- Messages that a call can be made with.
pub record IsWarm {Net Err : Type 0} (s : Session Net Err) : Type 0 where
  pub request : IsReady s.request
  pub response : 0 < length s.response.body.bytes

module _ {Net Err : Type 0} (conn : Connection Net Err) where
  -- A step that ends, and leaves messages that a call can be made with.
  unfoldable pub Runs : {A : Type 0} → Io Net Err A → Type 0
  Runs m = (s : Session Net Err) → IsWarm s → Ran (λ r. IsWarm (r.1)) (m s)

  pub bind-Runs :
      {A B : Type 0} (m : Io Net Err A) (f : A → Io Net Err B)
      → Runs m
      → ((a : A) → Runs (f a))
      → Runs (m >>= f)
  unfolding Runs
  bind-Runs m f h g s w = elim (Ran-cases (m s) (h s w)) [
    | returned (return a, t) e q ↦ rw (e, ◌>>=◌) (g a t q)
    | returned (raise x, t) e q ↦ rw (e, ◌>>=◌) q
    | panicked p e ↦ rw (e, ◌>>=◌) tt
  ]

  pub attempt-Runs : {A : Type 0} (m : Io Net Err A) → Runs m → Runs (attempt m)
  unfolding Runs
  attempt-Runs m h s w = elim (Ran-cases (m s) (h s w)) [
    | returned (r, t) e q ↦ rw (e, attempt) q
    | panicked p e ↦ rw (e, attempt) tt
  ]

  pub done-Runs : {A : Type 0} (r : Try Err A) → Runs (λ s. ok (r, s))
  unfolding Runs
  done-Runs r s w = w

  pub encode-Runs :
      {Time : Type 0} (format : Time → List ℕ) (c : Call Time)
      → IsValid c
      → size format 0 (fields c) < 2 ^ 32
      → Runs (encode_into (encode format c))
  unfolding Runs
  encode-Runs format c v small s w =
      let (t, e, d) = encode_lem format c s.request v w.request.positive w.request.aligned small in
      rw (e, encode_into) (record { request = d.ready; response = w.response })

  pub reset_request-Runs : Runs (encode_into reset)
  unfolding Runs reset
  reset_request-Runs s w = record {
    request = record {
      positive = w.request.positive;
      within = omega arith;
      aligned = w.request.aligned;
    };
    response = w.response;
  }

  pub reset_response-Runs : Runs (read_from reset)
  unfolding Runs reset
  reset_response-Runs s w = record { request = w.request; response = w.response }

  pub decode-Runs : {A : Type 0} (get : Action (Reply A)) → IsReader get → Runs (decode_from get)
  unfolding Runs IsReader
  decode-Runs get h s w = elim (Ran-cases (get s.response) (h s.response)) [
    | returned (r, m) e q ↦
        rw (e, decode_from) (record { request = w.request; response = rw q w.response })
    | panicked p e ↦ rw (e, decode_from) tt
  ]

  pub do_call-Runs : (deadline : Option ℕ) → Runs (do_call conn deadline)
  unfolding Runs do_call
  do_call-Runs deadline s w =
      called
        (call-total conn deadline s.request s.response s.protocol s.net w.request.within w.response)
    where
      called :
          Ends conn
            (λ r. 0 < length (r.1).body.bytes)
            (call conn deadline s.request s.response s.protocol s.net)
          → Ran (λ r. IsWarm (r.1)) (do_call conn deadline s)
      called (Total.returned (e, m, p, net) g q) =
          rw (g, do_call) (record { request = w.request; response = q })
      called (Total.panicked g neg) = rw (g, do_call) tt

  pub do_close-Runs : Runs (do_close conn)
  unfolding Runs do_close close
  do_close-Runs s w = elim (Bool-cases s.protocol.closed) [
    | inl e ↦ rw (e, do_close) tt
    | inr e ↦ rw (e, do_close) (record { request = w.request; response = w.response })
  ]
