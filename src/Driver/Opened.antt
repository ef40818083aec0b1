-- ===== src/Driver/Opened.antt =====
-- The connections that Connector.Connect of driver/driver.go leaves open.
use go_dqlite.Prelude.{ℕ, suc, ◌≡◌, ◌⊎◌, refl, inl, Bool, true, false, Option, List, [], ◌∷◌}
use go_dqlite.Prelude.Int.{ℤ}
use go_dqlite.Node.{NodeInfo}
use go_dqlite.Message.State.{Outcome, ok, panic, stuck, init}
use go_dqlite.Protocol.Request
use go_dqlite.Protocol.Response.{decode_db}
use go_dqlite.Protocol.Connection.{Connection}
use go_dqlite.Protocol.Keeping.{IsCounted, Holds, returned, panicked, never, Holds-cases}
use go_dqlite.Protocol.Session.{
  Try, Session, return, raise, decode_from, do_call, blank, with_messages,
}
use go_dqlite.Connector.Config.{new_connector}
use go_dqlite.Connector.Attempt.{DialFunc, Link}
use go_dqlite.Connector.Connect.{State, Strategy, Retry}
use go_dqlite.Connector.Ends.{
  IsOpen, IsEnd, Ends, encode-Ends, read-Ends, or_close-Ends, do_call-Stays, decode_from-Stays,
}
use go_dqlite.Connector.Table.{IsNetwork}
use go_dqlite.Connector.Search.{IsRetry, IsFound, connect-Holds}
use go_dqlite.Driver.Conn.{Conn}
use go_dqlite.Driver.Open.{
  Options, client_config, open_database, connect_deadline, after_search, open_conn,
}

module _ {Net Err : Type 0} (conn : Connection Net Err) (count : Net → ℕ)
    (k : IsCounted conn count) where
  abbrev Opened : ℕ → ℕ → Session Net Err → Type 0
  Opened n id t = IsOpen conn count k n t

  opening :
      (deadline : Option ℕ) (uri : List ℕ) (n : ℕ) (s : Session Net Err)
      → IsOpen conn count k n s
      → Holds (IsEnd conn count k Opened n) (open_database conn deadline uri s)
  unfolding open_database with_messages Ends
  opening deadline uri =
      encode-Ends conn count k Opened (λ _. init 4096 blank) _
        (read-Ends conn count k Opened (λ _. init 4096 blank) _
          (encode-Ends conn count k Opened
            (Request.encode_open uri 0 (b'v' ∷ b'o' ∷ b'l' ∷ b'a' ∷ b't' ∷ b'i' ∷ b'l' ∷ b'e' ∷ []))
            _
            (or_close-Ends conn count k Opened (λ e. e) (do_call conn deadline) _
              (do_call-Stays conn count k deadline)
              (λ _.
                or_close-Ends conn count k Opened (λ e. e) (decode_from decode_db) _
                  (decode_from-Stays conn count k decode_db) (λ id n s o. o)))))

-- A Conn whose session has the only connection that is more than `n`, and is not closed; or an error,
-- where no connection stays open unless the context is done.
abbrev pub IsConn :
    {World Handle Err : Type 0}
    → (World → ℕ)
    → (World → Bool)
    → ℕ
    → Try Err (Handle × Conn × Session World Err) × World
    → Type 0
IsConn count is_done n (return (h, c, s), w) =
    (count w ≡ suc n) × (s.protocol.closed ≡ false) × (s.net ≡ w)
IsConn count is_done n (raise e, w) = (count w ≡ n) ⊎ ((count w ≡ suc n) × (is_done w ≡ true))

module _ {World Handle Err : Type 0} (conn : Handle → Connection World Err)
    (o : Options (DialFunc World Handle Err)) (count : World → ℕ)
    (network : IsNetwork conn o.dial count) (is_done : World → Bool) where
  after_search_lem :
      (deadline : Option ℕ) (uri : List ℕ) (n : ℕ) (r : Outcome (Try Err (Link Handle Err) × World))
      → Holds (IsFound count is_done n) r
      → Holds (IsConn count is_done n) (after_search conn o deadline uri r)
  unfolding after_search
  after_search_lem deadline uri n (ok (raise e, w)) (_, q) = q
  after_search_lem deadline uri n (ok (return (h, p), w)) (q, c, d) =
      let s : Session World Err = record {
        protocol = p;
        request = blank;
        response = blank;
        net = w;
      } in
      elim (Holds-cases (open_database (conn h) deadline uri s)
        (opening (conn h) count (network.counted h) deadline uri n s (q, c))) [
          | returned (return id, t) g (q', c') ↦ rw (g, after_search) (q', c', refl)
          | returned (raise e, t) g q' ↦ rw (g, after_search) (inl q')
          | panicked x g ↦ rw (g, after_search) tt
          | never g ↦ rw (g, after_search) tt
        ]
  after_search_lem deadline uri n (panic p) q = tt
  after_search_lem deadline uri n stuck q = tt

module _ {World Handle Err : Type 0} (conn : Handle → Connection World Err)
    (with_timeout : Option ℕ → ℤ → World → Option ℕ)
    (sort : (NodeInfo → NodeInfo → Bool) → List NodeInfo → List NodeInfo)
    (get : World → Try Err (List NodeInfo) × World) (default_dial : DialFunc World Handle Err)
    (is_done : Option ℕ → World → Bool) (retry : Retry Err (State World Handle Err))
    (binary_exponential : ℤ → ℕ → ℤ) (limit : ℕ → Strategy (State World Handle Err))
    (sleep : ℤ → World → World) (o : Options (DialFunc World Handle Err)) (count : World → ℕ)
    (network : IsNetwork conn o.dial count) (stores : (w : World) → count (get w).1 ≡ count w)
    (sleeps : (d : ℤ) (w : World) → count (sleep d w) ≡ count w)
    (retries : IsRetry retry limit) where
  -- In a network that counts the dials that have succeeded less the closes, which the node store and the
  -- sleeps do not change, and with a retry package that ends behind a success, and whose limits of more
  -- than one let the first attempt pass: where Connector.Connect of the driver returns a Conn, one connection more than before is open, and
  -- its protocol is not closed. Where it returns an error, no connection more is open, also if the
  -- leader was found and the database could not be opened, unless the context is done.
  pub open_conn_lem :
      (deadline : Option ℕ) (uri : List ℕ) (w : World)
      → Holds (IsConn count (is_done (connect_deadline with_timeout o deadline w)) (count w)) (
          open_conn conn with_timeout sort get default_dial is_done retry binary_exponential limit
            sleep o deadline uri w)
  unfolding open_conn client_config new_connector
  open_conn_lem deadline uri w =
      let d = connect_deadline with_timeout o deadline w in
      after_search_lem conn o count network (is_done d) d uri (count w) _ (
        connect-Holds conn with_timeout sort get (new_connector default_dial 0 (client_config o))
          count network stores (is_done d) sleep sleeps retry limit retries binary_exponential d w)
