-- ===== src/Examples/Connector.antt =====
-- internal/protocol/connector.go in a network where every server reports the same leader, and in one
-- where every dial is refused.
use go_dqlite.Prelude.{
  ℕ, suc, ◌*◌, ◌^◌, ◌≡◌, ◌≤◌, ◌<◌, refl, true, false, Option, none, some, List, [], ◌∷◌, ◌++◌,
}
use go_dqlite.Prelude.Int.{ℤ, pos}
use go_dqlite.Node.{NodeInfo, voter}
use go_dqlite.Message.State.{ok}
use go_dqlite.Message.Bytes.{le_bytes}
use go_dqlite.Message.Header.{wire_header}
use go_dqlite.Message.Text.{string_bytes}
use go_dqlite.Protocol.Connection.{Connection, with_deadline}
use go_dqlite.Message.Ending.{Ran}
use go_dqlite.Protocol.Keeping.{Holds}
use go_dqlite.Protocol.Session.{Try, return, raise, no_leader}
use go_dqlite.Connector.Config.{Config, Connector, new_connector, milliseconds}
use go_dqlite.Connector.Delay.{delay, new_connector-delay}
use go_dqlite.Connector.Attempt.{
  dialed, refused, Probe, DialFunc, Link, connect_attempt_one, try_servers, try_server, after_dial,
  after_first, after_probe,
}
use go_dqlite.Connector.Connect.{
  Strategy, Retry, State, connect_attempt_all, after_get, after_all, try_connect, connect,
}
use go_dqlite.Connector.Table.{IsNetwork}
use go_dqlite.Connector.Registration.{welcome, admission_bytes}
use go_dqlite.Connector.Served.{IsServed, connect_attempt_one_lem}
use go_dqlite.Examples.Teller.{Desk, type_of, telling, telling-IsServer, telling-IsCounted}
use go_dqlite.Prelude.{arith, ◌==◌, if◌then◌else◌}
use go_dqlite.Message.Bytes.{padding}
use go_dqlite.Connector.Search.{IsRetry, IsFound, connect_attempt_all_lem, connect_lem}
use go_dqlite.Connector.Leaks.{IsTried}
use go_dqlite.Client.Opening.{choose_dial, with_dial, new_client}
use go_dqlite.Client.Opened.{new_client_lem}
use go_dqlite.Driver.Open.{Options, default_options, open_conn}
use go_dqlite.Driver.Opened.{IsConn, open_conn_lem}
use go_dqlite.Examples.Server.{Net, answering, answering-IsCounted}

abbrev node_reply : List ℕ
node_reply = wire_header 2 1 0 ++ (le_bytes 8 7 ++ string_bytes (b'b' ∷ b':' ∷ b'1' ∷ []))

abbrev connection : ℕ → Connection Net ℕ
connection h = answering node_reply

abbrev accept : DialFunc Net ℕ ℕ
accept deadline address net = (dialed 0, record net { opened = suc net.opened })

abbrev refuse : DialFunc Net ℕ ℕ
refuse deadline address net = (refused 111, net)

abbrev config : DialFunc Net ℕ ℕ → Config (DialFunc Net ℕ ℕ)
config dial = record {
  dial = some dial;
  dial_timeout = pos 0;
  attempt_timeout = pos 0;
  backoff_factor = pos 0;
  backoff_cap = pos 0;
  retry_limit = 0;
}

abbrev connector : DialFunc Net ℕ ℕ → Connector (DialFunc Net ℕ ℕ)
connector dial = record {
  id = 1;
  dial = dial;
  dial_timeout = milliseconds 5000;
  attempt_timeout = milliseconds 15000;
  backoff_factor = milliseconds 100;
  backoff_cap = milliseconds 1000;
  retry_limit = 0;
}

abbrev no_timeout : Option ℕ → ℤ → Net → Option ℕ
no_timeout deadline duration net = deadline

abbrev opened : Net → ℕ
opened net = net.opened

accept-IsNetwork : IsNetwork connection accept (λ net. net.opened)
accept-IsNetwork = record {
  counted = λ h. answering-IsCounted node_reply;
  dials = λ deadline address w. refl;
}

refuse-IsNetwork : IsNetwork connection refuse (λ net. net.opened)
refuse-IsNetwork = record {
  counted = λ h. answering-IsCounted node_reply;
  dials = λ deadline address w. refl;
}

abbrev start : Net
start = record { opened = 0; waiting = [] }

new_connector-delay_example :
    (n : ℕ) × (delay (new_connector accept 1 (config accept)).backoff_cap (pos (5 * 10 ^ 9))
      ≡ pos n)
    × (0 < n)
    × (n ≤ 1000 * 1000000)
    × ((k : ℕ) → pos (5 * 10 ^ 9) ≡ pos k → 0 < k → k ≤ 1000 * 1000000 → n ≡ k)
new_connector-delay_example = new_connector-delay accept 1 (config accept) 0 (pos (5 * 10 ^ 9)) refl

-- A server that leads, at this address, and welcomes a client.
abbrev home : List ℕ
home = b'b' ∷ b':' ∷ b'1' ∷ []

abbrev leading : ℕ → List ℕ
leading t =
    if t == 0
    then wire_header 2 1 0 ++ (le_bytes 8 7 ++ string_bytes home)
    else if t == 1
    then admission_bytes (welcome 15000)
    else []

abbrev sit_down : DialFunc Desk ℕ ℕ
sit_down deadline _ net =
    (dialed 0, record net { opened = suc net.opened; waiting = []; last = [] })

abbrev at_desk : Connector (DialFunc Desk ℕ ℕ)
at_desk = record {
  id = 1;
  dial = sit_down;
  dial_timeout = milliseconds 5000;
  attempt_timeout = milliseconds 15000;
  backoff_factor = milliseconds 100;
  backoff_cap = milliseconds 1000;
  retry_limit = 0;
}

sit_down-IsNetwork : IsNetwork (λ h. telling leading) sit_down (λ net. net.opened)
sit_down-IsNetwork = record {
  counted = λ h. telling-IsCounted leading;
  dials = λ deadline at w. refl;
}

abbrev empty_desk : Desk
empty_desk = record { opened = 0; waiting = []; last = [] }

abbrev no_limit : Option ℕ → ℤ → Desk → Option ℕ
no_limit deadline duration net = deadline

connect_attempt_one_lem_example :
    (p : Probe ℕ ℕ) × (w' : Desk) × (connect_attempt_one
        (λ h. telling leading)
        no_limit
        at_desk
        none
        home
        1
        empty_desk
      ≡ ok (p, w'))
    × IsServed 0 home home (welcome 15000) p
    × (w'.opened ≡ (elim p.link [ none ↦ 0 | some _ ↦ 1 ]))
unfolding string_bytes padding le_bytes with_deadline
connect_attempt_one_lem_example =
    connect_attempt_one_lem (λ h. telling leading) no_limit at_desk (λ net. net.opened)
      sit_down-IsNetwork (λ net. net.waiting) (λ header body. leading (type_of header)) none home
      home 7 2 (welcome 15000) 0 empty_desk (record { opened = 1; waiting = []; last = [] })
      (record { opened = 1; waiting = []; last = le_bytes 8 1 }) (telling-IsServer leading)
      (omega arith) (omega arith, (omega arith, (omega arith, tt))) (omega arith) refl (omega arith)
      refl refl refl (λ t d. rw (d.header) refl) (λ t d. rw (d.header) refl)

abbrev servers : Net → Try ℕ (List NodeInfo) × Net
servers net = (return (record { id = 1; address = b'a' ∷ []; role = voter } ∷ []), net)

connect_attempt_all_lem_example :
    Ran
      (λ r. elim (r.0) [
        | return l ↦ ((r.1).opened ≡ 1) × ((l.1).closed ≡ false)
        | raise e ↦ (r.1).opened ≡ 0
      ])
      (connect_attempt_all connection no_timeout
        (λ less ns. ns)
        servers
        (connector accept)
        none
        start)
connect_attempt_all_lem_example =
    connect_attempt_all_lem connection no_timeout (λ less ns. ns) servers (connector accept)
      (λ net. net.opened) accept-IsNetwork (λ w. refl) none start

-- A retry package that makes one attempt.
abbrev once : Retry ℕ (State Net ℕ ℕ)
once action strategies s = action 0 s

abbrev unlimited : ℕ → Strategy (State Net ℕ ℕ)
unlimited n i s = (true, s)

once-IsRetry : IsRetry once unlimited
once-IsRetry = record {
  runs = λ P Q action strategies s acts waits p. acts 0 s p;
  limits = λ n i s. refl;
  starts = λ n s h. refl;
}

connect_lem_example :
    (x : Try ℕ (Link ℕ ℕ) × Net) × (connect connection no_timeout
        (λ less ns. ns)
        servers
        (connector refuse)
        (λ w. false)
        once
        (λ d i. d)
        unlimited
        (λ d w. w)
        none
        start
      ≡ ok x)
    × IsFound (λ net. net.opened) (λ w. false) 0 x
unfolding try_connect after_all connect_attempt_all after_get try_servers try_server
    connect_attempt_one after_dial after_first after_probe
connect_lem_example =
    connect_lem connection no_timeout (λ less ns. ns) servers (connector refuse) (λ net. net.opened)
      refuse-IsNetwork (λ w. refl) (λ w. false) (λ d w. w) (λ d w. refl) once unlimited once-IsRetry
      (λ d i. d) none start (some no_leader, (none, start)) refl

abbrev options : Options (DialFunc Net ℕ ℕ)
options = default_options accept

open_conn_lem_example : Holds (IsConn (λ net. net.opened) (λ w. false) 0) (
    open_conn connection no_timeout
      (λ less ns. ns)
      servers
      refuse
      (λ d w. false)
      once
      (λ d i. d)
      unlimited
      (λ d w. w)
      options
      none
      (b'd' ∷ [])
      start)
open_conn_lem_example =
    open_conn_lem connection no_timeout (λ less ns. ns) servers refuse (λ d w. false) once
      (λ d i. d) unlimited (λ d w. w) options (λ net. net.opened) accept-IsNetwork (λ w. refl)
      (λ d w. refl) once-IsRetry none (b'd' ∷ []) start

choose-IsNetwork :
    IsNetwork connection (choose_dial (with_dial accept ∷ []) refuse) (λ net. net.opened)
unfolding choose_dial
choose-IsNetwork = record {
  counted = λ h. answering-IsCounted node_reply;
  dials = λ deadline address w. refl;
}

new_client_lem_example :
    IsTried
      (λ net. net.opened)
      0
      (new_client connection refuse (with_dial accept ∷ []) none (b'a' ∷ []) start)
new_client_lem_example =
    new_client_lem connection refuse (with_dial accept ∷ []) (λ net. net.opened) choose-IsNetwork
      none (b'a' ∷ []) start
