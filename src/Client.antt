-- ===== src/Client.antt =====
-- The requests of client/client.go. Each has messages of its own on the connection of the client.
use go_dqlite.Prelude.{if◌then◌else◌, ℕ, zero, suc, Bool, Option, List, [], ◌∷◌}
use go_dqlite.Prelude.Int.{to_uint64}
use go_dqlite.Node.{NodeInfo, NodeRole, voter, spare}
use go_dqlite.Message.State.{reset, Outcome, ok, panic, stuck, Action, Message}
use go_dqlite.Message.Rows.{File, next_file}
use go_dqlite.App.Roles.{NodeMetadata, role_eq, bytes_eq}
use go_dqlite.Protocol.Constants.{cluster_format_v1, request_describe_format_v0}
use go_dqlite.Protocol.Request
use go_dqlite.Protocol.Response.{
  Reply, decode_node, decode_nodes, decode_files, decode_empty, decode_metadata,
}
use go_dqlite.Protocol.Connection.{Connection}
use go_dqlite.Protocol.Session.{
  Io, ◌>>=◌, ◌>>◌, done, with_messages, encode_into, read_from, decode_from, do_call, do_close,
}
pub mod Answered
pub mod Served
pub mod Opening
pub mod Opened

-- The loop of Dump with `n` files left, which ends at an empty name.
unfoldable pub read_files : {Net Err : Type 0} → ℕ → Io Net Err (List File)
read_files zero = done []
read_files (suc n) = do
  (f, _) ← read_from (next_file (suc n))
  elim f.name [ [] ↦ done [] | _ ∷ _ ↦ (do fs ← read_files n; done (f ∷ fs)) ]

module _ {Net Err : Type 0} (conn : Connection Net Err) where
  -- A request that is answered by an empty response.
  unfoldable pub update : Option ℕ → Action (Unit {0}) → Io Net Err (Unit {0})
  unfolding with_messages
  update deadline put =
      with_messages 4096 4096 (do encode_into put; do_call conn deadline; decode_from decode_empty)

  -- Client.Leader. The role is not set.
  unfoldable pub leader : Option ℕ → Io Net Err NodeInfo
  unfolding with_messages
  leader deadline = with_messages 16 512 (do
    encode_into Request.encode_leader
    do_call conn deadline
    (id, address) ← decode_from decode_node
    done (record { id = id; address = address; role = voter }))

  -- Client.Cluster
  unfoldable pub cluster : Option ℕ → Io Net Err (List NodeInfo)
  unfolding with_messages
  cluster deadline = with_messages 16 512 (do
    encode_into (Request.encode_cluster cluster_format_v1)
    do_call conn deadline
    decode_from decode_nodes)

  -- Client.Dump
  unfoldable pub dump : Option ℕ → List ℕ → Io Net Err (List File)
  unfolding with_messages read_files
  dump deadline dbname = with_messages 16 512 (do
    encode_into (Request.encode_dump dbname)
    do_call conn deadline
    n ← decode_from decode_files
    dumped ← read_files n
    read_from reset
    done dumped)

  -- Client.Assign
  unfoldable pub assign : Option ℕ → ℕ → NodeRole → Io Net Err (Unit {0})
  unfolding update
  assign deadline id role = update deadline (Request.encode_assign id (to_uint64 role))

  -- Client.Add behind its first request.
  unfoldable pub after_add : Option ℕ → NodeInfo → Io Net Err (Unit {0})
  unfolding assign
  after_add deadline node =
      if role_eq node.role spare then done tt else assign deadline node.id node.role

  -- Client.Add
  unfoldable pub add : Option ℕ → NodeInfo → Io Net Err (Unit {0})
  unfolding update after_add
  add deadline node = do
    update deadline (Request.encode_add node.id node.address)
    after_add deadline node

  -- Client.Transfer
  unfoldable pub transfer : Option ℕ → ℕ → Io Net Err (Unit {0})
  unfolding update
  transfer deadline id = update deadline (Request.encode_transfer id)

  -- Client.Remove
  unfoldable pub remove : Option ℕ → ℕ → Io Net Err (Unit {0})
  unfolding update
  remove deadline id = update deadline (Request.encode_remove id)

  -- Client.Describe
  unfoldable pub describe : Option ℕ → Io Net Err NodeMetadata
  unfolding with_messages
  describe deadline = with_messages 4096 4096 (do
    encode_into (Request.encode_describe request_describe_format_v0)
    do_call conn deadline
    (domain, weight) ← decode_from decode_metadata
    done (record { failure_domain = domain; weight = weight }))

  -- Client.Weight
  unfoldable pub set_weight : Option ℕ → ℕ → Io Net Err (Unit {0})
  unfolding update
  set_weight deadline weight = update deadline (Request.encode_weight weight)

  -- Client.Close
  unfoldable pub close : Io Net Err (Option Err)
  unfolding do_close
  close = do_close conn
