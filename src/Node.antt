-- ===== src/Node.antt =====
-- Nodes and their roles: NodeInfo and NodeRole of internal/protocol/store.go, the roles of
-- internal/protocol/constants.go, re-exported by client/constants.go.
use go_dqlite.Prelude.{ℕ, List}
use go_dqlite.Prelude.Int.{ℤ, pos}

-- A role is a Go int.
abbrev pub NodeRole : Type 0
NodeRole = ℤ

abbrev pub voter : NodeRole
voter = pos 0

abbrev pub stand_by : NodeRole
stand_by = pos 1

abbrev pub spare : NodeRole
spare = pos 2

pub record NodeInfo : Type 0 where
  pub id : ℕ
  pub address : List ℕ
  pub role : NodeRole
