-- ===== src/App/Roles/Assumption.antt =====
-- Assume of app/roles.go: which role a node takes when it starts.
use go_dqlite.Prelude.{ℕ, ◌≡◌, ◌≢◌, ◌≤◌, ◌<◌, refl, arith, ◌⊎◌, inl, inr, List, Bool, true, length}
use go_dqlite.Prelude.{leb, ltb, Bool-cases, Option-cases, lt→leb, le→leb}
use go_dqlite.Node.{NodeInfo, NodeRole, voter, stand_by}
use go_dqlite.App.Roles.{Cluster, RolesChanges, no_role, size, get, assume_role, assume}
use go_dqlite.App.Roles.Runtime.{IsRuntime, Candidate}
use go_dqlite.App.Roles.Members.{Has-perm, find_id-some, find_id-none}
use go_dqlite.App.Roles.Handover.{IsNode, role_eq_ne, role_eq_cases}
use go_dqlite.App.Roles.Count.{count, length-list}
use mathlib.Core.List.Permᴰ

module _ (order : ℕ → Cluster → Cluster)
    (sort : (Candidate → Candidate → Bool) → List Candidate → List Candidate)
    (c : RolesChanges) where
  -- Why Assume by a node of this ID returns -1, and what is missing where it returns a role.
  pub data AssumeResult (id : ℕ) (role : NodeRole) : Type 0 where
    too_small : length c.state < 3 → role ≡ no_role → AssumeResult id role
    absent :
        3 ≤ length c.state
        → ((node : NodeInfo) → IsNode order sort c id node → ⊥)
        → role ≡ no_role
        → AssumeResult id role
    has_role :
        3 ≤ length c.state
        → (node : NodeInfo) → IsNode order sort c id node
        → (node.role ≡ voter) ⊎ (node.role ≡ stand_by)
        → role ≡ no_role
        → AssumeResult id role
    enough :
        3 ≤ length c.state
        → c.config.voters ≤ count c voter true
        → c.config.stand_bys ≤ count c stand_by true
        → role ≡ no_role
        → AssumeResult id role
    lacks_voter :
        3 ≤ length c.state
        → (node : NodeInfo) → IsNode order sort c id node
        → (node.role ≢ voter) × (node.role ≢ stand_by)
        → count c voter true < c.config.voters
        → role ≡ voter
        → AssumeResult id role
    lacks_stand_by :
        3 ≤ length c.state
        → (node : NodeInfo) → IsNode order sort c id node
        → (node.role ≢ voter) × (node.role ≢ stand_by)
        → c.config.voters ≤ count c voter true
        → count c stand_by true < c.config.stand_bys
        → role ≡ stand_by
        → AssumeResult id role

  module _ (rt : IsRuntime order sort) where
    assume_role_lem :
        (id : ℕ) (node : NodeInfo)
        → 3 ≤ length c.state
        → IsNode order sort c id node
        → (node.role ≢ voter) × (node.role ≢ stand_by)
        → AssumeResult id (assume_role order sort c)
    unfolding assume_role
    assume_role_lem id node large n idle =
        let v = length-list order sort c rt 1 voter true in
        let s = length-list order sort c rt 2 stand_by true in
        elim (Bool-cases (ltb (count c voter true) c.config.voters)) [
          | inl few ↦
              lacks_voter large node n idle (ground arith)
                (rw (v, s, lt→leb c.config.voters (count c voter true) (ground arith), few) refl)
          | inr full ↦ elim (Bool-cases (leb c.config.stand_bys (count c stand_by true))) [
            | inl e ↦
                enough large (ground arith) (ground arith)
                  (rw (v, s, le→leb c.config.voters (count c voter true) (ground arith), e) refl)
            | inr e ↦ lacks_stand_by large node n idle (ground arith) (ground arith) (
                rw (v, s, le→leb c.config.voters (count c voter true) (ground arith), e, full) refl)
          ]
        ]

    pub assume_lem : (id : ℕ) → AssumeResult id (assume order sort c id)
    unfolding assume get size
    assume_lem id = elim (Bool-cases (ltb (size order sort c) 3)) [
      | inl few ↦ too_small (ground arith) (rw few refl)
      | inr large ↦
          let three : 3 ≤ length c.state = ground (arith, large) in
          elim (Option-cases (get order sort c 0 id)) [
            | inl e ↦
                absent three
                  (λ node (m, h, i).
                    find_id-none id (order 0 c.state) node m e
                      (Has-perm node m (Permᴰ.symm (rt.order_perm 0 c.state)) h) i)
                  (rw (large, e) refl)
            | inr (node, e) ↦
                let (m, h, i) = find_id-some id (order 0 c.state) node e in
                let n : IsNode order sort c id node =
                  (m, Has-perm node m (rt.order_perm 0 c.state) h, i) in
                elim (role_eq_cases node.role voter) [
                  | inl v ↦ has_role three node n (inl v) (rw (large, e, v) refl)
                  | inr nv ↦ elim (role_eq_cases node.role stand_by) [
                    | inl s ↦ has_role three node n (inr s) (rw (large, e, s) refl)
                    | inr ns ↦
                        rw
                          (
                            large,
                            e,
                            role_eq_ne node.role voter nv,
                            role_eq_ne node.role stand_by ns,
                          )
                          (assume_role_lem id node three n (nv, ns))
                  ]
                ]
          ]
    ]
