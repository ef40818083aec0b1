-- ===== src/App/Roles/Shutdown.antt =====
-- Handover of app/roles.go, on every branch.
use go_dqlite.Prelude.{ℕ, ◌≡◌, ◌≢◌, refl, subst, ◌∙◌, ◌⊎◌, inl, inr}
use go_dqlite.Prelude.{
  Bool, true, false, List, All-mono, All-perm, All-member, Member, Member-perm, nil-perm, not, ◌&&◌,
  Option-cases,
}
use go_dqlite.Outcome.{ok}
use go_dqlite.Node.{NodeInfo, NodeRole, voter, stand_by}
use go_dqlite.App.Roles.{
  Cluster, RolesChanges, Change, no_change, role_eq, remove_id, get, list, offer, handover_from,
  handover,
}
use go_dqlite.App.Roles.Runtime.{IsRuntime, Candidate}
use go_dqlite.App.Roles.Members.{IsMap, IsListed, Has-perm, find_id-some, find_id-none}
use go_dqlite.App.Roles.Sorted.{HasMeta, list-All}
use go_dqlite.App.Roles.Preference.{IsSortedBy-IsRanked}
use go_dqlite.App.Roles.Peers.{remove_id_lem, list-Apart}
use go_dqlite.App.Roles.Handover.{
  role_eq_ne, role_eq_cases, offer_lem, IsNode, IsEligible, HandoverResult, absent, idle, alone,
  hands, handover_candidates, handover_candidates-All, handover_candidates-Member,
  IsEligible-HasMeta, list-Member,
}
use mathlib.Core.List.{Permᴰ}
use mathlib.Core.List.Permᴰ

module _ (order : ℕ → Cluster → Cluster)
    (sort : (Candidate → Candidate → Bool) → List Candidate → List Candidate) (c : RolesChanges)
    (rt : IsRuntime order sort) (distinct : IsMap c.state) where
  Holds : NodeRole → Type 0
  Holds role = (role ≡ voter) ⊎ (role ≡ stand_by)

  offered :
      (id : ℕ) (node : NodeInfo)
      → IsNode order sort c id node
      → Holds node.role
      → (ch : Change) × (offer order sort c node.role
            (handover_candidates order sort c node.role)
            (remove_id node.id (list order sort c 1 node.role true))
          ≡ ok ch)
        × HandoverResult order sort c id ch
  unfolding Holds
  offered id node n h =
      let cands = handover_candidates order sort c node.role in
      let peers = remove_id node.id (list order sort c 1 node.role true) in
      let held = list order sort c 1 node.role true in
      let (gone, rest) =
        remove_id_lem node held (list-Apart order sort c rt distinct 1 node.role true) in
      let all = handover_candidates-All order sort c rt distinct node.role in
      let (ch, e, r) = offer_lem order sort c rt distinct node.role cands peers (
        All-mono (IsEligible order sort c node.role) (HasMeta order sort c) cands
          (IsEligible-HasMeta order sort c rt distinct node.role) all) in
      (
        ch,
        e,
        elim r [
          | inl (empty, k) ↦
              alone node n h
                (λ other l.
                  subst (Member other) empty
                    (handover_candidates-Member order sort c rt distinct node.role other l))
                k
          | inr o ↦
              hands node gone n (rest.id_is ∙ n.2) h o.role_is
                (λ nil. o.some_candidate (nil-perm (subst (λ l. Permᴰ l cands) nil o.ranking.perm)))
                (All-perm (IsEligible order sort c node.role) (Permᴰ.symm o.ranking.perm) all)
                (λ other l.
                  Member-perm other (Permᴰ.symm o.ranking.perm)
                    (handover_candidates-Member order sort c rt distinct node.role other l))
                (IsSortedBy-IsRanked order sort c distinct
                  (λ x. IsListed c.state node.role true x × (x ≢ gone)) peers
                  (λ x m.
                    let (i, k) = rest.sound x m in
                    (
                      All-member (IsListed c.state node.role true) x held
                          (list-All order sort c rt distinct 1 node.role true) i,
                      k,
                    ))
                  (λ x (l, k).
                    rest.complete x (list-Member order sort c rt distinct 1 node.role true x l) k)
                  ch.candidates o.ranking.ranked)
        ],
      )

  is_idle : NodeRole → Bool
  is_idle role = not (role_eq role voter) && not (role_eq role stand_by)

  Holds-idle : (role : NodeRole) → Holds role → is_idle role ≡ false
  unfolding Holds is_idle
  Holds-idle role (inl e) = rw e
  Holds-idle role (inr e) = rw e

  handover_from-Holds :
      (node : NodeInfo)
      → Holds node.role
      → handover_from order sort c node
        ≡ offer order sort c node.role
            (handover_candidates order sort c node.role)
            (remove_id node.id (list order sort c 1 node.role true))
  unfolding handover_from is_idle
  handover_from-Holds node h = rw (Holds-idle node.role h)

  handover_from_idle :
      (node : NodeInfo)
      → node.role ≢ voter
      → node.role ≢ stand_by
      → handover_from order sort c node ≡ ok no_change
  unfolding handover_from
  handover_from_idle node nv ns =
      rw (role_eq_ne node.role voter nv, role_eq_ne node.role stand_by ns)

  pub handover_lem :
      (id : ℕ)
      → (ch : Change) × (handover order sort c id ≡ ok ch) × HandoverResult order sort c id ch
  unfolding handover get Holds
  handover_lem id = elim (Option-cases (get order sort c 0 id)) [
    | inl e ↦ (
      no_change,
      rw (e, handover),
      absent
          (λ node (m, h, i).
            find_id-none id (order 0 c.state) node m e
              (Has-perm node m (Permᴰ.symm (rt.order_perm 0 c.state)) h) i)
          refl,
    )
    | inr (node, e) ↦
        let (m, h, i) = find_id-some id (order 0 c.state) node e in
        let n : IsNode order sort c id node = (m, Has-perm node m (rt.order_perm 0 c.state) h, i) in
        elim (role_eq_cases node.role voter) [
          | inl v ↦
              let (ch, o, r) = offered id node n (inl v) in
              (ch, rw (e, handover) (handover_from-Holds node (inl v) ∙ o), r)
          | inr nv ↦ elim (role_eq_cases node.role stand_by) [
            | inl s ↦
                let (ch, o, r) = offered id node n (inr s) in
                (ch, rw (e, handover) (handover_from-Holds node (inr s) ∙ o), r)
            | inr ns ↦ (
              no_change,
              rw (e, handover) (handover_from_idle node nv ns),
              idle node n nv ns refl,
            )
          ]
        ]
  ]
