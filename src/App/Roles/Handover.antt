-- ===== src/App/Roles/Handover.antt =====
-- Handover of app/roles.go: who receives the role of a node that shuts down.
use go_dqlite.Prelude.{ℕ, ◌≡◌, ◌≢◌, refl, ap, subst, arith, ◌⊎◌, inl, inr}
use go_dqlite.Prelude.{Bool, true, false, Option, List, [], ◌∷◌, ◌++◌, length}
use go_dqlite.Prelude.{All, All-mono, All-append, Member, Member-append_left, Member-append_right}
use go_dqlite.Prelude.{Bool-cases, ==-ne, if◌then◌else◌}
use go_dqlite.Outcome.{ok}
use go_dqlite.Node.{NodeInfo, NodeRole, voter, stand_by, spare}
use go_dqlite.App.Roles.{
  NodeMetadata, Cluster, RolesChanges, Change, no_change, role_eq, list, failure_domains,
  sorted_change, offer,
}
use go_dqlite.App.Roles.Runtime.{IsRuntime, Candidate}
use go_dqlite.App.Roles.Members.{
  Has, IsMap, IsListed, Has-perm, select-Member, role_eq_refl, role_eq_sound,
}
use go_dqlite.App.Roles.Sorted.{IsRanking, list-All, online-HasMeta, sort_candidates_lem, HasMeta}
use go_dqlite.App.Roles.Preference.{IsRanked}
use mathlib.Core.List.Permᴰ

pub role_eq_ne : (a b : NodeRole) → a ≢ b → role_eq a b ≡ false
role_eq_ne a b n = elim (Bool-cases (role_eq a b)) [
  | inl same ↦ absurd (n (role_eq_sound a b same))
  | inr differ ↦ differ
]

pub role_eq_cases : (a b : NodeRole) → (a ≡ b) ⊎ (a ≢ b)
role_eq_cases a b = elim (Bool-cases (role_eq a b)) [
  | inl same ↦ inl (role_eq_sound a b same)
  | inr differ ↦ inr (λ e. cc (differ, role_eq_refl b, ap (λ x. role_eq x b) e))
]

module _ (order : ℕ → Cluster → Cluster)
    (sort : (Candidate → Candidate → Bool) → List Candidate → List Candidate)
    (c : RolesChanges) where
  -- An offer of a role to all of `nodes`, ranked against the failure domains of `holders`.
  pub record IsOffer (role : NodeRole) (nodes holders : List NodeInfo) (ch : Change) : Type 0 where
    pub role_is : ch.role ≡ role
    pub some_candidate : nodes ≢ []
    pub ranking : IsRanking order sort c (failure_domains order sort c holders) nodes ch.candidates

  module _ (rt : IsRuntime order sort) (distinct : IsMap c.state) where
    -- offer returns: nothing if there is no candidate, or all of them.
    pub offer_lem :
        (role : NodeRole) (nodes holders : List NodeInfo)
        → All (HasMeta order sort c) nodes
        → (ch : Change) × (offer order sort c role nodes holders ≡ ok ch)
          × ((nodes ≡ []) × (ch ≡ no_change) ⊎ IsOffer role nodes holders ch)
    unfolding offer sorted_change
    offer_lem role [] holders h = (no_change, refl, inl (refl, refl))
    offer_lem role (n ∷ nodes) holders h =
        let domains = failure_domains order sort c holders in
        let (sorted, e, r) = sort_candidates_lem order sort c rt distinct (n ∷ nodes) domains h in
        (
          record { role = role; candidates = sorted },
          rw (==-ne (length (n ∷ nodes)) 0 (omega arith), sorted_change, e),
          inr (record { role_is = refl; some_candidate = λ x. cc; ranking = r }),
        )

    pub list-HasMeta :
        (k : ℕ) (role : NodeRole) → All (HasMeta order sort c) (list order sort c k role true)
    list-HasMeta k role =
        All-mono (IsListed c.state role true) (HasMeta order sort c) _
          (online-HasMeta order sort c rt distinct role)
          (list-All order sort c rt distinct k role true)

    -- Every node with the role and the status is in the list.
    pub list-Member :
        (k : ℕ) (role : NodeRole) (online : Bool) (node : NodeInfo)
        → IsListed c.state role online node
        → Member node (list order sort c k role online)
    unfolding list
    list-Member k role online node l =
        select-Member role online (order k c.state) node l.metadata
          (Has-perm node l.metadata (Permᴰ.symm (rt.order_perm k c.state)) l.has) l.status l.role_is

  -- A node of the cluster with this ID.
  abbrev pub IsNode : ℕ → NodeInfo → Type 0
  IsNode id node = (m : Option NodeMetadata) × Has node m c.state × (node.id ≡ id)

  -- Who may receive a role: an online spare, and for the voter role an online stand-by too.
  abbrev pub IsEligible : NodeRole → NodeInfo → Type 0
  IsEligible role node =
      IsListed c.state spare true node ⊎ (role ≡ voter) × IsListed c.state stand_by true node

  -- The result of Handover for the node with the ID. What is avoided are the failure domains of the
  -- online nodes with the same role, but for one node with the ID.
  pub data HandoverResult (id : ℕ) (ch : Change) : Type 0 where
    absent : ((node : NodeInfo) → IsNode id node → ⊥) → ch ≡ no_change → HandoverResult id ch
    idle :
        (node : NodeInfo)
        → IsNode id node
        → node.role ≢ voter
        → node.role ≢ stand_by
        → ch ≡ no_change
        → HandoverResult id ch
    alone :
        (node : NodeInfo)
        → IsNode id node
        → (node.role ≡ voter) ⊎ (node.role ≡ stand_by)
        → ((other : NodeInfo) → IsEligible node.role other → ⊥)
        → ch ≡ no_change
        → HandoverResult id ch
    hands :
        (node gone : NodeInfo)
        → IsNode id node
        → gone.id ≡ id
        → (node.role ≡ voter) ⊎ (node.role ≡ stand_by)
        → ch.role ≡ node.role
        → ch.candidates ≢ []
        → All (IsEligible node.role) ch.candidates
        → ((other : NodeInfo) → IsEligible node.role other → Member other ch.candidates)
        → IsRanked c.state
            (λ peer. IsListed c.state node.role true peer × (peer ≢ gone))
            ch.candidates
        → HandoverResult id ch

  abbrev pub handover_candidates : NodeRole → List NodeInfo
  handover_candidates role =
      if role_eq role voter
      then list order sort c 3 stand_by true ++ list order sort c 2 spare true
      else list order sort c 2 spare true

  module _ (rt : IsRuntime order sort) (distinct : IsMap c.state) where
    pub handover_candidates-All :
        (role : NodeRole) → All (IsEligible role) (handover_candidates role)
    handover_candidates-All role =
        let spares : All (IsEligible role) (list order sort c 2 spare true) =
          All-mono (IsListed c.state spare true) (IsEligible role) _ (λ n l. inl l)
            (list-All order sort c rt distinct 2 spare true) in
        elim (role_eq_cases role voter) [
          | inl e ↦
              rw (e, role_eq_refl voter)
                (All-append (IsEligible voter) _ _
                  (All-mono (IsListed c.state stand_by true) (IsEligible voter) _
                    (λ n l. inr (refl, l)) (list-All order sort c rt distinct 3 stand_by true))
                  (subst (λ r. All (IsEligible r) (list order sort c 2 spare true)) e spares))
          | inr n ↦ rw (role_eq_ne role voter n) spares
        ]

    pub handover_candidates-Member :
        (role : NodeRole) (node : NodeInfo)
        → IsEligible role node
        → Member node (handover_candidates role)
    handover_candidates-Member role node (inl l) =
        let m = list-Member rt distinct 2 spare true node l in
        elim (Bool-cases (role_eq role voter)) [
          | inl e ↦ rw e (Member-append_right node (list order sort c 3 stand_by true) _ m)
          | inr e ↦ rw e m
        ]
    handover_candidates-Member role node (inr (r, l)) =
        rw (r, role_eq_refl voter)
          (Member-append_left node _ (list order sort c 2 spare true)
            (list-Member rt distinct 3 stand_by true node l))

    pub IsEligible-HasMeta :
        (role : NodeRole) (node : NodeInfo) → IsEligible role node → HasMeta order sort c node
    IsEligible-HasMeta role node (inl l) = online-HasMeta order sort c rt distinct spare node l
    IsEligible-HasMeta role node (inr (_, l)) =
        online-HasMeta order sort c rt distinct stand_by node l
