-- ===== src/App/Roles/Adjustment.antt =====
-- Adjust of app/roles.go: which changes it may ask for.
use go_dqlite.Prelude.{ℕ, ◌<◌, ◌≤◌, ◌≡◌, ◌≢◌, refl, ap, sym, ◌∙◌, subst, arith, ◌⊎◌, inl, inr}
use go_dqlite.Prelude.{Bool, true, false, Option, List, [], ◌∷◌, ◌++◌, length}
use go_dqlite.Prelude.{
  All, All-mono, All-perm, All-append, Member, Member-perm, Member-append_left, Member-append_right,
  Bool-cases, ◌==◌, ==-ne, nil-perm, All-member,
}
use go_dqlite.Outcome.{ok}
use go_dqlite.Node.{NodeInfo, NodeRole, voter, stand_by, spare}
use go_dqlite.App.Roles.{
  NodeMetadata, Cluster, RolesChanges, Change, no_change, list, without_leader, offer,
}
use go_dqlite.App.Roles.Runtime.{IsRuntime, Candidate}
use go_dqlite.App.Roles.Members.{Has, IsMap, IsListed}
use go_dqlite.App.Roles.Sorted.{HasMeta, list-All}
use go_dqlite.App.Roles.Preference.{IsRanked, IsSortedBy-IsRanked}
use go_dqlite.App.Roles.Handover.{IsOffer, offer_lem, list-HasMeta, list-Member}
use go_dqlite.App.Roles.Count.{count, length-list}
use mathlib.Core.List.{Permᴰ}
use mathlib.Core.List.Permᴰ

module _ (order : ℕ → Cluster → Cluster)
    (sort : (Candidate → Candidate → Bool) → List Candidate → List Candidate)
    (c : RolesChanges) where
  abbrev pub Online : NodeRole → NodeInfo → Type 0
  Online role node = IsListed c.state role true node

  -- A voter that is not the leader.
  abbrev pub IsExtra : ℕ → NodeInfo → Type 0
  IsExtra leader node =
      (m : Option NodeMetadata) × Has node m c.state × (node.role ≡ voter) × (node.id ≢ leader)

  -- As many voters are online as desired, and none is offline.
  abbrev pub AreVotersDesired : Type 0
  AreVotersDesired = (count c voter true ≡ c.config.voters) × (count c voter false ≡ 0)

  -- The cases in which nothing is to be done, or can be.
  pub data IsSettled (leader : ℕ) : Type 0 where
    single : length c.state ≡ 1 → IsSettled leader
    small :
        length c.state < 3
        → length c.state ≢ 1
        → ((node : NodeInfo) → IsExtra leader node → ⊥)
        → IsSettled leader
    as_desired :
        3 ≤ length c.state
        → count c voter true ≡ c.config.voters
        → count c voter false ≡ 0
        → count c stand_by true ≡ c.config.stand_bys
        → count c stand_by false ≡ 0
        → IsSettled leader
    no_voter :
        3 ≤ length c.state
        → count c voter true < c.config.voters
        → ((node : NodeInfo) → Online stand_by node ⊎ Online spare node → ⊥)
        → IsSettled leader
    no_stand_by :
        3 ≤ length c.state
        → AreVotersDesired
        → count c stand_by true < c.config.stand_bys
        → ((node : NodeInfo) → Online spare node → ⊥)
        → IsSettled leader

  -- The candidates are the nodes that satisfy `P`, those in no failure domain of the online nodes that
  -- satisfy `H` first, and light ones before heavy ones.
  pub record Ranks (P H : NodeInfo → Type 0) (candidates : List NodeInfo) : Type 0 where
    pub some_candidate : candidates ≢ []
    pub sound : All P candidates
    pub complete : (node : NodeInfo) → P node → Member node candidates
    pub ranked : IsRanked c.state H candidates

  -- The nodes that satisfy `P` are to become spares.
  pub record Demotes (P : NodeInfo → Type 0) (ch : Change) : Type 0 where
    pub role_is : ch.role ≡ spare
    pub sound : All P ch.candidates
    pub complete : (node : NodeInfo) → P node → Member node ch.candidates

  -- The result of Adjust by this leader.
  pub data AdjustResult (leader : ℕ) (ch : Change) : Type 0 where
    keeps : IsSettled leader → ch ≡ no_change → AdjustResult leader ch
    promotes_voter :
        3 ≤ length c.state
        → count c voter true < c.config.voters
        → ch.role ≡ voter
        → Ranks (λ node. Online stand_by node ⊎ Online spare node) (Online voter) ch.candidates
        → AdjustResult leader ch
    promotes_stand_by :
        3 ≤ length c.state
        → AreVotersDesired
        → count c stand_by true < c.config.stand_bys
        → ch.role ≡ stand_by
        → Ranks (Online spare) (Online stand_by) ch.candidates
        → AdjustResult leader ch
    excess_voters :
        3 ≤ length c.state
        → c.config.voters < count c voter true
        → Demotes (λ node. Online voter node × (node.id ≢ leader)) ch
        → AdjustResult leader ch
    offline_voters :
        3 ≤ length c.state
        → count c voter true ≡ c.config.voters
        → ch.candidates ≢ []
        → Demotes (IsListed c.state voter false) ch
        → AdjustResult leader ch
    excess_stand_bys :
        3 ≤ length c.state
        → AreVotersDesired
        → c.config.stand_bys < count c stand_by true
        → Demotes (λ node. Online stand_by node × (node.id ≢ leader)) ch
        → AdjustResult leader ch
    offline_stand_bys :
        3 ≤ length c.state
        → AreVotersDesired
        → count c stand_by true ≡ c.config.stand_bys
        → ch.candidates ≢ []
        → Demotes (IsListed c.state stand_by false) ch
        → AdjustResult leader ch
    demotes_extra :
        (node : NodeInfo)
        → length c.state < 3
        → length c.state ≢ 1
        → IsExtra leader node
        → ch.role ≡ spare
        → ch.candidates ≡ node ∷ []
        → AdjustResult leader ch

  without_leader-All :
      (leader : ℕ) (P : NodeInfo → Type 0) (nodes : List NodeInfo)
      → All P nodes
      → All (λ node. P node × (node.id ≢ leader)) (without_leader leader nodes)
  unfolding without_leader
  without_leader-All leader P [] h = tt
  without_leader-All leader P (n ∷ nodes) (h, hs) = elim (Bool-cases (n.id == leader)) [
    | inl same ↦ rw same (without_leader-All leader P nodes hs)
    | inr differ ↦
        rw differ ((h, λ e. ground (arith, differ, e)), without_leader-All leader P nodes hs)
  ]

  without_leader-Member :
      (leader : ℕ) (node : NodeInfo) (nodes : List NodeInfo)
      → node.id ≢ leader
      → Member node nodes
      → Member node (without_leader leader nodes)
  unfolding without_leader
  without_leader-Member leader node [] n h = h
  without_leader-Member leader node (x ∷ nodes) n (inl e) =
      rw (==-ne x.id leader (λ i. n (ap (λ z. z.id) (sym e) ∙ i))) (inl e)
  without_leader-Member leader node (x ∷ nodes) n (inr h) =
      let later = without_leader-Member leader node nodes n h in
      elim (Bool-cases (x.id == leader)) [
        | inl same ↦ rw same later
        | inr differ ↦ rw differ (inr later)
      ]

  module _ (rt : IsRuntime order sort) (distinct : IsMap c.state) where
    pub len :
        (k : ℕ) (role : NodeRole) (online : Bool)
        → length (list order sort c k role online) ≡ count c role online
    len = length-list order sort c rt

    pub from_list : (k : ℕ) (role : NodeRole) → All (Online role) (list order sort c k role true)
    from_list k role = list-All order sort c rt distinct k role true

    -- The demotion of the online nodes with a role.
    pub without_leader_lem :
        (k leader : ℕ) (role : NodeRole)
        → Demotes
            (λ node. Online role node × (node.id ≢ leader))
            (record {
              role = spare;
              candidates = without_leader leader (list order sort c k role true);
            })
    without_leader_lem k leader role = record {
      role_is = refl;
      sound =
          without_leader-All leader (Online role) (list order sort c k role true)
            (from_list k role);
      complete = λ node (l, n).
          without_leader-Member leader node (list order sort c k role true) n
            (list-Member order sort c rt distinct k role true node l);
    }

    -- The demotion of the offline nodes with a role.
    pub offline_lem :
        (k : ℕ) (role : NodeRole)
        → Demotes
            (IsListed c.state role false)
            (record { role = spare; candidates = list order sort c k role false })
    offline_lem k role = record {
      role_is = refl;
      sound = list-All order sort c rt distinct k role false;
      complete = list-Member order sort c rt distinct k role false;
    }

    -- An offer as a ranking of the eligible nodes, away from the online nodes with a role.
    Ranks-offer :
        (P : NodeInfo → Type 0) (role held : NodeRole) (j : ℕ) (nodes : List NodeInfo) (ch : Change)
        → All P nodes
        → ((node : NodeInfo) → P node → Member node nodes)
        → IsOffer order sort c role nodes (list order sort c j held true) ch
        → Ranks P (Online held) ch.candidates
    Ranks-offer P role held j nodes ch all complete o =
        let holders = list order sort c j held true in
        record {
          some_candidate =
              λ nil. o.some_candidate (nil-perm (subst (λ l. Permᴰ l nodes) nil o.ranking.perm));
          sound = All-perm P (Permᴰ.symm o.ranking.perm) all;
          complete = λ node h. Member-perm node (Permᴰ.symm o.ranking.perm) (complete node h);
          ranked =
              IsSortedBy-IsRanked order sort c distinct (Online held) holders
                (λ node. All-member (Online held) node holders (from_list j held))
                (list-Member order sort c rt distinct j held true) ch.candidates o.ranking.ranked;
        }

    -- The offer of a role to the online spares.
    pub offer_spares :
        (k j : ℕ) (role held : NodeRole)
        → (ch : Change) × (offer order sort c role
              (list order sort c k spare true)
              (list order sort c j held true)
            ≡ ok ch)
          × (((node : NodeInfo) → Online spare node → ⊥) × (ch ≡ no_change)
              ⊎ (ch.role ≡ role) × Ranks (Online spare) (Online held) ch.candidates)
    offer_spares k j role held =
        let holders = list order sort c j held true in
        let nodes = list order sort c k spare true in
        let (ch, e, r) =
          offer_lem order sort c rt distinct role nodes holders
            (list-HasMeta order sort c rt distinct k spare) in
        (
          ch,
          e,
          elim r [
            | inl (nil, same) ↦ inl (
              λ node l.
                  subst (Member node) nil
                    (list-Member order sort c rt distinct k spare true node l),
              same,
            )
            | inr o ↦ inr (
              o.role_is,
              Ranks-offer (Online spare) role held j nodes ch (from_list k spare)
                  (list-Member order sort c rt distinct k spare true) o,
            )
          ],
        )

    -- The offer of the voter role to the online stand-bys and spares.
    pub offer-voter :
        (j k i : ℕ)
        → (ch : Change) × (offer order sort c voter
              (list order sort c j stand_by true ++ list order sort c k spare true)
              (list order sort c i voter true)
            ≡ ok ch)
          × (((node : NodeInfo) → Online stand_by node ⊎ Online spare node → ⊥) × (ch ≡ no_change)
              ⊎ (ch.role ≡ voter)
                × Ranks
                    (λ node. Online stand_by node ⊎ Online spare node)
                    (Online voter)
                    ch.candidates)
    offer-voter j k i =
        let holders = list order sort c i voter true in
        let P = λ (node : NodeInfo). Online stand_by node ⊎ Online spare node in
        let xs = list order sort c j stand_by true in
        let ys = list order sort c k spare true in
        let member : (node : NodeInfo) → P node → Member node (xs ++ ys) = λ node. elim [
          | inl l ↦
              Member-append_left node xs ys
                (list-Member order sort c rt distinct j stand_by true node l)
          | inr l ↦
              Member-append_right node xs ys
                (list-Member order sort c rt distinct k spare true node l)
        ] in
        let (ch, e, r) = offer_lem order sort c rt distinct voter (xs ++ ys) holders (
          All-append (HasMeta order sort c) xs ys (list-HasMeta order sort c rt distinct j stand_by)
            (list-HasMeta order sort c rt distinct k spare)) in
        (
          ch,
          e,
          elim r [
            | inl (nil, same) ↦ inl (λ node l. subst (Member node) nil (member node l), same)
            | inr o ↦ inr (
              o.role_is,
              Ranks-offer P voter voter i (xs ++ ys) ch
                  (All-append P xs ys
                    (All-mono (Online stand_by) P xs (λ n l. inl l) (from_list j stand_by))
                    (All-mono (Online spare) P ys (λ n l. inr l) (from_list k spare)))
                  member o,
            )
          ],
        )
