-- ===== src/App/Roles/Adjust.antt =====
-- Adjust of app/roles.go, on every branch.
use go_dqlite.Prelude.{ℕ, ◌<◌, ◌≤◌, ◌≡◌, ◌≢◌, refl, ap, sym, ◌∙◌, arith, inl, inr}
use go_dqlite.Prelude.{
  Bool, true, false, not, ◌&&◌, ◌||◌, Option, none, some, List, [], ◌∷◌, length,
}
use go_dqlite.Prelude.{Bool-cases, Option-cases, ltb, ◌==◌, eq_of_==}
use go_dqlite.Outcome.{ok}
use go_dqlite.Node.{NodeInfo, voter, stand_by, spare}
use go_dqlite.App.Roles.{
  NodeMetadata, Cluster, RolesChanges, Change, no_change, role_eq, list, size, extra_voter,
  without_leader, adjust_stand_bys, adjust_large, adjust,
}
use go_dqlite.App.Roles.Runtime.{IsRuntime, Candidate}
use go_dqlite.App.Roles.Members.{Has, IsMap, Has-perm, role_eq_sound}
use go_dqlite.App.Roles.Count.{count}
use go_dqlite.App.Roles.Adjustment.{
  IsSettled, single, small, as_desired, no_voter, no_stand_by, AdjustResult, keeps, promotes_voter,
  promotes_stand_by, excess_voters, offline_voters, excess_stand_bys, offline_stand_bys,
  demotes_extra, AreVotersDesired, without_leader_lem, offline_lem, offer_spares, offer-voter, len,
}
use mathlib.Core.List.Permᴰ

-- What the loop over a small cluster finds.
extra_voter-some :
    (leader : ℕ) (xs : Cluster) (node : NodeInfo)
    → extra_voter leader xs ≡ some node
    → (m : Option NodeMetadata) × Has node m xs × (node.role ≡ voter) × (node.id ≢ leader)
unfolding extra_voter
extra_voter-some leader [] node e = cc
extra_voter-some leader ((key, n) ∷ rest) node e =
    elim (Bool-cases (key.id == leader || not (role_eq key.role voter))) [
      | inl passed ↦
          let (m, h, r, i) = extra_voter-some leader rest node (ground (arith, passed, e)) in
          (m, inr h, r, i)
      | inr taken ↦
          let k : key ≡ node = ground (arith, taken, e) in
          (
            n,
            inl (k, refl),
            sym (ap (λ x. x.role) k) ∙ role_eq_sound key.role voter (ground (arith, taken)),
            λ i. ground (arith, taken, ap (λ x. x.id) k, i),
          )
    ]

extra_voter-none :
    (leader : ℕ) (xs : Cluster) (node : NodeInfo) (m : Option NodeMetadata)
    → extra_voter leader xs ≡ none
    → Has node m xs
    → node.role ≡ voter
    → node.id ≢ leader
    → ⊥
unfolding extra_voter
extra_voter-none leader [] node m e h r i = h
extra_voter-none leader ((key, n) ∷ rest) node m e (inl (k, _)) r i =
    let role : role_eq key.role voter ≡ true = rw (ap (λ x. x.role) k ∙ r) in
    ground (arith, role, e, ap (λ x. x.id) k)
extra_voter-none leader ((key, n) ∷ rest) node m e (inr h) r i =
    extra_voter-none leader rest node m (ground (arith, e)) h r i

module _ (order : ℕ → Cluster → Cluster)
    (sort : (Candidate → Candidate → Bool) → List Candidate → List Candidate) (c : RolesChanges)
    (rt : IsRuntime order sort) (distinct : IsMap c.state) where
  nonempty : {nodes : List NodeInfo} → 0 < length nodes → nodes ≢ []
  nonempty {nodes} h e = omega (arith, ap (λ l. length l) e)

  -- The part about stand-bys, where the voters are as desired.
  adjust_stand_bys_lem :
      (leader : ℕ)
      → 3 ≤ length c.state
      → AreVotersDesired order sort c
      → (ch : Change) × (adjust_stand_bys order sort c leader
            (list order sort c 1 stand_by true)
            (list order sort c 3 stand_by false)
          ≡ ok ch)
        × AdjustResult order sort c leader ch
  unfolding adjust_stand_bys
  adjust_stand_bys_lem leader large v =
      let online = list order sort c 1 stand_by true in
      let offline = list order sort c 3 stand_by false in
      let target = c.config.stand_bys in
      let n = len order sort c rt distinct 1 stand_by true in
      let k = len order sort c rt distinct 3 stand_by false in
      elim (Bool-cases (ltb (length online) target)) [
        | inl few ↦
            let (ch, e, r) = offer_spares order sort c rt distinct 6 1 stand_by stand_by in
            let fewer : count c stand_by true < target = ground (arith, few, n) in
            (
              ch,
              rw few e,
              elim r [
                | inl (nobody, same) ↦ keeps (no_stand_by large v fewer nobody) same
                | inr (role, ranks) ↦ promotes_stand_by large v fewer role ranks
              ],
            )
        | inr enough ↦ elim (Bool-cases (ltb target (length online))) [
          | inl many ↦ (
            record { role = spare; candidates = without_leader leader online },
            rw (enough, many),
            excess_stand_bys large v (ground (arith, many, n))
                (without_leader_lem order sort c rt distinct 1 leader stand_by),
          )
          | inr exact ↦ elim (Bool-cases (ltb 0 (length offline))) [
            | inl some_offline ↦ (
              record { role = spare; candidates = offline },
              rw (enough, exact, some_offline),
              offline_stand_bys large v (ground (arith, enough, exact, n))
                  (nonempty (ground (arith, some_offline)))
                  (offline_lem order sort c rt distinct 3 stand_by),
            )
            | inr none_offline ↦ (
              no_change,
              rw (enough, exact, none_offline),
              keeps
                  (as_desired large (v.0) (v.1) (ground (arith, enough, exact, n))
                    (ground (arith, none_offline, k)))
                  refl,
            )
          ]
        ]
      ]

  all_desired : Bool
  all_desired =
      length (list order sort c 2 voter false) == 0
      && (length (list order sort c 0 voter true) == c.config.voters
          && (length (list order sort c 3 stand_by false) == 0
              && length (list order sort c 1 stand_by true) == c.config.stand_bys))

  all_desired-IsSettled :
      (leader : ℕ) → 3 ≤ length c.state → all_desired ≡ true → IsSettled order sort c leader
  unfolding all_desired
  all_desired-IsSettled leader large h =
      let a = len order sort c rt distinct 0 voter true in
      let b = len order sort c rt distinct 1 stand_by true in
      let d = len order sort c rt distinct 2 voter false in
      let e = len order sort c rt distinct 3 stand_by false in
      as_desired large (ground (arith, h, a)) (ground (arith, h, d)) (ground (arith, h, b))
        (ground (arith, h, e))

  adjust_large_lem :
      (leader : ℕ)
      → 3 ≤ length c.state
      → (ch : Change) × (adjust_large order sort c leader ≡ ok ch)
        × AdjustResult order sort c leader ch
  unfolding adjust_large all_desired
  adjust_large_lem leader large =
      let online = list order sort c 0 voter true in
      let offline = list order sort c 2 voter false in
      let target = c.config.voters in
      let n = len order sort c rt distinct 0 voter true in
      let k = len order sort c rt distinct 2 voter false in
      elim (Bool-cases all_desired) [
        | inl desired ↦
            (no_change, rw desired, keeps (all_desired-IsSettled leader large desired) refl)
        | inr other ↦ elim (Bool-cases (ltb (length online) target)) [
          | inl few ↦
              let (ch, e, r) = offer-voter order sort c rt distinct 4 5 0 in
              let fewer : count c voter true < target = ground (arith, few, n) in
              (
                ch,
                rw (other, few) e,
                elim r [
                  | inl (nobody, same) ↦ keeps (no_voter large fewer nobody) same
                  | inr (role, ranks) ↦ promotes_voter large fewer role ranks
                ],
              )
          | inr enough ↦ elim (Bool-cases (ltb target (length online))) [
            | inl many ↦ (
              record { role = spare; candidates = without_leader leader online },
              rw (other, enough, many),
              excess_voters large (ground (arith, many, n))
                  (without_leader_lem order sort c rt distinct 0 leader voter),
            )
            | inr exact ↦ elim (Bool-cases (ltb 0 (length offline))) [
              | inl some_offline ↦ (
                record { role = spare; candidates = offline },
                rw (other, enough, exact, some_offline),
                offline_voters large (ground (arith, enough, exact, n))
                    (nonempty (ground (arith, some_offline)))
                    (offline_lem order sort c rt distinct 2 voter),
              )
              | inr none_offline ↦
                  let (ch, e, r) =
                    adjust_stand_bys_lem leader large
                      (ground (arith, enough, exact, n), ground (arith, none_offline, k)) in
                  (ch, rw (other, enough, exact, none_offline) e, r)
            ]
          ]
        ]
      ]

  -- On a cluster whose nodes are distinct, and whatever order maps are iterated in and sort.Slice
  -- sorts in, Adjust never panics. It asks for no change exactly where the cluster has one node, has
  -- two or none and no voter but the leader, is as desired, or misses a target that no online node
  -- can fill. With two nodes it demotes a voter that is not the leader. With three or more it
  -- promotes to fill a target that is missed, and then offers the role to all nodes that may take
  -- it, each preferred to those behind it: its failure domain is free of the online nodes that have
  -- the role where the other's is not, or both are alike in this and its weight is not larger. Else
  -- it demotes, voters before stand-bys: of too many that are online all but the leader, or all that
  -- are offline.
  pub adjust_lem :
      (leader : ℕ)
      → (ch : Change) × (adjust order sort c leader ≡ ok ch) × AdjustResult order sort c leader ch
  unfolding adjust size
  adjust_lem leader = elim (Bool-cases (size order sort c == 1)) [
    | inl one ↦ (no_change, rw one, keeps (single (eq_of_== (length c.state) 1 one)) refl)
    | inr more ↦ elim (Bool-cases (ltb (size order sort c) 3)) [
      | inr large ↦
          let (ch, e, r) = adjust_large_lem leader (ground (arith, large)) in
          (ch, rw (more, large) e, r)
      | inl few ↦
          let less_three : length c.state < 3 = ground (arith, few) in
          let not_one : length c.state ≢ 1 = λ e. ground (arith, more, e) in
          let p = rt.order_perm 0 c.state in
          elim (Option-cases (extra_voter leader (order 0 c.state))) [
            | inl nobody ↦ (
              no_change,
              rw (more, few, nobody),
              keeps
                  (small less_three not_one (λ node (m, h, r, i).
                    extra_voter-none leader (order 0 c.state) node m nobody
                      (Has-perm node m (Permᴰ.symm p) h) r i))
                  refl,
            )
            | inr (node, found) ↦
                let (m, h, r, i) = extra_voter-some leader (order 0 c.state) node found in
                (
                  record { role = spare; candidates = node ∷ [] },
                  rw (more, few, found),
                  demotes_extra node less_three not_one (m, Has-perm node m p h, r, i) refl refl,
                )
          ]
    ]
  ]
