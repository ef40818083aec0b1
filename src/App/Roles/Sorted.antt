-- ===== src/App/Roles/Sorted.antt =====
-- sortCandidates of app/roles.go on online nodes: no nil pointer, and the order of its result.
use go_dqlite.Prelude.{ℕ, ◌<◌, ◌≡◌, refl, ap, subst, arith, inl, inr}
use go_dqlite.Prelude.{
  Bool, true, false, Option, none, some, List, [], ◌∷◌, length, map, All, All-mono, All-perm,
  map-perm,
}
use go_dqlite.Prelude.{Bool-cases, ltb}
use go_dqlite.Outcome.{ok}
use go_dqlite.Node.{NodeInfo, NodeRole}
use go_dqlite.App.Roles.{
  NodeMetadata, Cluster, RolesChanges, is_online, less, list, metadata, attach, sort_candidates,
}
use go_dqlite.App.Roles.Runtime.{IsRuntime, IsSortedBy, Candidate}
use go_dqlite.App.Roles.Rank.{less-IsWeakOrder}
use go_dqlite.App.Roles.Members.{IsMap, IsListed, lookup_node_lem, Listed-perm, select-All}
use mathlib.Core.List.{Permᴰ}
use mathlib.Core.List.Permᴰ

module _ (order : ℕ → Cluster → Cluster)
    (sort : (Candidate → Candidate → Bool) → List Candidate → List Candidate)
    (c : RolesChanges) where
  abbrev pub meta : NodeInfo → Option NodeMetadata
  meta = metadata order sort c

  -- The metadata of a node that is online.
  abbrev pub HasMeta : NodeInfo → Type 0
  HasMeta node = (m : NodeMetadata) × (meta node ≡ some m)

  -- The comparison of sortCandidates, on nodes.
  abbrev pub comes_before : List ℕ → NodeInfo → NodeInfo → Bool
  comes_before domains a b = elim (meta a) [
    | none ↦ false
    | some m ↦ elim (meta b) [ none ↦ false | some n ↦ less domains (a, m) (b, n) ]
  ]

  attach_lem :
      (nodes : List NodeInfo)
      → All HasMeta nodes
      → (pairs : List Candidate) × (attach order sort c nodes ≡ some pairs)
        × (map (λ p. p.0) pairs ≡ nodes)
        × All (λ p. meta p.0 ≡ some p.1) pairs
  unfolding attach
  attach_lem [] h = ([], refl, refl, tt)
  attach_lem (node ∷ nodes) ((m, e), h) =
      let (pairs, f, g, k) = attach_lem nodes h in
      ((node, m) ∷ pairs, rw (e, attach, f), ap (◌∷◌ node) g, (e, k))

  lower-All :
      (domains : List ℕ) (p : Candidate) (pairs : List Candidate)
      → meta p.0 ≡ some p.1
      → All (λ q. meta q.0 ≡ some q.1) pairs
      → All (λ q. less domains q p ≡ false) pairs
      → All (λ b. comes_before domains b p.0 ≡ false) (map (λ q. q.0) pairs)
  lower-All domains p [] e k h = tt
  lower-All domains p (q ∷ pairs) e (f, k) (h, hs) =
      (rw (f, comes_before, e) h, lower-All domains p pairs e k hs)

  lower :
      (domains : List ℕ) (pairs : List Candidate)
      → All (λ q. meta q.0 ≡ some q.1) pairs
      → IsSortedBy (less domains) pairs
      → IsSortedBy (comes_before domains) (map (λ q. q.0) pairs)
  lower domains [] k h = tt
  lower domains (p ∷ pairs) (e, k) (h, hs) =
      (lower-All domains p pairs e k h, lower domains pairs k hs)

  -- Fewer than two elements are sorted.
  short :
      (domains : List ℕ) (nodes : List NodeInfo)
      → length nodes < 2
      → IsSortedBy (comes_before domains) nodes
  short domains [] h = tt
  short domains (a ∷ []) h = (tt, tt)
  short domains (a ∷ b ∷ nodes) h = absurd (omega arith)

  -- What sortCandidates returns: the same nodes, and none behind one that it should come before.
  pub record IsRanking (domains : List ℕ) (nodes sorted : List NodeInfo) : Type 0 where
    pub perm : Permᴰ sorted nodes
    pub ranked : IsSortedBy (comes_before domains) sorted

  module _ (rt : IsRuntime order sort) (distinct : IsMap c.state) where
    pub list-All :
        (k : ℕ) (role : NodeRole) (online : Bool)
        → All (IsListed c.state role online) (list order sort c k role online)
    unfolding list
    list-All k role online =
        All-mono (IsListed (order k c.state) role online) (IsListed c.state role online) _
          (λ node. Listed-perm node (rt.order_perm k c.state))
          (select-All role online (order k c.state))

    pub online-HasMeta :
        (role : NodeRole) (node : NodeInfo) → IsListed c.state role true node → HasMeta node
    unfolding metadata
    online-HasMeta role node l =
        go l.metadata l.status (lookup_node_lem c.state node l.metadata distinct l.has)
      where
        go : (m : Option NodeMetadata) → is_online m ≡ true → meta node ≡ m → HasMeta node
        go none s e = cc
        go (some m) s e = (m, e)

    pub sort_candidates_lem :
        (nodes : List NodeInfo) (domains : List ℕ)
        → All HasMeta nodes
        → (sorted : List NodeInfo) × (sort_candidates order sort c nodes domains ≡ ok sorted)
          × IsRanking domains nodes sorted
    unfolding sort_candidates
    sort_candidates_lem nodes domains h =
        let (pairs, e, f, k) = attach_lem nodes h in
        let p = rt.sort_perm (less domains) pairs in
        let out = map (λ q. q.0) (sort (less domains) pairs) in
        elim (Bool-cases (ltb (length nodes) 2)) [
          | inl few ↦ (
            nodes,
            rw few,
            record { perm = Permᴰ.refl nodes; ranked = short domains nodes (ground (arith, few)) },
          )
          | inr many ↦ (
            out,
            rw (many, e),
            record {
              perm = subst (Permᴰ out) f (map-perm (λ q. q.0) p);
              ranked =
                  lower domains (sort (less domains) pairs)
                    (All-perm (λ q. meta q.0 ≡ some q.1) (Permᴰ.symm p) k)
                    (rt.sort_sorts (less domains) pairs (less-IsWeakOrder domains));
            },
          )
        ]
