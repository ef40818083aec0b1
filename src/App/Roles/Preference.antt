-- ===== src/App/Roles/Preference.antt =====
-- The order in which app/roles.go prefers candidates, stated on the cluster and not by its comparison.
use go_dqlite.Prelude.{ℕ, ◌≤◌, ◌≡◌, refl, sym, subst, arith, inl, inr}
use go_dqlite.Prelude.{
  Bool, true, false, none, some, List, [], ◌∷◌, All, Member, Bool-cases, Option-cases, ◌==◌,
  eq_of_==, ==_of_eq,
}
use go_dqlite.Node.{NodeInfo}
use go_dqlite.App.Roles.{
  NodeMetadata, Cluster, RolesChanges, has_domain, less, lookup_node, node_eq, metadata,
  failure_domains,
}
use go_dqlite.App.Roles.Runtime.{IsSortedBy, Candidate}
use go_dqlite.App.Roles.Members.{Has, IsMap, lookup_node_lem, node_eq_sound}
use go_dqlite.App.Roles.Sorted.{comes_before}

-- Some node of the cluster that satisfies `H` is online in this failure domain.
abbrev pub IsTaken : Cluster → (NodeInfo → Type 0) → ℕ → Type 0
IsTaken xs H d =
    (node : NodeInfo) × (m : NodeMetadata) × H node × Has node (some m) xs × (m.failure_domain ≡ d)

-- A node with the first metadata may stand before one with the second: its failure domain is free where
-- the other's is taken, or both are alike in this and its weight is not larger.
pub data IsPreferred (xs : Cluster) (H : NodeInfo → Type 0) (m n : NodeMetadata) : Type 0 where
  fresh : (IsTaken xs H m.failure_domain → ⊥) → IsTaken xs H n.failure_domain → IsPreferred xs H m n
  both_taken :
      IsTaken xs H m.failure_domain
      → IsTaken xs H n.failure_domain
      → m.weight ≤ n.weight
      → IsPreferred xs H m n
  both_free :
      (IsTaken xs H m.failure_domain → ⊥)
      → (IsTaken xs H n.failure_domain → ⊥)
      → m.weight ≤ n.weight
      → IsPreferred xs H m n

abbrev pub Precedes : Cluster → (NodeInfo → Type 0) → NodeInfo → NodeInfo → Type 0
Precedes xs H a b =
    (m n : NodeMetadata) → Has a (some m) xs → Has b (some n) xs → IsPreferred xs H m n

-- Every node is preferred to those behind it.
abbrev pub IsRanked : Cluster → (NodeInfo → Type 0) → List NodeInfo → Type 0
IsRanked xs H [] = Unit
IsRanked xs H (a ∷ nodes) = All (Precedes xs H a) nodes × IsRanked xs H nodes

lookup_node-Has :
    (xs : Cluster) (node : NodeInfo) (m : NodeMetadata)
    → lookup_node node xs ≡ some m
    → Has node (some m) xs
unfolding lookup_node
lookup_node-Has [] node m e = cc
lookup_node-Has ((key, n) ∷ rest) node m e = elim (Bool-cases (node_eq key node)) [
  | inl same ↦ inl (node_eq_sound key node same, ground (arith, same, e))
  | inr differ ↦ inr (lookup_node-Has rest node m (ground (arith, differ, e)))
]

module _ (order : ℕ → Cluster → Cluster)
    (sort : (Candidate → Candidate → Bool) → List Candidate → List Candidate)
    (c : RolesChanges) where
  metadata-Has :
      (node : NodeInfo) (m : NodeMetadata)
      → metadata order sort c node ≡ some m
      → Has node (some m) c.state
  unfolding metadata
  metadata-Has node m e = lookup_node-Has c.state node m e

  failure_domains-none :
      (x : NodeInfo) (holders : List NodeInfo)
      → metadata order sort c x ≡ none
      → failure_domains order sort c (x ∷ holders) ≡ failure_domains order sort c holders
  unfolding failure_domains
  failure_domains-none x holders e = rw (e, failure_domains) refl

  failure_domains-some :
      (x : NodeInfo) (holders : List NodeInfo) (m : NodeMetadata)
      → metadata order sort c x ≡ some m
      → failure_domains order sort c (x ∷ holders)
        ≡ m.failure_domain ∷ failure_domains order sort c holders
  unfolding failure_domains
  failure_domains-some x holders m e = rw (e, failure_domains) refl

  domain-IsTaken :
      (holders : List NodeInfo) (d : ℕ)
      → has_domain (failure_domains order sort c holders) d ≡ true
      → IsTaken c.state (λ node. Member node holders) d
  unfolding has_domain failure_domains
  domain-IsTaken [] d h = absurd (cc h)
  domain-IsTaken (x ∷ holders) d h =
      let later : IsTaken c.state (λ node. Member node holders) d
          → IsTaken c.state (λ node. Member node (x ∷ holders)) d =
        λ (node, m, i, k, e). (node, m, inr i, k, e) in
      elim (Option-cases (metadata order sort c x)) [
        | inl e ↦ later (domain-IsTaken holders d (rw (failure_domains-none x holders e) at h))
        | inr (m, e) ↦ elim (Bool-cases (m.failure_domain == d)) [
          | inl same ↦ (x, m, inl refl, metadata-Has x m e, eq_of_== m.failure_domain d same)
          | inr differ ↦ later (
              domain-IsTaken holders d
                (rw (failure_domains-some x holders m e, has_domain, differ) at h))
        ]
      ]

  domain_found :
      (holders : List NodeInfo) (node : NodeInfo) (m : NodeMetadata)
      → metadata order sort c node ≡ some m
      → Member node holders
      → has_domain (failure_domains order sort c holders) m.failure_domain ≡ true
  unfolding has_domain
  domain_found [] node m e h = absurd h
  domain_found (x ∷ holders) node m e (inl k) =
      rw
        (
          failure_domains-some x holders m
              (subst (λ z. metadata order sort c z ≡ some m) (sym k) e),
          has_domain,
          ==_of_eq m.failure_domain m.failure_domain refl,
        )
        refl
  domain_found (x ∷ holders) node m e (inr h) =
      let rest = domain_found holders node m e h in
      elim (Option-cases (metadata order sort c x)) [
        | inl f ↦ rw (failure_domains-none x holders f) rest
        | inr (n, f) ↦ elim (Bool-cases (n.failure_domain == m.failure_domain)) [
          | inl same ↦ rw (failure_domains-some x holders n f, has_domain, same) refl
          | inr differ ↦ rw (failure_domains-some x holders n f, has_domain, differ) rest
        ]
      ]

  module _ (distinct : IsMap c.state) (H : NodeInfo → Type 0) (holders : List NodeInfo)
      (sound : (node : NodeInfo) → Member node holders → H node)
      (complete : (node : NodeInfo) → H node → Member node holders) where
    is_taken : ℕ → Bool
    is_taken d = has_domain (failure_domains order sort c holders) d

    is_taken-IsTaken : (d : ℕ) → is_taken d ≡ true → IsTaken c.state H d
    unfolding is_taken
    is_taken-IsTaken d h =
        let (node, m, i, k, e) = domain-IsTaken holders d h in (node, m, sound node i, k, e)

    free : (d : ℕ) → is_taken d ≡ false → IsTaken c.state H d → ⊥
    unfolding is_taken metadata
    free d h (node, m, i, k, e) =
        let found =
          domain_found holders node m (lookup_node_lem c.state node (some m) distinct k)
            (complete node i) in
        cc (found, e, h)

    less-IsPreferred :
        (a b : NodeInfo) (m n : NodeMetadata)
        → less (failure_domains order sort c holders) (b, n) (a, m) ≡ false
        → IsPreferred c.state H m n
    unfolding less is_taken
    less-IsPreferred a b m n h = elim (Bool-cases (is_taken m.failure_domain)) [
      | inl p ↦ elim (Bool-cases (is_taken n.failure_domain)) [
        | inl q ↦
            both_taken (is_taken-IsTaken m.failure_domain p) (is_taken-IsTaken n.failure_domain q)
              (ground (arith, p, q, h))
        | inr q ↦ absurd (ground (arith, p, q, h))
      ]
      | inr p ↦ elim (Bool-cases (is_taken n.failure_domain)) [
        | inl q ↦ fresh (free m.failure_domain p) (is_taken-IsTaken n.failure_domain q)
        | inr q ↦
            both_free (free m.failure_domain p) (free n.failure_domain q) (ground (arith, p, q, h))
      ]
    ]

    Precedes-All :
        (a : NodeInfo) (nodes : List NodeInfo)
        → All
            (λ b. comes_before order sort c (failure_domains order sort c holders) b a ≡ false)
            nodes
        → All (Precedes c.state H a) nodes
    unfolding metadata
    Precedes-All a [] h = tt
    Precedes-All a (b ∷ nodes) (h, hs) = (
      λ m n i j.
          let ea : metadata order sort c a ≡ some m =
            lookup_node_lem c.state a (some m) distinct i in
          let eb : metadata order sort c b ≡ some n =
            lookup_node_lem c.state b (some n) distinct j in
          less-IsPreferred a b m n (rw (eb, comes_before, ea) at h),
      Precedes-All a nodes hs,
    )

    -- What sortCandidates sorts by its comparison is ranked.
    pub IsSortedBy-IsRanked :
        (nodes : List NodeInfo)
        → IsSortedBy (comes_before order sort c (failure_domains order sort c holders)) nodes
        → IsRanked c.state H nodes
    IsSortedBy-IsRanked [] h = tt
    IsSortedBy-IsRanked (a ∷ nodes) (h, hs) = (Precedes-All a nodes h, IsSortedBy-IsRanked nodes hs)
