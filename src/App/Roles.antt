-- ===== src/App/Roles.antt =====
-- RolesChanges of app/roles.go.
pub mod Runtime
pub mod Rank
pub mod Members
pub mod Sorted
pub mod Preference
pub mod Peers
pub mod Handover
pub mod Shutdown
pub mod Count
pub mod Adjustment
pub mod Adjust
pub mod Assumption
use go_dqlite.Prelude.{
  ℕ, zero, suc, ◌+◌, ◌≡◌, Bool, true, false, not, ◌&&◌, ◌||◌, Option, none, some,
}
use go_dqlite.Prelude.{List, [], ◌∷◌, ◌++◌, map, length, leb, ltb, ◌==◌, if◌then◌else◌}
use go_dqlite.Prelude.Int.{ℤ, pos, negsuc}
use go_dqlite.Outcome.{Outcome, ok, panic, stuck, nil_pointer}
use go_dqlite.Node.{NodeInfo, NodeRole, voter, stand_by, spare}

pub record NodeMetadata : Type 0 where
  pub failure_domain : ℕ
  pub weight : ℕ

-- The targets are ints, and are taken as not negative.
pub record RolesConfig : Type 0 where
  pub voters : ℕ
  pub stand_bys : ℕ

-- The map from the nodes of the cluster to their metadata; `none` is nil, an offline node.
abbrev pub Cluster : Type 0
Cluster = List (NodeInfo × Option NodeMetadata)

pub record RolesChanges : Type 0 where
  pub config : RolesConfig
  pub state : Cluster

abbrev pub min_voters : ℕ
min_voters = 3

-- The role -1, for "no change".
abbrev pub no_role : NodeRole
no_role = negsuc 0

abbrev pub role_eq : NodeRole → NodeRole → Bool
role_eq (pos a) (pos b) = a == b
role_eq (negsuc a) (negsuc b) = a == b
role_eq _ _ = false

unfoldable pub bytes_eq : List ℕ → List ℕ → Bool
bytes_eq [] [] = true
bytes_eq (a ∷ as') (b ∷ bs) = a == b && bytes_eq as' bs
bytes_eq _ _ = false

-- Equality of structs, by which a node is a key of the map.
unfoldable pub node_eq : NodeInfo → NodeInfo → Bool
unfolding bytes_eq
node_eq a b = a.id == b.id && (bytes_eq a.address b.address && role_eq a.role b.role)

abbrev pub is_online : Option NodeMetadata → Bool
is_online none = false
is_online (some _) = true

abbrev pub bool_eq : Bool → Bool → Bool
bool_eq true b = b
bool_eq false b = not b

-- The loop of list, over the map in the order given.
unfoldable pub select : NodeRole → Bool → Cluster → List NodeInfo
select role online [] = []
select role online ((node, metadata) ∷ rest) =
    let others = select role online rest in
    if role_eq node.role role && bool_eq (is_online metadata) online then node ∷ others else others

-- The loop of get.
unfoldable pub find_id : ℕ → Cluster → Option NodeInfo
find_id id [] = none
find_id id ((node, metadata) ∷ rest) =
    let later = find_id id rest in if node.id == id then some node else later

-- c.State[node], which is nil for a node that is no key.
unfoldable pub lookup_node : NodeInfo → Cluster → Option NodeMetadata
unfolding node_eq
lookup_node node [] = none
lookup_node node ((key, metadata) ∷ rest) =
    let later = lookup_node node rest in if node_eq key node then metadata else later

-- A map to bool as the list of the keys that are true.
unfoldable pub has_domain : List ℕ → ℕ → Bool
has_domain [] d = false
has_domain (x ∷ xs) d = x == d || has_domain xs d

-- The removal of the node itself from its peers: the first with its ID.
unfoldable pub remove_id : ℕ → List NodeInfo → List NodeInfo
remove_id id [] = []
remove_id id (node ∷ rest) =
    let others = remove_id id rest in if node.id == id then rest else node ∷ others

-- The comparison of sortCandidates, on the metadata of the two candidates.
unfoldable pub less : List ℕ → NodeInfo × NodeMetadata → NodeInfo × NodeMetadata → Bool
less domains (_, m) (_, n) =
    let taken_m = has_domain domains m.failure_domain in
    let taken_n = has_domain domains n.failure_domain in
    if not taken_m && taken_n
    then true
    else if not taken_n && taken_m
    then false
    else ltb m.weight n.weight

-- The demotion of online nodes passes over the leader.
unfoldable pub without_leader : ℕ → List NodeInfo → List NodeInfo
without_leader leader [] = []
without_leader leader (node ∷ rest) =
    let others = without_leader leader rest in if node.id == leader then others else node ∷ others

-- The loop of Adjust over a small cluster: the first voter that is not the leader.
unfoldable pub extra_voter : ℕ → Cluster → Option NodeInfo
extra_voter leader [] = none
extra_voter leader ((node, metadata) ∷ rest) =
    let later = extra_voter leader rest in
    if node.id == leader || not (role_eq node.role voter) then later else some node

-- The result of Handover and Adjust.
pub record Change : Type 0 where
  pub role : NodeRole
  pub candidates : List NodeInfo

abbrev pub no_change : Change
no_change = record { role = no_role; candidates = [] }

-- A Go map is iterated in an order that the runtime chooses anew each time: `order k` is the choice
-- for the k-th iteration of a call. `sort` is sort.Slice by a comparison of elements.
module _ (order : ℕ → Cluster → Cluster)
    (sort : (NodeInfo × NodeMetadata → NodeInfo × NodeMetadata → Bool)
      → List (NodeInfo × NodeMetadata)
      → List (NodeInfo × NodeMetadata))
    (c : RolesChanges) where
  unfoldable pub size : ℕ
  size = length c.state

  unfoldable pub get : ℕ → ℕ → Option NodeInfo
  unfolding find_id
  get k id = find_id id (order k c.state)

  unfoldable pub list : ℕ → NodeRole → Bool → List NodeInfo
  unfolding select
  list k role online = select role online (order k c.state)

  unfoldable pub metadata : NodeInfo → Option NodeMetadata
  unfolding lookup_node
  metadata node = lookup_node node c.state

  unfoldable pub failure_domains : List NodeInfo → List ℕ
  failure_domains [] = []
  failure_domains (node ∷ nodes) =
      let others = failure_domains nodes in
      elim (metadata node) [ none ↦ others | some m ↦ m.failure_domain ∷ others ]

  -- The candidates with their metadata, `none` if some candidate has none.
  unfoldable pub attach : List NodeInfo → Option (List (NodeInfo × NodeMetadata))
  attach [] = some []
  attach (node ∷ nodes) =
      let others = attach nodes in
      elim (metadata node) [
        | none ↦ none
        | some m ↦ elim others [ none ↦ none | some pairs ↦ some ((node, m) ∷ pairs) ]
      ]

  -- sortCandidates. Fewer than two candidates are not compared; of two or more each is.
  unfoldable pub sort_candidates : List NodeInfo → List ℕ → Outcome (List NodeInfo)
  sort_candidates candidates domains =
      if ltb (length candidates) 2 then ok candidates else elim (attach candidates) [
        | none ↦ panic nil_pointer
        | some pairs ↦ ok (map (λ p. p.0) (sort (less domains) pairs))
      ]

  -- sortCandidates and the return of its candidates for a role.
  unfoldable pub sorted_change : NodeRole → List NodeInfo → List ℕ → Outcome Change
  sorted_change role candidates domains = elim (sort_candidates candidates domains) [
    | ok sorted ↦ ok (record { role = role; candidates = sorted })
    | panic p ↦ panic p
    | stuck ↦ stuck
  ]

  -- The offer of a role to candidates, if there are any; `holders` are the nodes whose failure domains
  -- are to be avoided.
  unfoldable pub offer : NodeRole → List NodeInfo → List NodeInfo → Outcome Change
  offer role candidates holders =
      if length candidates == 0
      then ok no_change
      else sorted_change role candidates (failure_domains holders)

  -- Assume, for the node that get finds.
  unfoldable pub assume_role : NodeRole
  assume_role =
      let online_voters = list 1 voter true in
      let online_stand_bys = list 2 stand_by true in
      if leb c.config.voters (length online_voters)
        && leb c.config.stand_bys (length online_stand_bys)
      then no_role
      else if ltb (length online_voters) c.config.voters
      then voter
      else stand_by

  unfoldable pub assume : ℕ → NodeRole
  assume id = if ltb size min_voters then no_role else elim (get 0 id) [
    | none ↦ no_role
    | some node ↦
        if role_eq node.role voter || role_eq node.role stand_by then no_role else assume_role
  ]

  -- Handover, for the node that get finds.
  unfoldable pub handover_from : NodeInfo → Outcome Change
  handover_from node =
      if not (role_eq node.role voter) && not (role_eq node.role stand_by)
      then ok no_change
      else let peers = remove_id node.id (list 1 node.role true) in
        let spares = list 2 spare true in
        let candidates =
          if role_eq node.role voter then list 3 stand_by true ++ spares else spares in
        offer node.role candidates peers

  unfoldable pub handover : ℕ → Outcome Change
  handover id = elim (get 0 id) [ none ↦ ok no_change | some node ↦ handover_from node ]

  -- Adjust, from the promotion of stand-bys on.
  unfoldable pub adjust_stand_bys : ℕ → List NodeInfo → List NodeInfo → Outcome Change
  adjust_stand_bys leader online_stand_bys offline_stand_bys =
      if ltb (length online_stand_bys) c.config.stand_bys
      then offer stand_by (list 6 spare true) online_stand_bys
      else if ltb c.config.stand_bys (length online_stand_bys)
      then ok (record { role = spare; candidates = without_leader leader online_stand_bys })
      else if ltb 0 (length offline_stand_bys)
      then ok (record { role = spare; candidates = offline_stand_bys })
      else ok no_change

  -- Adjust, on a cluster of at least min_voters nodes.
  unfoldable pub adjust_large : ℕ → Outcome Change
  adjust_large leader =
      let online_voters = list 0 voter true in
      let online_stand_bys = list 1 stand_by true in
      let offline_voters = list 2 voter false in
      let offline_stand_bys = list 3 stand_by false in
      if length offline_voters == 0
        && (length online_voters == c.config.voters
            && (length offline_stand_bys == 0 && length online_stand_bys == c.config.stand_bys))
      then ok no_change
      else if ltb (length online_voters) c.config.voters
      then offer voter (list 4 stand_by true ++ list 5 spare true) online_voters
      else if ltb c.config.voters (length online_voters)
      then ok (record { role = spare; candidates = without_leader leader online_voters })
      else if ltb 0 (length offline_voters)
      then ok (record { role = spare; candidates = offline_voters })
      else adjust_stand_bys leader online_stand_bys offline_stand_bys

  unfoldable pub adjust : ℕ → Outcome Change
  adjust leader =
      if size == 1
      then ok no_change
      else if ltb size min_voters
      then elim (extra_voter leader (order 0 c.state)) [
        | none ↦ ok no_change
        | some node ↦ ok (record { role = spare; candidates = node ∷ [] })
      ]
      else adjust_large leader
