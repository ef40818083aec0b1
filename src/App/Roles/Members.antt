-- ===== src/App/Roles/Members.antt =====
-- Which nodes the lists of app/roles.go hold, whatever the order of the iteration.
use go_dqlite.Prelude.{ℕ, ◌≡◌, ◌≢◌, refl, ap, sym, subst, ◌∙◌, arith, ◌⊎◌, inl, inr}
use go_dqlite.Prelude.{
  Bool, true, false, ◌&&◌, Option, none, some, List, [], ◌∷◌, All, All-mono, Member,
}
use go_dqlite.Prelude.{Bool-cases, ◌==◌, ==-refl, eq_of_==}
use go_dqlite.Prelude.Int.{pos, negsuc}
use go_dqlite.Node.{NodeInfo, NodeRole}
use go_dqlite.App.Roles.{
  NodeMetadata, Cluster, role_eq, bytes_eq, node_eq, is_online, bool_eq, select, find_id,
  lookup_node,
}
use mathlib.Core.List.{Permᴰ}

-- The map has this entry.
abbrev pub Has : NodeInfo → Option NodeMetadata → Cluster → Type 0
Has node m [] = ⊥
Has node m ((key, n) ∷ rest) = ((key ≡ node) × (n ≡ m)) ⊎ Has node m rest

-- The keys of a map are distinct.
abbrev pub IsMap : Cluster → Type 0
IsMap [] = Unit
IsMap ((key, n) ∷ rest) = ((m : Option NodeMetadata) → Has key m rest → ⊥) × IsMap rest

-- A node of the cluster with this role, online or not.
pub record IsListed (xs : Cluster) (role : NodeRole) (online : Bool) (node : NodeInfo)
    : Type 0 where
  pub metadata : Option NodeMetadata
  pub has : Has node metadata xs
  pub status : is_online metadata ≡ online
  pub role_is : node.role ≡ role

pub role_eq_sound : (a b : NodeRole) → role_eq a b ≡ true → a ≡ b
role_eq_sound (pos a) (pos b) h = ap pos (eq_of_== a b h)
role_eq_sound (negsuc a) (negsuc b) h = ap negsuc (eq_of_== a b h)
role_eq_sound (pos a) (negsuc b) h = cc
role_eq_sound (negsuc a) (pos b) h = cc

pub role_eq_refl : (a : NodeRole) → role_eq a a ≡ true
role_eq_refl (pos a) = ==-refl a
role_eq_refl (negsuc a) = ==-refl a

pub bytes_eq_sound : (a b : List ℕ) → bytes_eq a b ≡ true → a ≡ b
unfolding bytes_eq
bytes_eq_sound [] [] h = refl
bytes_eq_sound [] (y ∷ b) h = cc
bytes_eq_sound (x ∷ a) [] h = cc
bytes_eq_sound (x ∷ a) (y ∷ b) h = ground (arith, bytes_eq_sound a b)

pub bytes_eq_refl : (a : List ℕ) → bytes_eq a a ≡ true
unfolding bytes_eq
bytes_eq_refl [] = refl
bytes_eq_refl (x ∷ a) = rw (==-refl x) (bytes_eq_refl a)

pub node_eq_sound : (a b : NodeInfo) → node_eq a b ≡ true → a ≡ b
unfolding node_eq
node_eq_sound a b h =
    ground (arith, bytes_eq_sound a.address b.address, role_eq_sound a.role b.role)

pub node_eq_refl : (a : NodeInfo) → node_eq a a ≡ true
unfolding node_eq
node_eq_refl a = rw (==-refl a.id, bytes_eq_refl a.address) (role_eq_refl a.role)

-- Every entry of a permutation is an entry.
pub Has-perm :
    {xs ys : Cluster} (node : NodeInfo) (m : Option NodeMetadata)
    → Permᴰ xs ys
    → Has node m xs
    → Has node m ys
Has-perm node m Permᴰ.nil h = absurd h
Has-perm node m (Permᴰ.cons e p) (inl (k, n)) =
    inl (sym (ap (λ x. x.0) e) ∙ k, sym (ap (λ x. x.1) e) ∙ n)
Has-perm node m (Permᴰ.cons e p) (inr h) = inr (Has-perm node m p h)
Has-perm node m (Permᴰ.swap e f) (inl (k, n)) =
    inr (inl (sym (ap (λ x. x.0) e) ∙ k, sym (ap (λ x. x.1) e) ∙ n))
Has-perm node m (Permᴰ.swap e f) (inr (inl (k, n))) =
    inl (sym (ap (λ x. x.0) f) ∙ k, sym (ap (λ x. x.1) f) ∙ n)
Has-perm node m (Permᴰ.swap e f) (inr (inr h)) = inr (inr h)
Has-perm node m (Permᴰ.trans p q) h = Has-perm node m q (Has-perm node m p h)

-- The lookup of an entry of a map finds it.
pub lookup_node_lem :
    (xs : Cluster) (node : NodeInfo) (m : Option NodeMetadata)
    → IsMap xs
    → Has node m xs
    → lookup_node node xs ≡ m
unfolding lookup_node
lookup_node_lem [] node m d h = absurd h
lookup_node_lem ((key, n) ∷ rest) node m (fresh, d) (inl (k, e)) = rw (k, node_eq_refl node) e
lookup_node_lem ((key, n) ∷ rest) node m (fresh, d) (inr h) = elim (Bool-cases (node_eq key node)) [
  | inl same ↦ absurd (fresh m (subst (λ x. Has x m rest) (sym (node_eq_sound key node same)) h))
  | inr differ ↦ rw differ (lookup_node_lem rest node m d h)
]

Listed-cons :
    {xs : Cluster} {e : NodeInfo × Option NodeMetadata} {role : NodeRole} {online : Bool}
    {node : NodeInfo}
    → IsListed xs role online node
    → IsListed (e ∷ xs) role online node
Listed-cons l = record {
  metadata = l.metadata;
  has = inr l.has;
  status = l.status;
  role_is = l.role_is;
}

pub Listed-perm :
    {xs ys : Cluster} {role : NodeRole} {online : Bool} (node : NodeInfo)
    → Permᴰ xs ys
    → IsListed xs role online node
    → IsListed ys role online node
Listed-perm node p l = record {
  metadata = l.metadata;
  has = Has-perm node l.metadata p l.has;
  status = l.status;
  role_is = l.role_is;
}

-- The nodes that list collects have its role and its status.
pub select-All :
    (role : NodeRole) (online : Bool) (xs : Cluster)
    → All (IsListed xs role online) (select role online xs)
unfolding select
select-All role online [] = tt
select-All role online ((node, m) ∷ rest) =
    let later : All (IsListed ((node, m) ∷ rest) role online) (select role online rest) =
      All-mono (IsListed rest role online) (IsListed ((node, m) ∷ rest) role online)
        (select role online rest) (λ x l. Listed-cons l) (select-All role online rest) in
    elim (Bool-cases (role_eq node.role role && bool_eq (is_online m) online)) [
      | inl chosen ↦ rw chosen (
        record {
          metadata = m;
          has = inl (refl, refl);
          status = ground (arith, chosen);
          role_is = role_eq_sound node.role role (ground (arith, chosen));
        },
        later,
      )
      | inr passed ↦ rw passed later
    ]

bool_eq_refl : (b : Bool) → bool_eq b b ≡ true
bool_eq_refl true = refl
bool_eq_refl false = refl

-- Every entry with the role and the status is collected.
pub select-Member :
    (role : NodeRole) (online : Bool) (xs : Cluster) (node : NodeInfo) (m : Option NodeMetadata)
    → Has node m xs
    → is_online m ≡ online
    → node.role ≡ role
    → Member node (select role online xs)
unfolding select
select-Member role online [] node m h s r = absurd h
select-Member role online ((key, n) ∷ rest) node m (inl (k, e)) s r =
    let chosen : (role_eq key.role role && bool_eq (is_online n) online) ≡ true =
      rw (ap (λ x. x.role) k ∙ r, e, s, role_eq_refl role) (bool_eq_refl online) in
    rw chosen (inl k)
select-Member role online ((key, n) ∷ rest) node m (inr h) s r =
    elim (Bool-cases (role_eq key.role role && bool_eq (is_online n) online)) [
      | inl chosen ↦ rw chosen (inr (select-Member role online rest node m h s r))
      | inr passed ↦ rw passed (select-Member role online rest node m h s r)
    ]

-- get finds a node of the map with the ID, if there is one.
pub find_id-some :
    (id : ℕ) (xs : Cluster) (node : NodeInfo)
    → find_id id xs ≡ some node
    → (m : Option NodeMetadata) × Has node m xs × (node.id ≡ id)
unfolding find_id
find_id-some id [] node e = cc
find_id-some id ((key, n) ∷ rest) node e = elim (Bool-cases (key.id == id)) [
  | inl same ↦
      let k : key ≡ node = ground (arith, same, e) in
      (n, inl (k, refl), sym (ap (λ x. x.id) k) ∙ eq_of_== key.id id same)
  | inr differ ↦
      let (m, h, i) = find_id-some id rest node (ground (arith, differ, e)) in (m, inr h, i)
]

pub find_id-none :
    (id : ℕ) (xs : Cluster) (node : NodeInfo) (m : Option NodeMetadata)
    → find_id id xs ≡ none
    → Has node m xs
    → node.id ≢ id
unfolding find_id
find_id-none id [] node m e h = absurd h
find_id-none id ((key, n) ∷ rest) node m e (inl (k, _)) =
    λ i. ground (arith, e, ap (λ x. x.id) k, i)
find_id-none id ((key, n) ∷ rest) node m e (inr h) =
    find_id-none id rest node m (ground (arith, e)) h
