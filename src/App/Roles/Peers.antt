-- ===== src/App/Roles/Peers.antt =====
-- The removal of a node from its peers in Handover of app/roles.go.
use go_dqlite.Prelude.{ℕ, ◌≡◌, ◌≢◌, refl, ap, sym, subst, ◌∙◌, arith, inl, inr}
use go_dqlite.Prelude.{
  Bool, ◌&&◌, List, [], ◌∷◌, All, All-mono, All-perm, All-member, Member, Bool-cases, ◌==◌,
  eq_of_==,
}
use go_dqlite.Node.{NodeInfo, NodeRole}
use go_dqlite.App.Roles.{
  Cluster, RolesChanges, role_eq, bool_eq, is_online, select, list, remove_id,
}
use go_dqlite.App.Roles.Runtime.{IsRuntime, Candidate}
use go_dqlite.App.Roles.Members.{Has, IsMap, IsListed, select-All}
use go_dqlite.App.Roles.Count.{select-perm}
use mathlib.Core.List.{Permᴰ}
use mathlib.Core.List.Permᴰ

-- No node occurs twice.
abbrev pub Apart : List NodeInfo → Type 0
Apart [] = Unit
Apart (x ∷ xs) = All (λ y. y ≢ x) xs × Apart xs

Apart-perm : {xs ys : List NodeInfo} → Permᴰ xs ys → Apart xs → Apart ys
Apart-perm Permᴰ.nil h = tt
Apart-perm (Permᴰ.cons {l₂ = r} e p) (h, hs) =
    (subst (λ z. All (λ y. y ≢ z) r) e (All-perm _ p h), Apart-perm p hs)
Apart-perm (Permᴰ.swap {a = x} {b = y} {a' = u} {b' = w} {l = l} e f) ((n, h), (k, hs)) =
    subst (λ z. Apart (z ∷ w ∷ l)) f
      (subst (λ z. Apart (y ∷ z ∷ l)) e ((λ q. n (sym q), k), (h, hs)))
Apart-perm (Permᴰ.trans p q) h = Apart-perm q (Apart-perm p h)

select-Apart :
    (role : NodeRole) (online : Bool) (xs : Cluster) → IsMap xs → Apart (select role online xs)
unfolding select
select-Apart role online [] d = tt
select-Apart role online ((node, m) ∷ rest) (new, d) =
    elim (Bool-cases (role_eq node.role role && bool_eq (is_online m) online)) [
      | inl chosen ↦ rw chosen (
        All-mono (IsListed rest role online) (λ y. y ≢ node) (select role online rest)
            (λ y l e. new l.metadata (subst (λ z. Has z l.metadata rest) e l.has))
            (select-All role online rest),
        select-Apart role online rest d,
      )
      | inr passed ↦ rw passed (select-Apart role online rest d)
    ]

-- `peers` are the nodes but for one, which has the ID.
pub record IsRest (id : ℕ) (nodes peers : List NodeInfo) (gone : NodeInfo) : Type 0 where
  pub id_is : gone.id ≡ id
  pub sound : (x : NodeInfo) → Member x peers → Member x nodes × (x ≢ gone)
  pub complete : (x : NodeInfo) → Member x nodes → x ≢ gone → Member x peers

-- The node that remove_id removes; where none has the ID, any node with it will do.
pub remove_id_lem :
    (node : NodeInfo) (nodes : List NodeInfo)
    → Apart nodes
    → (gone : NodeInfo) × IsRest node.id nodes (remove_id node.id nodes) gone
unfolding remove_id
remove_id_lem node [] h =
    (node, record { id_is = refl; sound = λ x k. absurd k; complete = λ x k n. k })
remove_id_lem node (y ∷ nodes) (h, hs) = elim (Bool-cases (y.id == node.id)) [
  | inl same ↦ (
    y,
    rw same (record {
      id_is = eq_of_== y.id node.id same;
      sound = λ x k. (inr k, All-member (λ z. z ≢ y) x nodes h k);
      complete = λ x k n. elim k [ inl e ↦ absurd (n (sym e)) | inr i ↦ i ];
    }),
  )
  | inr differ ↦
      let (gone, r) = remove_id_lem node nodes hs in
      (
        gone,
        rw differ (record {
          id_is = r.id_is;
          sound = λ x k. elim k [
            | inl e ↦ (inl e, λ g. ground (arith, differ, r.id_is, ap (λ z. z.id) (e ∙ g)))
            | inr i ↦ let (j, n) = r.sound x i in (inr j, n)
          ];
          complete = λ x k n. elim k [ inl e ↦ inl e | inr i ↦ inr (r.complete x i n) ];
        }),
      )
]

pub list-Apart :
    (order : ℕ → Cluster → Cluster)
    (sort : (Candidate → Candidate → Bool) → List Candidate → List Candidate) (c : RolesChanges)
    → IsRuntime order sort
    → IsMap c.state
    → (k : ℕ) (role : NodeRole) (online : Bool) → Apart (list order sort c k role online)
unfolding list
list-Apart order sort c rt distinct k role online =
    Apart-perm (select-perm role online (Permᴰ.symm (rt.order_perm k c.state)))
      (select-Apart role online c.state distinct)
