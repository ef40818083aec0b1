-- ===== src/App/Roles/Count.antt =====
-- The lengths of the lists of app/roles.go do not depend on the order of the iteration.
use go_dqlite.Prelude.{ℕ, ◌≡◌, refl, subst}
use go_dqlite.Prelude.{
  Bool, true, false, ◌&&◌, Option, List, ◌∷◌, length, length-perm, if◌then◌else◌,
}
use go_dqlite.Node.{NodeInfo, NodeRole}
use go_dqlite.App.Roles.{
  NodeMetadata, Cluster, RolesChanges, role_eq, is_online, bool_eq, select, list,
}
use go_dqlite.App.Roles.Runtime.{IsRuntime, Candidate}
use mathlib.Core.List.{Permᴰ}
use mathlib.Core.List.Permᴰ

-- Whether an entry is collected.
chosen : NodeRole → Bool → NodeInfo × Option NodeMetadata → Bool
chosen role online e = role_eq e.0.role role && bool_eq (is_online e.1) online

keep : Bool → NodeInfo → List NodeInfo → List NodeInfo
keep b node others = if b then node ∷ others else others

keep-perm :
    (b : Bool) (node : NodeInfo) {xs ys : List NodeInfo}
    → Permᴰ xs ys
    → Permᴰ (keep b node xs) (keep b node ys)
unfolding keep
keep-perm true node p = Permᴰ.cons refl p
keep-perm false node p = p

keep-swap :
    (a b : Bool) (m n : NodeInfo) (xs : List NodeInfo)
    → Permᴰ (keep a m (keep b n xs)) (keep b n (keep a m xs))
unfolding keep
keep-swap true true m n xs = Permᴰ.swap refl refl
keep-swap true false m n xs = Permᴰ.refl (m ∷ xs)
keep-swap false true m n xs = Permᴰ.refl (n ∷ xs)
keep-swap false false m n xs = Permᴰ.refl xs

pub select-perm :
    (role : NodeRole) (online : Bool) {xs ys : Cluster}
    → Permᴰ xs ys
    → Permᴰ (select role online xs) (select role online ys)
unfolding select chosen keep
select-perm role online Permᴰ.nil = Permᴰ.nil
select-perm role online (Permᴰ.cons {a = x} {b = y} {l₁ = l} {l₂ = r} e p) =
    subst (λ z. Permᴰ (select role online (x ∷ l)) (select role online (z ∷ r))) e
      (keep-perm (chosen role online x) x.0 (select-perm role online p))
select-perm role online (Permᴰ.swap {a = x} {b = y} {a' = u} {b' = w} {l = l} e f) =
    subst (λ z. Permᴰ (select role online (x ∷ y ∷ l)) (select role online (z ∷ w ∷ l))) f
      (subst (λ z. Permᴰ (select role online (x ∷ y ∷ l)) (select role online (y ∷ z ∷ l))) e
        (keep-swap (chosen role online x) (chosen role online y) x.0 y.0 (select role online l)))
select-perm role online (Permᴰ.trans p q) =
    Permᴰ.trans (select-perm role online p) (select-perm role online q)

-- How many nodes have a role and a status.
abbrev pub count : RolesChanges → NodeRole → Bool → ℕ
count c role online = length (select role online c.state)

pub length-list :
    (order : ℕ → Cluster → Cluster)
    (sort : (Candidate → Candidate → Bool) → List Candidate → List Candidate) (c : RolesChanges)
    → IsRuntime order sort
    → (k : ℕ) (role : NodeRole) (online : Bool)
    → length (list order sort c k role online) ≡ count c role online
unfolding list
length-list order sort c rt k role online =
    length-perm (select-perm role online (rt.order_perm k c.state))
