-- ===== src/App/Roles/Runtime.antt =====
-- What app/roles.go relies on of the Go runtime: the iteration of maps and sort.Slice.
use go_dqlite.Prelude.{ℕ, ◌≡◌, ◌⊎◌, Bool, true, false, List, [], ◌∷◌, All}
use go_dqlite.Node.{NodeInfo}
use go_dqlite.App.Roles.{NodeMetadata, Cluster}
use mathlib.Core.List.{Permᴰ}

-- A strict weak order, which sort.Slice asks of its comparison.
pub record IsWeakOrder {A : Type 0} (less : A → A → Bool) : Type 0 where
  pub asymm : (x y : A) → less x y ≡ true → less y x ≡ false
  pub cotrans : (x y z : A) → less x z ≡ true → (less x y ≡ true) ⊎ (less y z ≡ true)

-- No later element is less than an earlier one.
abbrev pub IsSortedBy : {A : Type 0} → (A → A → Bool) → List A → Type 0
IsSortedBy less [] = Unit
IsSortedBy less (x ∷ xs) = All (λ y. less y x ≡ false) xs × IsSortedBy less xs

abbrev pub Candidate : Type 0
Candidate = NodeInfo × NodeMetadata

-- An iteration visits every entry of the map once, in some order; sort.Slice permutes its slice, and
-- sorts it if the comparison is a strict weak order.
pub record IsRuntime (order : ℕ → Cluster → Cluster)
    (sort : (Candidate → Candidate → Bool) → List Candidate → List Candidate) : Type 0 where
  pub order_perm : (k : ℕ) (xs : Cluster) → Permᴰ (order k xs) xs
  pub sort_perm :
      (less : Candidate → Candidate → Bool) (xs : List Candidate) → Permᴰ (sort less xs) xs
  pub sort_sorts :
      (less : Candidate → Candidate → Bool) (xs : List Candidate)
      → IsWeakOrder less
      → IsSortedBy less (sort less xs)
