-- ===== src/Examples/Sorting.antt =====
-- A runtime for app/roles.go: maps iterated in the order of their list, and an insertion sort.
use go_dqlite.Prelude.{ℕ, ◌≡◌, refl, inl, inr, Bool, false, List, [], ◌∷◌}
use go_dqlite.Prelude.{All, All-mono, Bool-cases, if◌then◌else◌}
use go_dqlite.App.Roles.{Cluster}
use go_dqlite.App.Roles.Runtime.{IsWeakOrder, IsSortedBy, IsRuntime}
use mathlib.Core.List.{Permᴰ}
use mathlib.Core.List.Permᴰ

unfoldable pub in_order : ℕ → Cluster → Cluster
in_order k xs = xs

module _ {A : Type 0} (less : A → A → Bool) where
  unfoldable pub insert : A → List A → List A
  insert x [] = x ∷ []
  insert x (y ∷ ys) = let rest = insert x ys in if less y x then y ∷ rest else x ∷ y ∷ ys

  unfoldable pub insertion_sort : List A → List A
  unfolding insert
  insertion_sort [] = []
  insertion_sort (x ∷ xs) = insert x (insertion_sort xs)

  insert-perm : (x : A) (xs : List A) → Permᴰ (insert x xs) (x ∷ xs)
  unfolding insert
  insert-perm x [] = Permᴰ.refl (x ∷ [])
  insert-perm x (y ∷ ys) = elim (Bool-cases (less y x)) [
    | inl e ↦ rw e (Permᴰ.trans (Permᴰ.cons refl (insert-perm x ys)) (Permᴰ.swap refl refl))
    | inr e ↦ rw e (Permᴰ.refl (x ∷ y ∷ ys))
  ]

  insertion_sort-perm : (xs : List A) → Permᴰ (insertion_sort xs) xs
  unfolding insertion_sort
  insertion_sort-perm [] = Permᴰ.nil
  insertion_sort-perm (x ∷ xs) =
      Permᴰ.trans (insert-perm x (insertion_sort xs)) (Permᴰ.cons refl (insertion_sort-perm xs))

  All-insert : (P : A → Type 0) (x : A) (xs : List A) → P x → All P xs → All P (insert x xs)
  unfolding insert
  All-insert P x [] p h = (p, tt)
  All-insert P x (y ∷ ys) p (q, h) = elim (Bool-cases (less y x)) [
    | inl e ↦ rw e (q, All-insert P x ys p h)
    | inr e ↦ rw e (p, (q, h))
  ]

  module _ (w : IsWeakOrder less) where
    not_less_trans : (x y z : A) → less x y ≡ false → less y z ≡ false → less x z ≡ false
    not_less_trans x y z e f = elim (Bool-cases (less x z)) [
      | inr g ↦ g
      | inl g ↦ elim (w.cotrans x y z g) [ inl h ↦ cc | inr h ↦ cc ]
    ]

    insert-IsSortedBy : (x : A) (xs : List A) → IsSortedBy less xs → IsSortedBy less (insert x xs)
    unfolding insert
    insert-IsSortedBy x [] h = (tt, tt)
    insert-IsSortedBy x (y ∷ ys) (h, hs) = elim (Bool-cases (less y x)) [
      | inl e ↦
          rw e
            (All-insert (λ z. less z y ≡ false) x ys (w.asymm y x e) h, insert-IsSortedBy x ys hs)
      | inr e ↦ rw e (
        (
          e,
          All-mono (λ z. less z y ≡ false) (λ z. less z x ≡ false) ys
              (λ z k. not_less_trans z y x k e) h,
        ),
        (h, hs),
      )
    ]

    insertion_sort-IsSortedBy : (xs : List A) → IsSortedBy less (insertion_sort xs)
    unfolding insertion_sort
    insertion_sort-IsSortedBy [] = tt
    insertion_sort-IsSortedBy (x ∷ xs) =
        insert-IsSortedBy x (insertion_sort xs) (insertion_sort-IsSortedBy xs)

pub runtime : IsRuntime in_order (λ less. insertion_sort less)
unfolding in_order
runtime = record {
  order_perm = λ k xs. Permᴰ.refl xs;
  sort_perm = λ less xs. insertion_sort-perm less xs;
  sort_sorts = λ less xs w. insertion_sort-IsSortedBy less w xs;
}
