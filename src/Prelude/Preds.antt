-- ===== src/Prelude/Preds.antt =====
-- A predicate of all elements, and permutations with their derivation.
use Prim.Native.Nat.{suc}
use mathlib.Core.Path.{◌≡◌, refl, ap, sym, subst, ◌∙◌}
use mathlib.Core.List.{List, [], ◌∷◌, ◌++◌, map, Permᴰ}
use mathlib.Core.Logic.{◌⊎◌, inl, inr}
use native.Mathlib.Omega.{arith}
use go_dqlite.Prelude.Lists.{length, All}

module _ {ℓ κ} {A : Type ℓ} (P : A → Type κ) where
  pub All-append : (xs ys : List A) → All P xs → All P ys → All P (xs ++ ys)
  All-append [] ys h k = k
  All-append (x ∷ xs) ys (h, hs) k = (h, All-append xs ys hs k)

  pub All-perm : {xs ys : List A} → Permᴰ xs ys → All P xs → All P ys
  All-perm Permᴰ.nil h = tt
  All-perm (Permᴰ.cons e p) (h, hs) = (subst P e h, All-perm p hs)
  All-perm (Permᴰ.swap e f) (h, (k, hs)) = (subst P f k, (subst P e h, hs))
  All-perm (Permᴰ.trans p q) h = All-perm q (All-perm p h)

module _ {ℓ κ μ} {A : Type ℓ} (P : A → Type κ) (Q : A → Type μ) where
  pub All-mono : (xs : List A) → ((x : A) → P x → Q x) → All P xs → All Q xs
  All-mono [] f h = tt
  All-mono (x ∷ xs) f (h, hs) = (f x h, All-mono xs f hs)

module _ {ℓ} {A : Type ℓ} where
  pub length-perm : {xs ys : List A} → Permᴰ xs ys → length xs ≡ length ys
  length-perm Permᴰ.nil = refl
  length-perm (Permᴰ.cons e p) = ap suc (length-perm p)
  length-perm (Permᴰ.swap e f) = refl
  length-perm (Permᴰ.trans p q) = length-perm p ∙ length-perm q

module _ {ℓ κ} {A : Type ℓ} {B : Type κ} where
  pub map-perm : {xs ys : List A} (f : A → B) → Permᴰ xs ys → Permᴰ (map f xs) (map f ys)
  map-perm f Permᴰ.nil = Permᴰ.nil
  map-perm f (Permᴰ.cons e p) = Permᴰ.cons (ap f e) (map-perm f p)
  map-perm f (Permᴰ.swap e g) = Permᴰ.swap (ap f e) (ap f g)
  map-perm f (Permᴰ.trans p q) = Permᴰ.trans (map-perm f p) (map-perm f q)

-- Membership with its position.
module _ {A : Type 0} where
  abbrev pub Member : A → List A → Type 0
  Member a [] = ⊥
  Member a (x ∷ xs) = (x ≡ a) ⊎ Member a xs

  pub Member-append_left : (a : A) (xs ys : List A) → Member a xs → Member a (xs ++ ys)
  Member-append_left a [] ys h = absurd h
  Member-append_left a (x ∷ xs) ys (inl e) = inl e
  Member-append_left a (x ∷ xs) ys (inr h) = inr (Member-append_left a xs ys h)

  pub Member-append_right : (a : A) (xs ys : List A) → Member a ys → Member a (xs ++ ys)
  Member-append_right a [] ys h = h
  Member-append_right a (x ∷ xs) ys h = inr (Member-append_right a xs ys h)

  pub Member-perm : {xs ys : List A} (a : A) → Permᴰ xs ys → Member a xs → Member a ys
  Member-perm a Permᴰ.nil h = absurd h
  Member-perm a (Permᴰ.cons e p) (inl k) = inl (sym e ∙ k)
  Member-perm a (Permᴰ.cons e p) (inr h) = inr (Member-perm a p h)
  Member-perm a (Permᴰ.swap e f) (inl k) = inr (inl (sym e ∙ k))
  Member-perm a (Permᴰ.swap e f) (inr (inl k)) = inl (sym f ∙ k)
  Member-perm a (Permᴰ.swap e f) (inr (inr h)) = inr (inr h)
  Member-perm a (Permᴰ.trans p q) h = Member-perm a q (Member-perm a p h)

  -- What holds of all elements holds of each.
  pub All-member : (P : A → Type 0) (a : A) (xs : List A) → All P xs → Member a xs → P a
  All-member P a [] h m = absurd m
  All-member P a (x ∷ xs) (h, hs) (inl e) = subst P e h
  All-member P a (x ∷ xs) (h, hs) (inr m) = All-member P a xs hs m

  pub nil-perm : {xs : List A} → Permᴰ [] xs → xs ≡ []
  nil-perm {xs} p = go xs (length-perm p)
    where
      go : (ys : List A) → length {A = A} [] ≡ length ys → ys ≡ []
      go [] e = refl
      go (y ∷ ys) e = absurd (omega arith)
