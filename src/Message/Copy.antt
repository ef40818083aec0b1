-- ===== src/Message/Copy.antt =====
-- What copies into the bytes of a buffer do to them: `copy_at` of internal/protocol/message.go's
-- calls of copy, and the single stores as copies.
use go_dqlite.Prelude.{ℕ, zero, suc, ◌+◌, ◌≤◌, ◌≡◌, refl, ap, arith}
use go_dqlite.Prelude.{List, [], ◌∷◌, ◌++◌, length, take, set}
use go_dqlite.Message.Put.{copy_at}

pub length-copy_at : (bs : List ℕ) (o : ℕ) (vs : List ℕ) → length (copy_at bs o vs) ≡ length bs
unfolding copy_at
length-copy_at [] o vs = refl
length-copy_at (b ∷ bs) (suc o) vs = ap suc (length-copy_at bs o vs)
length-copy_at (b ∷ bs) zero [] = refl
length-copy_at (b ∷ bs) zero (v ∷ vs) = ap suc (length-copy_at bs zero vs)

-- The bytes up to the end of the copy.
pub take-copy_at :
    (bs : List ℕ) (o : ℕ) (vs : List ℕ)
    → o + length vs ≤ length bs
    → take (o + length vs) (copy_at bs o vs) ≡ take o bs ++ vs
unfolding copy_at
take-copy_at [] zero [] h = refl
take-copy_at [] zero (v ∷ vs) h = absurd (omega arith)
take-copy_at [] (suc o) vs h = absurd (omega arith)
take-copy_at (b ∷ bs) (suc o) vs h =
    let e : suc o + length vs ≡ suc (o + length vs) = omega arith in
    rw e (ap (◌∷◌ b) (take-copy_at bs o vs (omega arith)))
take-copy_at (b ∷ bs) zero [] h = refl
take-copy_at (b ∷ bs) zero (v ∷ vs) h =
    let e : 0 + length (v ∷ vs) ≡ suc (0 + length vs) = omega arith in
    rw e (ap (◌∷◌ v) (take-copy_at bs zero vs (omega arith)))

-- Two copies one behind the other are one copy.
pub copy_at-copy_at :
    (bs : List ℕ) (o : ℕ) (xs ys : List ℕ)
    → copy_at (copy_at bs o xs) (o + length xs) ys ≡ copy_at bs o (xs ++ ys)
unfolding copy_at
copy_at-copy_at [] o xs ys = refl
copy_at-copy_at (b ∷ bs) (suc o) xs ys =
    let e : suc o + length xs ≡ suc (o + length xs) = omega arith in
    rw e (ap (◌∷◌ b) (copy_at-copy_at bs o xs ys))
copy_at-copy_at (b ∷ bs) zero [] ys = refl
copy_at-copy_at (b ∷ bs) zero (x ∷ xs) ys =
    let e : 0 + length (x ∷ xs) ≡ suc (0 + length xs) = omega arith in
    rw e (ap (◌∷◌ x) (copy_at-copy_at bs zero xs ys))

pub set-eq-copy_at : (bs : List ℕ) (o v : ℕ) → set bs o v ≡ copy_at bs o (v ∷ [])
unfolding copy_at
set-eq-copy_at [] o v = refl
set-eq-copy_at (b ∷ []) zero v = refl
set-eq-copy_at (b ∷ c ∷ bs) zero v = refl
set-eq-copy_at (b ∷ bs) (suc o) v = ap (◌∷◌ b) (set-eq-copy_at bs o v)

pub copy_at-nil : (bs : List ℕ) (o : ℕ) → copy_at bs o [] ≡ bs
unfolding copy_at
copy_at-nil [] o = refl
copy_at-nil (b ∷ bs) zero = refl
copy_at-nil (b ∷ bs) (suc o) = ap (◌∷◌ b) (copy_at-nil bs o)
