-- ===== src/Message/Bytes.antt =====
-- Little-endian words and the padding of a body, as encoding/binary and message.go compute them.
use go_dqlite.Prelude.{ℕ, zero, suc, ◌+◌, ◌-◌, ◌*◌, ◌/◌, ◌%◌, ◌^◌, ◌<◌, ◌≡◌, refl, ap, arith}
use go_dqlite.Prelude.{List, [], ◌∷◌, length}
use native.Mathlib.Nat.{pow-suc}

-- The `w` bytes that encoding/binary.LittleEndian.PutUint writes for a number of `w` bytes.
unfoldable pub le_bytes : ℕ → ℕ → List ℕ
le_bytes zero v = []
le_bytes (suc w) v = (v % 256) ∷ le_bytes w (v / 256)

-- encoding/binary.LittleEndian.Uint.
unfoldable pub from_le : List ℕ → ℕ
from_le [] = 0
from_le (b ∷ bs) = b + 256 * from_le bs

pub length-le_bytes : (w v : ℕ) → length (le_bytes w v) ≡ w
unfolding le_bytes
length-le_bytes zero v = refl
length-le_bytes (suc w) v = ap suc (length-le_bytes w (v / 256))

pub from_le-le_bytes : (w v : ℕ) → v < 256 ^ w → from_le (le_bytes w v) ≡ v
unfolding le_bytes from_le
from_le-le_bytes zero v h = omega arith
from_le-le_bytes (suc w) v h = omega (arith, from_le-le_bytes w (v / 256) (omega (arith, pow-suc)))

-- The padding that aligns a length to a word.
unfoldable pub padding : ℕ → ℕ
padding n = (8 - n % 8) % 8

pub padding_lem : (n : ℕ) → ((n + padding n) % 8 ≡ 0) × (padding n < 8)
unfolding padding
padding_lem n = omega arith
