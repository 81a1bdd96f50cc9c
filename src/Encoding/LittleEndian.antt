-- ===== src/Encoding/LittleEndian.antt =====
-- `binary.LittleEndian.PutUint64`: eight bytes, the lowest first.
use native.Mathlib.Nat.{pow-suc}
use secureorder.Prelude.{
  ℕ, zero, suc, ◌+◌, ◌*◌, ◌/◌, ◌%◌, ◌^◌, ◌<◌, List, [], ◌∷◌, ◌≡◌, refl, sym, ap, ◌∙◌, arith, length,
}

-- The `k` lowest bytes of a number.
unfoldable pub le_bytes : ℕ → ℕ → List ℕ
le_bytes zero v = []
le_bytes (suc k) v = (v % 256) ∷ le_bytes k (v / 256)

unfoldable pub put_uint64 : ℕ → List ℕ
unfolding le_bytes
put_uint64 v = le_bytes 8 v

-- The number that little-endian bytes spell, as `binary.LittleEndian.Uint64` reads it.
pub from_le : List ℕ → ℕ
from_le [] = 0
from_le (b ∷ bs) = b + 256 * from_le bs

from_le-le_bytes : (k v : ℕ) → v < 256 ^ k → from_le (le_bytes k v) ≡ v
unfolding from_le le_bytes
from_le-le_bytes zero v h = omega arith
from_le-le_bytes (suc k) v h =
    omega (arith, from_le-le_bytes k (v / 256) (omega (arith, pow-suc 256 k)))

-- Every uint64 is read back from its eight bytes.
pub from_le-put_uint64 : (v : ℕ) → v < 2 ^ 64 → from_le (put_uint64 v) ≡ v
unfolding put_uint64
from_le-put_uint64 v h = from_le-le_bytes 8 v h

pub put_uint64_injective : (v w : ℕ) → v < 2 ^ 64 → w < 2 ^ 64 → put_uint64 v ≡ put_uint64 w → v ≡ w
put_uint64_injective v w hv hw e =
    sym (from_le-put_uint64 v hv) ∙ ap from_le e ∙ from_le-put_uint64 w hw

pub length-put_uint64 : (v : ℕ) → length (put_uint64 v) ≡ 8
unfolding put_uint64
length-put_uint64 v = refl
