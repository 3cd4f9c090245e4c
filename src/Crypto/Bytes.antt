-- ===== src/Crypto/Bytes.antt =====
-- Numbers as bytes: `to_le_bytes`, `from_le_bytes` and `to_be_bytes` of the standard library.
use ubod.Base.{ℕ, zero, suc, ◌+◌, ◌*◌, ◌/◌, ◌%◌, ◌^◌, ◌<◌, ◌≡◌, refl, arith, List, [], ◌∷◌, length}

abbrev pub to_le : ℕ → ℕ → List ℕ
to_le zero n = []
to_le (suc w) n = n % 256 ∷ to_le w (n / 256)

abbrev pub from_le : List ℕ → ℕ
from_le [] = 0
from_le (b ∷ bs) = b + 256 * from_le bs

abbrev pub to_be : ℕ → ℕ → List ℕ
to_be zero n = []
to_be (suc w) n = n / 256 ^ w % 256 ∷ to_be w n

pub length-to_le : (w n : ℕ) → length (to_le w n) ≡ w
length-to_le zero n = refl
length-to_le (suc w) n = omega (arith, length-to_le w (n / 256))

-- `u32::from_le_bytes` takes back what `to_le_bytes` wrote.
pub from_le-to_le : (n : ℕ) → n < 4294967296 → from_le (to_le 4 n) ≡ n
from_le-to_le n h = omega arith
