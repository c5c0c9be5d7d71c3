-- ===== src/Framing/Digits.antt =====
-- `to_be_bytes`, `from_be_bytes` and their little-endian versions, for any width.
use native.Mathlib.Nat.{pow-suc}
use bft_rs.Prelude.{
  ℕ, zero, suc, ◌+◌, ◌*◌, ◌/◌, ◌%◌, ◌^◌, ◌<◌, ◌≡◌, refl, ap, [], ◌∷◌, ◌++◌, length, length-append,
  arith,
}
use bft_rs.Objects.{Bytes}

unfoldable pub to_be_bytes : ℕ → ℕ → Bytes
to_be_bytes zero n = []
to_be_bytes (suc k) n = to_be_bytes k (n / 256) ++ (n % 256 ∷ [])

unfoldable pub be_from : ℕ → Bytes → ℕ
be_from acc [] = acc
be_from acc (b ∷ bs) = be_from (acc * 256 + b) bs

unfoldable pub from_be_bytes : Bytes → ℕ
unfolding be_from
from_be_bytes bs = be_from 0 bs

unfoldable pub to_le_bytes : ℕ → ℕ → Bytes
to_le_bytes zero n = []
to_le_bytes (suc k) n = n % 256 ∷ to_le_bytes k (n / 256)

unfoldable pub from_le_bytes : Bytes → ℕ
from_le_bytes [] = 0
from_le_bytes (b ∷ bs) = b + 256 * from_le_bytes bs

pub length-to_be_bytes : (k n : ℕ) → length (to_be_bytes k n) ≡ k
unfolding to_be_bytes
length-to_be_bytes zero n = refl
length-to_be_bytes (suc k) n =
    omega (
      arith,
      length-to_be_bytes k (n / 256),
      length-append (to_be_bytes k (n / 256)) (n % 256 ∷ []),
    )

pub length-to_le_bytes : (k n : ℕ) → length (to_le_bytes k n) ≡ k
unfolding to_le_bytes
length-to_le_bytes zero n = refl
length-to_le_bytes (suc k) n = ap suc (length-to_le_bytes k (n / 256))

be_from-append :
    (acc : ℕ) (xs : Bytes) (b : ℕ) → be_from acc (xs ++ (b ∷ [])) ≡ be_from acc xs * 256 + b
unfolding be_from
be_from-append acc [] b = refl
be_from-append acc (x ∷ xs) b = be_from-append (acc * 256 + x) xs b

div_lt : (k n : ℕ) → n < 256 ^ suc k → n / 256 < 256 ^ k
div_lt k n h = let e = pow-suc 256 k in omega (arith, e)

-- A number that fits in `k` bytes is read back from them.
pub from_be_bytes-to_be_bytes : (k n : ℕ) → n < 256 ^ k → from_be_bytes (to_be_bytes k n) ≡ n
unfolding from_be_bytes to_be_bytes
from_be_bytes-to_be_bytes zero n h = omega arith
from_be_bytes-to_be_bytes (suc k) n h = omega (
  arith,
  be_from-append 0 (to_be_bytes k (n / 256)) (n % 256),
  from_be_bytes-to_be_bytes k (n / 256) (div_lt k n h),
)

pub from_le_bytes-to_le_bytes : (k n : ℕ) → n < 256 ^ k → from_le_bytes (to_le_bytes k n) ≡ n
unfolding from_le_bytes to_le_bytes
from_le_bytes-to_le_bytes zero n h = omega arith
from_le_bytes-to_le_bytes (suc k) n h =
    omega (arith, from_le_bytes-to_le_bytes k (n / 256) (div_lt k n h))
