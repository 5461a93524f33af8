-- ===== src/Base/Bits.antt =====
-- `&` and `|` on machine words as arithmetic: both act on the binary digits one by one, so they
-- commute with a shift to the right and with cutting off the high digits.
use Prim.Native.Nat.{
  ℕ, zero, suc, ◌+◌, ◌-◌, ◌*◌, ◌/◌, ◌%◌, ◌^◌, ◌≤◌, ◌<◌, min, max, bit_and, bit_or, digits,
  bit_and-bitwise, bit_or-bitwise,
}
use mathlib.Core.Path.{◌≡◌, refl, ap}
use native.Mathlib.Nat.{pow-suc, one-le-pow, mod-lt, div-add-mod'}
use native.Mathlib.Omega.{arith}

module _ (rest : ℕ → ℕ) (digit : ℕ → ℕ → ℕ) where
  abbrev upto : ℕ → ℕ → ℕ → ℕ
  upto n a b = digits rest digit n a b

  -- Any count of digits that covers the first number gives the same result.
  upto_enough : (n m a b : ℕ) → a ≤ n → a ≤ m → upto n a b ≡ upto m a b
  upto_enough zero zero a b p q = refl
  upto_enough zero (suc m) zero b p q = refl
  upto_enough zero (suc m) (suc a) b p q = absurd (omega arith)
  upto_enough (suc n) zero zero b p q = refl
  upto_enough (suc n) zero (suc a) b p q = absurd (omega arith)
  upto_enough (suc n) (suc m) zero b p q = refl
  upto_enough (suc n) (suc m) (suc a) b p q =
      omega (arith, upto_enough n m (suc a / 2) (b / 2) (omega arith) (omega arith))

pub bit_and_step : (a b : ℕ) → bit_and a b ≡ bit_and (a / 2) (b / 2) * 2 + min (a % 2) (b % 2)
bit_and_step zero b = omega (arith, bit_and-bitwise 0 b, bit_and-bitwise 0 (b / 2))
bit_and_step (suc a) b = omega (
  arith,
  bit_and-bitwise (suc a) b,
  bit_and-bitwise (suc a / 2) (b / 2),
  upto_enough (λ y. 0) min a (suc a / 2) (suc a / 2) (b / 2) (omega arith) (omega arith),
)

pub bit_or_step : (a b : ℕ) → bit_or a b ≡ bit_or (a / 2) (b / 2) * 2 + max (a % 2) (b % 2)
bit_or_step zero b = omega (arith, bit_or-bitwise 0 b, bit_or-bitwise 0 (b / 2))
bit_or_step (suc a) b = omega (
  arith,
  bit_or-bitwise (suc a) b,
  bit_or-bitwise (suc a / 2) (b / 2),
  upto_enough (λ y. y) max a (suc a / 2) (suc a / 2) (b / 2) (omega arith) (omega arith),
)

below_one : (r : ℕ) → r < 2 ^ 0 → r ≡ 0
below_one r h = omega arith

doubled : (q k : ℕ) → q * 2 ^ suc k ≡ 2 * (q * 2 ^ k)
doubled q k = omega (arith, ap (λ (t : ℕ). q * t) (pow-suc 2 k))

-- Cut both words at digit `k`: the parts above and below are worked on apart.
module _ (q p : ℕ) where
  pub bit_and_split :
      (k r s : ℕ)
      → r < 2 ^ k
      → s < 2 ^ k
      → bit_and (q * 2 ^ k + r) (p * 2 ^ k + s) ≡ bit_and q p * 2 ^ k + bit_and r s
  bit_and_split zero r s hr hs =
      rw (below_one r hr, below_one s hs) (ground (arith, bit_and-bitwise 0 0))
  bit_and_split (suc k) r s hr hs = ground (
    arith,
    bit_and_step (q * 2 ^ suc k + r) (p * 2 ^ suc k + s),
    bit_and_step r s,
    doubled q k,
    doubled p k,
    doubled (bit_and q p) k,
    pow-suc 2 k,
    bit_and_split k (r / 2) (s / 2) (omega (arith, pow-suc 2 k)) (omega (arith, pow-suc 2 k)),
  )

  pub bit_or_split :
      (k r s : ℕ)
      → r < 2 ^ k
      → s < 2 ^ k
      → bit_or (q * 2 ^ k + r) (p * 2 ^ k + s) ≡ bit_or q p * 2 ^ k + bit_or r s
  bit_or_split zero r s hr hs =
      rw (below_one r hr, below_one s hs) (ground (arith, bit_or-bitwise 0 0))
  bit_or_split (suc k) r s hr hs = ground (
    arith,
    bit_or_step (q * 2 ^ suc k + r) (p * 2 ^ suc k + s),
    bit_or_step r s,
    doubled q k,
    doubled p k,
    doubled (bit_or q p) k,
    pow-suc 2 k,
    bit_or_split k (r / 2) (s / 2) (omega (arith, pow-suc 2 k)) (omega (arith, pow-suc 2 k)),
  )

pub zero-bit_and : (b : ℕ) → bit_and 0 b ≡ 0
zero-bit_and b = bit_and-bitwise 0 b

pub zero-bit_or : (b : ℕ) → bit_or 0 b ≡ b
zero-bit_or b = bit_or-bitwise 0 b

halves_to_zero : (n a : ℕ) → a ≤ n → bit_and a 0 ≡ 0
halves_to_zero n zero h = zero-bit_and 0
halves_to_zero zero (suc a) h = absurd (omega arith)
halves_to_zero (suc n) (suc a) h =
    omega (arith, bit_and_step (suc a) 0, halves_to_zero n (suc a / 2) (omega arith))

pub bit_and-zero : (a : ℕ) → bit_and a 0 ≡ 0
bit_and-zero a = halves_to_zero a a (omega arith)

halves_to_self : (n a : ℕ) → a ≤ n → bit_or a 0 ≡ a
halves_to_self n zero h = zero-bit_or 0
halves_to_self zero (suc a) h = absurd (omega arith)
halves_to_self (suc n) (suc a) h =
    omega (arith, bit_or_step (suc a) 0, halves_to_self n (suc a / 2) (omega arith))

pub bit_or-zero : (a : ℕ) → bit_or a 0 ≡ a
bit_or-zero a = halves_to_self a a (omega arith)

pub pow_pos : (k : ℕ) → 1 ≤ 2 ^ k
pow_pos k = one-le-pow k 2 (omega arith)

half_mask : (k : ℕ) → (2 ^ suc k - 1) / 2 ≡ 2 ^ k - 1
half_mask k = omega (arith, pow-suc 2 k, pow_pos k)

below_mask : (k r : ℕ) → r < 2 ^ k → bit_and r (2 ^ k - 1) ≡ r
below_mask zero r h = rw (below_one r h) (zero-bit_and 0)
below_mask (suc k) r h = omega (
  arith,
  bit_and_step r (2 ^ suc k - 1),
  pow-suc 2 k,
  pow_pos k,
  below_mask k (r / 2) (omega (arith, pow-suc 2 k)),
  ap (λ (t : ℕ). bit_and (r / 2) t) (half_mask k),
)

-- A mask of `k` ones keeps the `k` low digits.
pub bit_and_mask : (k a : ℕ) → bit_and a (2 ^ k - 1) ≡ a % 2 ^ k
bit_and_mask k a = ground (
  arith,
  bit_and_split (a / 2 ^ k) 0 k (a % 2 ^ k) (2 ^ k - 1),
  mod-lt a (pow_pos k),
  pow_pos k,
  div-add-mod' a (2 ^ k),
  bit_and-zero (a / 2 ^ k),
  below_mask k (a % 2 ^ k),
)

-- A mask over the digits from `k` on works on what is left of them.
pub bit_and_high : (k a m : ℕ) → bit_and a (m * 2 ^ k) ≡ bit_and (a / 2 ^ k) m * 2 ^ k
bit_and_high k a m = ground (
  arith,
  bit_and_split (a / 2 ^ k) m k (a % 2 ^ k) 0,
  mod-lt a (pow_pos k),
  pow_pos k,
  div-add-mod' a (2 ^ k),
  bit_and-zero (a % 2 ^ k),
)

-- Fields that do not overlap are joined by a sum.
pub bit_or_fields : (k hi lo : ℕ) → lo < 2 ^ k → bit_or lo (hi * 2 ^ k) ≡ lo + hi * 2 ^ k
bit_or_fields k hi lo h =
    ground (arith, bit_or_split 0 hi k lo 0, pow_pos k, bit_or-zero lo, zero-bit_or hi)
