-- ===== src/Prelude/Bits.antt =====
-- What `|` and `&` do on fields that do not overlap, at every width.
use Prim.Native.Nat.{
  ℕ, zero, suc, ◌+◌, ◌-◌, ◌*◌, ◌/◌, ◌%◌, ◌^◌, ◌≤◌, ◌<◌, min, max, digits, bitwise, bit_and, bit_or,
  bit_and-bitwise, bit_or-bitwise,
}
use mathlib.Core.Path.{◌≡◌, refl, ap, ◌∙◌}
use native.Mathlib.Nat.{pow-suc, one-le-pow, le_refl, div-div-eq-div-mul}
use native.Mathlib.Omega.{arith}

-- The digit recursion does not depend on its fuel, once that is enough.
module _ (z : ℕ → ℕ) (op : ℕ → ℕ → ℕ) where
  digits_enough :
      (fuel more x y : ℕ) → x ≤ fuel → x ≤ more → digits z op fuel x y ≡ digits z op more x y
  digits_enough zero zero x y p q = refl
  digits_enough zero (suc more) zero y p q = refl
  digits_enough zero (suc more) (suc x) y p q = absurd (omega arith)
  digits_enough (suc fuel) zero zero y p q = refl
  digits_enough (suc fuel) zero (suc x) y p q = absurd (omega arith)
  digits_enough (suc fuel) (suc more) zero y p q = refl
  digits_enough (suc fuel) (suc more) (suc x) y p q =
      rw (digits_enough fuel more (suc x / 2) (y / 2) (omega arith) (omega arith))

  bitwise_low_digit :
      (x y : ℕ)
      → bitwise z op (suc x) y ≡ bitwise z op (suc x / 2) (y / 2) * 2 + op (suc x % 2) (y % 2)
  bitwise_low_digit x y =
      omega (arith, digits_enough x (suc x / 2) (suc x / 2) (y / 2) (omega arith) (le_refl _))

or_low_digit : (x y : ℕ) → bit_or x y ≡ bit_or (x / 2) (y / 2) * 2 + max (x % 2) (y % 2)
or_low_digit zero y = simp bit_or-bitwise (omega arith)
or_low_digit (suc x) y = simp bit_or-bitwise (bitwise_low_digit (λ d. d) max x y)

and_low_digit : (x y : ℕ) → bit_and x y ≡ bit_and (x / 2) (y / 2) * 2 + min (x % 2) (y % 2)
and_low_digit zero y = simp bit_and-bitwise (omega arith)
and_low_digit (suc x) y = simp bit_and-bitwise (bitwise_low_digit (λ d. 0) min x y)

or_zero_below : (n x : ℕ) → x ≤ n → bit_or x 0 ≡ x
or_zero_below n zero h = refl
or_zero_below zero (suc x) h = absurd (omega arith)
or_zero_below (suc n) (suc x) h =
    omega (arith, or_low_digit (suc x) 0, or_zero_below n (suc x / 2) (omega arith))

and_zero_below : (n x : ℕ) → x ≤ n → bit_and x 0 ≡ 0
and_zero_below n zero h = refl
and_zero_below zero (suc x) h = absurd (omega arith)
and_zero_below (suc n) (suc x) h =
    omega (arith, and_low_digit (suc x) 0, and_zero_below n (suc x / 2) (omega arith))

pub zero-bit_or : (x : ℕ) → bit_or 0 x ≡ x
zero-bit_or x = simp bit_or-bitwise (omega arith)

double_scaled : (hi k : ℕ) → hi * 2 ^ suc k ≡ 2 * (hi * 2 ^ k)
double_scaled hi k = omega (arith, ap (λ (t : ℕ). hi * t) (pow-suc 2 k))

-- `(hi << k) | lo` is a sum where `lo` fits below bit `k`.
pub or_fields : (k hi lo : ℕ) → lo < 2 ^ k → bit_or (hi * 2 ^ k) lo ≡ hi * 2 ^ k + lo
or_fields zero hi lo fits = ground (arith, or_zero_below hi hi (le_refl hi))
or_fields (suc k) hi lo fits = ground (
  arith,
  or_low_digit (hi * 2 ^ suc k) lo,
  double_scaled hi k,
  pow-suc 2 k,
  or_fields k hi (lo / 2) (omega (arith, pow-suc 2 k)),
)

and_mask_fields : (k hi lo : ℕ) → lo < 2 ^ k → bit_and (hi * 2 ^ k + lo) (2 ^ k - 1) ≡ lo
and_mask_fields zero hi lo fits =
    ground (arith, and_zero_below (hi * 1 + lo) (hi * 1 + lo) (le_refl _))
and_mask_fields (suc k) hi lo fits = ground (
  arith,
  and_low_digit (hi * 2 ^ suc k + lo) (2 ^ suc k - 1),
  double_scaled hi k,
  pow-suc 2 k,
  one-le-pow k 2,
  and_mask_fields k hi (lo / 2) (omega (arith, pow-suc 2 k)),
)

-- `x & (2 ^ k - 1)` is the remainder by `2 ^ k`.
pub and_mask : (k x : ℕ) → bit_and x (2 ^ k - 1) ≡ x % 2 ^ k
and_mask k x = ground (arith, one-le-pow k 2, and_mask_fields k (x / 2 ^ k) (x % 2 ^ k))

halves : (x k : ℕ) → x / 2 / 2 ^ k ≡ x / 2 ^ suc k
halves x k =
    div-div-eq-div-mul x 2 (2 ^ k)
    ∙ ap (λ (t : ℕ). x / t) (let e : 2 * 2 ^ k ≡ 2 ^ suc k = omega (arith, pow-suc 2 k) in e)

half_scaled : (m k : ℕ) → m * 2 ^ suc k / 2 ≡ m * 2 ^ k
half_scaled m k = omega (arith, double_scaled m k)

-- A mask that begins at bit `k` sees what stands from bit `k` on.
pub and_high_mask : (k x m : ℕ) → bit_and x (m * 2 ^ k) ≡ bit_and (x / 2 ^ k) m * 2 ^ k
and_high_mask zero x m = ground (arith, ap (λ (t : ℕ). bit_and x t) (mul-one_pow m))
  where
    mul-one_pow : (n : ℕ) → n * 2 ^ 0 ≡ n
    mul-one_pow n = omega arith
and_high_mask (suc k) x m =
    let half : x / 2 / 2 ^ k ≡ x / 2 ^ suc k = halves x k in
    omega (
      arith,
      and_low_digit x (m * 2 ^ suc k),
      double_scaled m k,
      ap (λ (t : ℕ). bit_and (x / 2) t) (half_scaled m k),
      and_high_mask k (x / 2) m,
      ap (λ (t : ℕ). bit_and t m) half,
      double_scaled (bit_and (x / 2 ^ suc k) m) k,
      ap (λ (t : ℕ). t * 2 ^ k) (ap (λ (t : ℕ). bit_and t m) half),
    )
