-- ===== src/Base/Masks.antt =====
-- The operations `&` and `|`: masks of the lowest digits, and numbers without a digit in common.
use Prim.Native.Nat.{
  ℕ, zero, suc, ◌+◌, ◌-◌, ◌*◌, ◌/◌, ◌%◌, ◌^◌, ◌≤◌, ◌<◌, bit_and, bit_or, digits, min, max,
  bit_and-bitwise, bit_or-bitwise,
}
use mathlib.Core.Path.{◌≡◌, refl, ap, ap₂, ◌∙◌}
use native.Mathlib.Omega.{arith}
use native.Mathlib.Nat.{pow-suc, one-le-pow}
use qdp.Base.Bits.{mul-pow-suc}

-- More fuel than digits changes nothing, whatever is done with them.
digits-fuel :
    (z : ℕ → ℕ) (f : ℕ → ℕ → ℕ) (n m a b : ℕ) → a ≤ n → a ≤ m → digits z f n a b ≡ digits z f m a b
digits-fuel z f zero zero a b p q = refl
digits-fuel z f zero (suc m) zero b p q = refl
digits-fuel z f zero (suc m) (suc a) b p q = absurd (omega arith)
digits-fuel z f (suc n) zero zero b p q = refl
digits-fuel z f (suc n) zero (suc a) b p q = absurd (omega arith)
digits-fuel z f (suc n) (suc m) zero b p q = refl
digits-fuel z f (suc n) (suc m) (suc a) b p q =
    rw (digits-fuel z f n m (suc a / 2) (b / 2) (omega arith) (omega arith))

pub bit_and_step : (a b : ℕ) → bit_and a b ≡ bit_and (a / 2) (b / 2) * 2 + min (a % 2) (b % 2)
bit_and_step zero b = omega (arith, bit_and-bitwise 0 b, bit_and-bitwise 0 (b / 2))
bit_and_step (suc a) b =
    let less : suc a / 2 ≤ a = omega arith in
    let fuel = digits-fuel (λ b. zero) min a (suc a / 2) (suc a / 2) (b / 2) less (omega arith) in
    omega (fuel, bit_and-bitwise (suc a / 2) (b / 2), bit_and-bitwise (suc a) b, arith)

pub bit_or_step : (a b : ℕ) → bit_or a b ≡ bit_or (a / 2) (b / 2) * 2 + max (a % 2) (b % 2)
bit_or_step zero b = omega (arith, bit_or-bitwise 0 b, bit_or-bitwise 0 (b / 2))
bit_or_step (suc a) b =
    let less : suc a / 2 ≤ a = omega arith in
    let fuel = digits-fuel (λ b. b) max a (suc a / 2) (suc a / 2) (b / 2) less (omega arith) in
    omega (fuel, bit_or-bitwise (suc a / 2) (b / 2), bit_or-bitwise (suc a) b, arith)

and-nothing : (fuel n : ℕ) → n ≤ fuel → bit_and n 0 ≡ 0
and-nothing fuel zero enough = bit_and-bitwise 0 0
and-nothing zero (suc n) enough = absurd (omega arith)
and-nothing (suc fuel) (suc n) enough =
    let above = and-nothing fuel (suc n / 2) (omega arith) in
    omega (above, bit_and_step (suc n) 0, arith)

-- `&` with the `k` lowest digits set takes the `k` lowest digits.
bit_and_low : (k high low : ℕ) → low < 2 ^ k → bit_and (high * 2 ^ k + low) (2 ^ k - 1) ≡ low
bit_and_low zero high low h =
    let number = high * 2 ^ 0 + low in
    let none = and-nothing number number (omega arith) in omega (none, arith)
bit_and_low (suc k) high low h =
    let powers = pow-suc 2 k in
    let number : (high * 2 ^ suc k + low) / 2 ≡ high * 2 ^ k + low / 2 =
      omega (mul-pow-suc high k, arith) in
    let ones : (2 ^ suc k - 1) / 2 ≡ 2 ^ k - 1 = omega (powers, arith) in
    let above = bit_and_low k high (low / 2) (omega (powers, h, arith)) in
    omega (
      one-le-pow k 2,
      mul-pow-suc high k,
      bit_and_step (high * 2 ^ suc k + low) (2 ^ suc k - 1),
      ap₂ bit_and number ones,
      above,
      powers,
      h,
      arith,
    )

pub bit_and_mask : (k q r a : ℕ) → a ≡ q * 2 ^ k + r → r < 2 ^ k → bit_and a (2 ^ k - 1) ≡ r
bit_and_mask k q r a e h = ap (λ b. bit_and b (2 ^ k - 1)) e ∙ bit_and_low k q r h

pub bit_or_fields : (k q r : ℕ) → r < 2 ^ k → bit_or r (q * 2 ^ k) ≡ q * 2 ^ k + r
bit_or_fields zero q zero h = omega (arith, bit_or-bitwise 0 (q * 2 ^ 0))
bit_or_fields zero q (suc r) h = absurd (omega arith)
bit_or_fields (suc k) q r h = omega (
  arith,
  bit_or_step r (q * 2 ^ suc k),
  mul-pow-suc q k,
  ap (bit_or (r / 2)) halves,
  bit_or_fields k q (r / 2) (omega (arith, pow-suc 2 k, h)),
)
  where
    halves : q * 2 ^ suc k / 2 ≡ q * 2 ^ k
    halves = omega (arith, mul-pow-suc q k)
