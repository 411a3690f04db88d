-- ===== src/Ftdi/Baud/Nearest.antt =====
-- lib/go/transport_ftdi.go: which fraction the bytes of `calculateFTDIBaudRateDivisor` stand for.
use qdp.Base.{
  ℕ, zero, suc, ◌+◌, ◌*◌, ◌/◌, ◌%◌, ◌^◌, ◌≤◌, ◌<◌, ◌≡◌, refl, ap, subst, sym, ◌∙◌, arith,
  if◌then◌else◌, true, false, bit_and, bit_or, Bool-cases, ltb→lt, ltb→ge, inl, inr,
}
use qdp.Base.Masks.{bit_and_mask, bit_or_fields}
use qdp.Ftdi.Baud.{base_clock, is_below, closest, value_bytes, calculate_ftdi_baud_rate_divisor}

-- `eighths` / 8 is nearest to `clock / rate` among the eighths; halfway it is the greater one.
abbrev pub IsNearest : ℕ → ℕ → ℕ → Type 0
IsNearest clock rate eighths =
    (2 * eighths * rate ≤ 16 * clock + rate) × (16 * clock < 2 * eighths * rate + rate)

-- A divisor and a prescaler that stand for the eighth nearest to `clock / rate`, with the quotient `n`.
abbrev Stands : ℕ → ℕ → ℕ → ℕ × ℕ → Type 0
Stands clock rate n (whole, prescaler) =
    (whole ≤ n + 1)
    × ((j : ℕ) × (j < 8) × (prescaler ≡ j * 2 ^ 12) × IsNearest clock rate (8 * whole + j))

expand : (n j rate : ℕ) → 2 * (8 * n + j) * rate ≡ 16 * (n * rate) + 2 * (j * rate)
expand n j rate = grind arith

is_below-lt : (rest rate s : ℕ) → is_below rest rate s ≡ true → 16 * rest < s * rate
unfolding is_below
is_below-lt rest rate s e = ltb→lt (16 * rest) (s * rate) e

is_below-ge : (rest rate s : ℕ) → is_below rest rate s ≡ false → s * rate ≤ 16 * rest
unfolding is_below
is_below-ge rest rate s e = ltb→ge (16 * rest) (s * rate) e

-- The eighth `j` is chosen between the sixteenths on both sides of it.
between-Stands :
    (n rest rate j : ℕ)
    → j < 8
    → 2 * (j * rate) ≤ 16 * rest + rate
    → 16 * rest < 2 * (j * rate) + rate
    → Stands (n * rate + rest) rate n (n, j * 2 ^ 12)
between-Stands n rest rate j small low high = (
  omega arith,
  (
    j,
    small,
    refl,
    (omega (arith, expand n j rate, low, high), omega (arith, expand n j rate, low, high)),
  ),
)

next-Stands :
    (n rest rate : ℕ)
    → rest < rate
    → 15 * rate ≤ 16 * rest
    → Stands (n * rate + rest) rate n (n + 1, 0)
next-Stands n rest rate h above = (
  omega arith,
  (
    0,
    omega arith,
    refl,
    (
      omega (arith, expand (n + 1) 0 rate, whole, above, h),
      omega (arith, expand (n + 1) 0 rate, whole, above, h),
    ),
  ),
)
  where
    whole : (n + 1) * rate ≡ n * rate + rate
    whole = grind arith

pick :
    (P : ℕ × ℕ → Type 0) (rest rate s : ℕ) {x y : ℕ × ℕ}
    → (16 * rest < s * rate → P x)
    → (s * rate ≤ 16 * rest → P y)
    → P (if is_below rest rate s then x else y)
pick P rest rate s {x} {y} px py = elim (Bool-cases (is_below rest rate s)) [
  | inl a ↦ subst (λ b. P (if b then x else y)) (sym a) (px (is_below-lt rest rate s a))
  | inr b ↦ subst (λ b. P (if b then x else y)) (sym b) (py (is_below-ge rest rate s b))
]

closest-Stands :
    (n rest rate : ℕ) → rest < rate → Stands (n * rate + rest) rate n (closest n rest rate)
unfolding closest
closest-Stands n rest rate h =
    pick (Stands (n * rate + rest) rate n) rest rate 1
      (λ below. between-Stands n rest rate 0 (omega arith) (omega arith) (omega (arith, below)))
      λ above_1.
        pick (Stands (n * rate + rest) rate n) rest rate 3
          (λ below.
            between-Stands n rest rate 1 (omega arith) (omega (arith, above_1))
              (omega (arith, below)))
          λ above_3.
            pick (Stands (n * rate + rest) rate n) rest rate 5
              (λ below.
                between-Stands n rest rate 2 (omega arith) (omega (arith, above_3))
                  (omega (arith, below)))
              λ above_5.
                pick (Stands (n * rate + rest) rate n) rest rate 7
                  (λ below.
                    between-Stands n rest rate 3 (omega arith) (omega (arith, above_5))
                      (omega (arith, below)))
                  λ above_7.
                    pick (Stands (n * rate + rest) rate n) rest rate 9
                      (λ below.
                        between-Stands n rest rate 4 (omega arith) (omega (arith, above_7))
                          (omega (arith, below)))
                      λ above_9.
                        pick (Stands (n * rate + rest) rate n) rest rate 11
                          (λ below.
                            between-Stands n rest rate 5 (omega arith) (omega (arith, above_9))
                              (omega (arith, below)))
                          λ above_11.
                            pick (Stands (n * rate + rest) rate n) rest rate 13
                              (λ below.
                                between-Stands n rest rate 6 (omega arith) (omega (arith, above_11))
                                  (omega (arith, below)))
                              λ above_13.
                                pick (Stands (n * rate + rest) rate n) rest rate 15
                                  (λ below.
                                    between-Stands n rest rate 7 (omega arith)
                                      (omega (arith, above_13)) (omega (arith, below)))
                                  λ above_15. next-Stands n rest rate h above_15

-- The bytes hold the sum of a divisor and a prescaler that have no digit in common.
value_bytes-sum :
    (whole j : ℕ)
    → whole < 2 ^ 12
    → j < 8
    → ((value_bytes (whole, j * 2 ^ 12)).0 < 256)
      × ((value_bytes (whole, j * 2 ^ 12)).1 < 256)
      × ((value_bytes (whole, j * 2 ^ 12)).0 + 256 * (value_bytes (whole, j * 2 ^ 12)).1
          ≡ whole + j * 2 ^ 12)
unfolding value_bytes
value_bytes-sum whole j fits small =
    let all = bit_and_mask 14 0 whole whole (omega arith) (omega arith) in
    let sum : bit_or (bit_and whole 0x3FFF) (j * 2 ^ 12) ≡ j * 2 ^ 12 + whole =
      ap (λ w. bit_or w (j * 2 ^ 12)) all ∙ bit_or_fields 12 j whole fits in
    let final = j * 2 ^ 12 + whole in
    let low : bit_and final 0xFF ≡ final % 256 =
      bit_and_mask 8 (final / 256) (final % 256) final (omega arith) (omega arith) in
    let high : bit_and (final / 256) 0xFF ≡ final / 256 =
      bit_and_mask 8 0 (final / 256) (final / 256) (omega arith) (omega arith) in
    rw (sum, low, high) (omega arith, omega arith, omega arith)

mul-le : (n rate : ℕ) → 733 ≤ rate → n * 733 ≤ n * rate
mul-le zero rate h = omega arith
mul-le (suc n) rate h = grind (arith, mul-le n rate h)

-- For a rate of at least 733 the bytes are below 256 and hold, low byte first, a divisor and 0x1000
-- times a number of eighths below 8, which together are the eighth nearest to 3000000 / rate.
pub calculate_ftdi_baud_rate_divisor-IsNearest :
    (rate : ℕ)
    → 733 ≤ rate
    → ((calculate_ftdi_baud_rate_divisor rate).0 < 256)
      × ((calculate_ftdi_baud_rate_divisor rate).1 < 256)
      × ((whole : ℕ) × (j : ℕ) × (j < 8)
          × IsNearest base_clock rate (8 * whole + j)
          × ((calculate_ftdi_baud_rate_divisor rate).0
                + 256 * (calculate_ftdi_baud_rate_divisor rate).1
              ≡ whole + 0x1000 * j))
unfolding calculate_ftdi_baud_rate_divisor
calculate_ftdi_baud_rate_divisor-IsNearest zero fast = absurd (omega arith)
calculate_ftdi_baud_rate_divisor-IsNearest (suc r) fast =
    let rate = suc r in
    let n = base_clock / rate in
    let rest = base_clock % rate in
    let (few, (j, small, prescaler, near)) = closest-Stands n rest rate (omega arith) in
    let clock : n * rate + rest ≡ base_clock = omega arith in
    let slow : n < 4095 = omega (arith, mul-le n rate fast, clock) in
    let c = closest n rest rate in
    let same : value_bytes c ≡ value_bytes (c.0, j * 2 ^ 12) =
      ap (λ p. value_bytes (c.0, p)) prescaler in
    let (low, high, sum) = value_bytes-sum c.0 j (omega (arith, few, slow)) small in
    let total : c.0 + j * 2 ^ 12 ≡ c.0 + 0x1000 * j = omega arith in
    subst
      (λ (v : ℕ × ℕ).
        (v.0 < 256)
        × (v.1 < 256)
        × ((whole : ℕ) × (j : ℕ) × (j < 8)
            × IsNearest base_clock rate (8 * whole + j)
            × (v.0 + 256 * v.1 ≡ whole + 0x1000 * j)))
      (sym same)
      (
        low,
        high,
        (c.0, j, small, subst (λ k. IsNearest k rate (8 * c.0 + j)) clock near, sum ∙ total),
      )
