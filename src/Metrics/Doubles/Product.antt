-- ===== src/Metrics/Doubles/Product.antt =====
-- How large the product of a percentile and a number of samples is.
use native.Mathlib.Nat.{
  one-le-mul, mul-le-mul_right, mul-le-mul_left, two-pow-succ, eq-or-lt_of_le, one-mul,
}
use kafka_order_event_platfo.Prelude.{
  ℕ, zero, suc, ◌+◌, ◌*◌, ◌%◌, ◌^◌, ◌≤◌, ◌<◌, ◌≡◌, refl, ap, arith, inl, inr, ◌⊎◌,
}
use kafka_order_event_platfo.Metrics.Doubles.{Double, rounded, product}
use kafka_order_event_platfo.Metrics.Doubles.Rounding.{rounded-near, rounded_small}

-- The integers of `float.as_integer_ratio`: 53 bits, in lowest terms.
pub record IsDouble (x : Double) : Type 0 where
  pub bits : x.significand < 2 ^ 53
  pub lowest : (x.significand % 2 ≡ 1) ⊎ (x.scale ≡ 0)

rounded-positive : (x : ℕ) → 0 < x → 0 < rounded x
rounded-positive x h = omega (arith, h, rounded-near x)

pub product-positive : (p : Double) (n : ℕ) → 0 < p.significand → 0 < n → 0 < product p n
unfolding product
product-positive p n positive nonempty =
    rounded-positive _ (one-le-mul positive (rounded-positive n nonempty))

-- A part below 1 of a number that is a double.
below_one : (m d n y : ℕ) → m < 2 ^ 53 → m < d → 2 ^ 53 * y ≤ (2 ^ 53 + 1) * (m * n) → y ≤ d * n
below_one m d n y bits below near =
    let room : (2 ^ 53 + 1) * m ≤ 2 ^ 53 * d = omega (arith, bits, below) in
    omega (arith, near, mul-le-mul_right n room)

whole : (p : Double) → IsDouble p → p.significand ≡ 2 ^ p.scale → p.scale ≡ 0
whole p h one = odd_power p.scale (rw (← one) h.lowest)
  where
    odd_power : (k : ℕ) → (2 ^ k % 2 ≡ 1) ⊎ (k ≡ 0) → k ≡ 0
    odd_power zero h = refl
    odd_power (suc k) (inl odd) = absurd (omega (arith, odd, two-pow-succ k))
    odd_power (suc k) (inr none) = none

pub product-bounded :
    (p : Double) (n : ℕ)
    → IsDouble p
    → p.significand ≤ 2 ^ p.scale
    → n < 2 ^ 53
    → product p n ≤ 2 ^ p.scale * n
unfolding product
product-bounded p n h bounded small = rw (rounded_small n small) (elim (eq-or-lt_of_le bounded) [
  | inl one ↦
      let unit : 2 ^ p.scale ≡ 1 = ap (λ k. 2 ^ k) (whole p h one) in
      rw (one, unit, one-mul n, rounded_small n small) (omega arith)
  | inr below ↦
      below_one p.significand (2 ^ p.scale) n _ h.bits below (rounded-near (p.significand * n)).0
])

-- The two percentiles of the program, of any number of samples.
pub product_large :
    (p : Double) (n : ℕ)
    → (2 ^ 53 + 1) * (2 ^ 53 + 1) * p.significand ≤ 2 ^ 106 * 2 ^ p.scale
    → product p n ≤ 2 ^ p.scale * n
unfolding product
product_large p n h =
    let f = rounded n in
    omega (
      arith,
      (rounded-near (p.significand * f)).0,
      mul-le-mul_left p.significand (rounded-near n).0,
      mul-le-mul_right n h,
    )
