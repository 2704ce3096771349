-- ===== src/Metrics/Doubles.antt =====
-- Doubles of Python that are not negative, as metrics/statistics.py multiplies them: the integers of
-- `float.as_integer_ratio`, and rounding to 53 bits, half to even.
pub mod Rounding
pub mod Product
use kafka_order_event_platfo.Prelude.{
  ℕ, zero, suc, ◌+◌, ◌-◌, ◌*◌, ◌/◌, ◌%◌, ◌^◌, Bool, true, false, ◌&&◌, ◌||◌, ltb, ◌==◌, nat_eq,
  if◌then◌else◌,
}

-- `significand / 2 ^ scale`
pub record Double : Type 0 where
  pub significand : ℕ
  pub scale : ℕ

-- The place of the last of 53 bits of `x`, found by doubling from `u`.
abbrev pub last_place : ℕ → ℕ → ℕ → ℕ
last_place zero u x = u
last_place (suc fuel) u x = elim (ltb x (2 ^ 53 * u)) [
  | true ↦ u
  | false ↦ last_place fuel (2 * u) x
]

-- `x` to the nearest multiple of `u`, and to the even one of two
abbrev pub round_to : ℕ → ℕ → ℕ
round_to u x =
    let r = x % u in if ltb u (2 * r) || (2 * r == u && x / u % 2 == 1) then x - r + u else x - r

-- the double nearest to an integer
unfoldable pub rounded : ℕ → ℕ
rounded x = round_to (last_place x 1 x) x

-- `percentile * count`, in parts of `2 ^ scale`
unfoldable pub product : Double → ℕ → ℕ
product p count = rounded (p.significand * rounded count)
