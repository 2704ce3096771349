-- ===== src/Metrics/Doubles/Rounding.antt =====
-- How far a rounded number is from the number itself.
use native.Mathlib.Nat.{div-add-mod', mod-lt}
use kafka_order_event_platfo.Prelude.{
  ℕ, zero, suc, ◌+◌, ◌-◌, ◌*◌, ◌/◌, ◌%◌, ◌^◌, ◌≤◌, ◌<◌, ◌≡◌, ◌||◌, ◌&&◌, ltb, ◌==◌, nat_eq,
  if_split, arith, inl, inr, ◌⊎◌, Bool-cases,
}
use kafka_order_event_platfo.Metrics.Doubles.{last_place, round_to, rounded}

last_place-large :
    (fuel u x : ℕ)
    → 0 < u
    → (u ≤ 1) ⊎ (2 ^ 52 * u ≤ x)
    → (0 < last_place fuel u x) × ((last_place fuel u x ≤ 1) ⊎ (2 ^ 52 * last_place fuel u x ≤ x))
last_place-large zero u x positive h = (positive, h)
last_place-large (suc fuel) u x positive h = elim (Bool-cases (ltb x (2 ^ 53 * u))) [
  | inl low ↦ rw (low, last_place) (positive, h)
  | inr high ↦
      rw (high, last_place)
        (last_place-large fuel (2 * u) x (omega (arith, positive)) (inr (ground (arith, high))))
]

-- The fuel is enough: a rounded number has 53 bits.
last_place-enough :
    (fuel u x : ℕ) → 0 < u → x < 2 ^ 53 * u + fuel → x < 2 ^ 53 * last_place fuel u x
last_place-enough zero u x positive h = omega (arith, h)
last_place-enough (suc fuel) u x positive h = elim (Bool-cases (ltb x (2 ^ 53 * u))) [
  | inl low ↦ rw (low, last_place) (ground (arith, low))
  | inr high ↦
      rw (high, last_place)
        (last_place-enough fuel (2 * u) x (omega (arith, positive)) (omega (arith, positive, h)))
]

pub fits : (x : ℕ) → x < 2 ^ 53 * last_place x 1 x
fits x = last_place-enough x 1 x (omega arith) (omega arith)

round_to-near : (u x : ℕ) → 0 < u → (2 * round_to u x ≤ 2 * x + u) × (2 * x ≤ 2 * round_to u x + u)
round_to-near u x positive =
    let below = mod-lt x positive in
    let total = div-add-mod' x u in
    if_split (λ y. (2 * y ≤ 2 * x + u) × (2 * x ≤ 2 * y + u))
      (ltb u (2 * (x % u)) || (2 * (x % u) == u && x / u % 2 == 1))
      (λ up.
        let high : u ≤ 2 * (x % u) = ground (arith, up) in
        (omega (arith, below, total, high), omega (arith, below, total, high)))
      (λ down.
        let low : 2 * (x % u) ≤ u = ground (arith, down) in
        (omega (arith, below, total, low), omega (arith, below, total, low)))

-- A rounded number is off by a part of 2 ^ 53 at most.
pub rounded-near :
    (x : ℕ) → (2 ^ 53 * rounded x ≤ (2 ^ 53 + 1) * x) × ((2 ^ 53 - 1) * x ≤ 2 ^ 53 * rounded x)
unfolding rounded
rounded-near x =
    let (positive, place) = last_place-large x 1 x (omega arith) (inl (omega arith)) in
    let (above, below) = round_to-near (last_place x 1 x) x positive in
    elim place [
      | inl one ↦ (omega (arith, one, above, below), omega (arith, one, above, below))
      | inr large ↦ (omega (arith, large, above, below), omega (arith, large, above, below))
    ]

-- An integer of at most 53 bits is a double.
pub rounded_small : (x : ℕ) → x < 2 ^ 53 → rounded x ≡ x
rounded_small x small = omega (arith, small, rounded-near x)
