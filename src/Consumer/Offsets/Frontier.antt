-- ===== src/Consumer/Offsets/Frontier.antt =====
-- The search of `committable` in consumer/offsets.py: the end of the run of completed offsets.
use kafka_order_event_platfo.Prelude.{
  ℕ, zero, suc, ◌+◌, ◌≤◌, ◌<◌, ◌≡◌, Bool, true, false, Option, none, some, [], ◌∷◌, arith, leb,
  if◌then◌else◌, length, nat_eq, nat_beq_iff, Bool-cases, inl, inr,
}
use kafka_order_event_platfo.Dict.{Dict, lookup}

-- `state.offsets.get(candidate) is True`
abbrev pub is_true : Option Bool → Bool
is_true (some true) = true
is_true (some false) = false
is_true none = false

-- `while state.offsets.get(candidate) is True: candidate += 1`
unfoldable pub advance : ℕ → ℕ → Dict ℕ Bool → ℕ
advance zero candidate offsets = candidate
advance (suc fuel) candidate offsets = elim (is_true (lookup candidate offsets)) [
  | true ↦ advance fuel (candidate + 1) offsets
  | false ↦ candidate
]

-- the number of entries at `c` or above, which falls with every round
above : ℕ → Dict ℕ Bool → ℕ
above c [] = 0
above c ((o, _) ∷ d) = (if leb c o then 1 else 0) + above c d

above-le-length : (c : ℕ) (d : Dict ℕ Bool) → above c d ≤ length d
unfolding above
above-le-length c [] = omega arith
above-le-length c ((o, b) ∷ d) = ground (arith, above-le-length c d)

above-suc-le : (c : ℕ) (d : Dict ℕ Bool) → above (c + 1) d ≤ above c d
unfolding above
above-suc-le c [] = omega arith
above-suc-le c ((o, b) ∷ d) = ground (arith, above-suc-le c d)

above-lt : (c : ℕ) (d : Dict ℕ Bool) → is_true (lookup c d) ≡ true → above (c + 1) d < above c d
unfolding above
above-lt c [] h = cc
above-lt c ((o, b) ∷ d) h = ground (arith, nat_beq_iff o c, above-lt c d, above-suc-le c d)

module _ (fuel c : ℕ) (d : Dict ℕ Bool) where
  advance_goes_on : is_true (lookup c d) ≡ true → advance (suc fuel) c d ≡ advance fuel (c + 1) d
  unfolding advance
  advance_goes_on done = rw (done, advance)

  advance_ends : is_true (lookup c d) ≡ false → advance (suc fuel) c d ≡ c
  unfolding advance
  advance_ends stop = rw (stop, advance)

is_true-eq : (b : Option Bool) → is_true b ≡ true → b ≡ some true
is_true-eq b h = ground arith

-- What the loop has passed is completed.
pub advance-covers :
    (fuel c : ℕ) (d : Dict ℕ Bool) (o : ℕ) → c ≤ o → o < advance fuel c d → lookup o d ≡ some true
unfolding advance
advance-covers zero c d o le lt = absurd (omega arith)
advance-covers (suc fuel) c d o le lt = elim (Bool-cases (is_true (lookup c d))) [
  | inl done ↦ ground (
    arith,
    advance_goes_on fuel c d done,
    is_true-eq (lookup c d) done,
    advance-covers fuel (c + 1) d o,
  )
  | inr stop ↦ absurd (omega (arith, advance_ends fuel c d stop))
]

pub le-advance : (fuel c : ℕ) (d : Dict ℕ Bool) → c ≤ advance fuel c d
unfolding advance
le-advance zero c d = omega arith
le-advance (suc fuel) c d = ground (arith, le-advance fuel (c + 1) d)

advance_stops :
    (fuel c : ℕ) (d : Dict ℕ Bool)
    → above c d ≤ fuel
    → is_true (lookup (advance fuel c d) d) ≡ false
unfolding advance
advance_stops zero c d h = elim (Bool-cases (is_true (lookup c d))) [
  | inl done ↦ absurd (omega (arith, above-lt c d done))
  | inr stop ↦ stop
]
advance_stops (suc fuel) c d h = elim (Bool-cases (is_true (lookup c d))) [
  | inl done ↦
      rw (advance_goes_on fuel c d done)
        (advance_stops fuel (c + 1) d (omega (arith, above-lt c d done)))
  | inr stop ↦ rw (advance_ends fuel c d stop) stop
]

-- As many rounds as there are entries are enough: the loop ends by its test.
pub advance-length_stops :
    (c : ℕ) (d : Dict ℕ Bool) → is_true (lookup (advance (length d) c d) d) ≡ false
advance-length_stops c d = advance_stops (length d) c d (above-le-length c d)
