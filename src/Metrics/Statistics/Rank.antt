-- ===== src/Metrics/Statistics/Rank.antt =====
-- What metrics/statistics.py means by a percentile.
use native.Mathlib.Nat.{mul-le-mul_left, mul-suc, one-le-pow, mod-lt, div-add-mod}
use kafka_order_event_platfo.Prelude.{
  ℕ, zero, suc, ◌+◌, ◌-◌, ◌*◌, ◌/◌, ◌%◌, ◌^◌, ◌≤◌, ◌<◌, ◌≡◌, refl, sym, ap, ◌∙◌, subst, Bool, true,
  false, ◌&&◌, not, Option, none, some, List, [], ◌∷◌, length, ltb, leb, nat_eq, elem, arith, inl,
  inr, Bool-cases, ◌↔◌,
}
use kafka_order_event_platfo.Outcome.{ok}
use kafka_order_event_platfo.Sorting.{sorted, elem-sorted}
use kafka_order_event_platfo.Metrics.Doubles.{Double, product}
use kafka_order_event_platfo.Metrics.Doubles.Product.{
  IsDouble, product-positive, product-bounded, product_large,
}
use kafka_order_event_platfo.Metrics.Statistics.{
  item_at, rank_index, ranked, nearest_rank_percentile,
}
use kafka_order_event_platfo.Metrics.Statistics.Ascending.{
  count, count-sorted, length-sorted, Ascending, sorted-Ascending, at_rank,
}

-- `v` is a sample; at least the wanted part of the samples is not above it, and less than that part
-- is below it. The part is the product of the source, in doubles.
pub record IsNearestRank (percentile : Double) (values : List ℕ) (v : ℕ) : Type 0 where
  pub sampled : elem v values ≡ true
  pub reached :
      product percentile (length values) ≤ 2 ^ percentile.scale * count (λ x. leb x v) values
  pub unreached :
      2 ^ percentile.scale * count (λ x. ltb x v) values < product percentile (length values)

-- `c` times `d` is the first multiple of `d` that is `m` or more.
first_multiple :
    (d n m c r : ℕ)
    → d * c + r ≡ m + (d - 1)
    → r < d
    → 0 < m
    → m ≤ d * n
    → (c - 1 < n) × (m ≤ d * (c - 1 + 1)) × (d * (c - 1) < m)
first_multiple d n m zero r total below positive bounded =
    absurd (omega (arith, total, below, positive))
first_multiple d n m (suc c) r total below positive bounded =
    let back : suc c - 1 ≡ c = omega arith in
    let one_more = mul-suc d c in
    rw back (
      inside c n (λ over. omega (arith, total, below, bounded, mul-le-mul_left d over, one_more)),
      omega (arith, total, below, one_more),
      omega (arith, total, below, one_more, positive),
    )
  where
    inside : (c n : ℕ) → (n ≤ c → ⊥) → c < n
    inside c n h = elim (Bool-cases (ltb c n)) [
      | inl low ↦ ground (arith, low)
      | inr high ↦ absurd (h (ground (arith, high)))
    ]

-- What the index of the source is, of the items that are wanted.
rank_index_lem :
    (percentile : Double) (n : ℕ)
    → 0 < product percentile n
    → product percentile n ≤ 2 ^ percentile.scale * n
    → (rank_index percentile n < n)
      × (product percentile n ≤ 2 ^ percentile.scale * (rank_index percentile n + 1))
      × (2 ^ percentile.scale * rank_index percentile n < product percentile n)
rank_index_lem percentile n positive bounded =
    let d = 2 ^ percentile.scale in
    let m = product percentile n + (d - 1) in
    first_multiple d n (product percentile n) (m / d) (m % d) (div-add-mod m d)
      (mod-lt m (one-le-pow percentile.scale 2 (omega arith))) positive bounded

count_mono :
    (p q : ℕ → Bool) (l : List ℕ) → ((x : ℕ) → p x ≡ true → q x ≡ true) → count p l ≤ count q l
count_mono p q [] h = omega arith
count_mono p q (x ∷ l) h = ground (arith, h x, count_mono p q l h)

between : (x v w : ℕ) → leb x v ≡ true → ltb v w ≡ true → ltb x w ≡ true
between x v w low less = ground (arith, low, less)

not_above :
    (percentile : Double) (values : List ℕ) (v w : ℕ)
    → IsNearestRank percentile values v
    → IsNearestRank percentile values w
    → w ≤ v
not_above percentile values v w h k = elim (Bool-cases (ltb v w)) [
  | inl less ↦ absurd (
      omega (
        arith,
        h.reached,
        k.unreached,
        mul-le-mul_left (2 ^ percentile.scale)
            (count_mono (λ x. leb x v) (λ x. ltb x w) values (λ x low. between x v w low less)),
      ))
  | inr other ↦ ground (arith, other)
]

IsNearestRank-unique :
    (percentile : Double) (values : List ℕ) (v w : ℕ)
    → IsNearestRank percentile values v
    → IsNearestRank percentile values w
    → v ≡ w
IsNearestRank-unique percentile values v w h k =
    omega (arith, not_above percentile values v w h k, not_above percentile values w v k h)

item_at-IsNearestRank :
    (percentile : Double) (l : List ℕ)
    → 0 < product percentile (length l)
    → product percentile (length l) ≤ 2 ^ percentile.scale * length l
    → Ascending l
    → (v : ℕ) × (item_at l (rank_index percentile (length l)) ≡ ok (some v))
      × IsNearestRank percentile l v
item_at-IsNearestRank percentile l positive bounded ascending =
    let d = 2 ^ percentile.scale in
    let (inside, enough, few) = rank_index_lem percentile (length l) positive bounded in
    let (v, at, there, low, high) = at_rank l _ ascending inside in
    (
      v,
      at,
      record {
        sampled = there;
        reached = omega (arith, enough, mul-le-mul_left d low);
        unreached = omega (arith, few, mul-le-mul_left d high);
      },
    )

IsNearestRank-sorted :
    (percentile : Double) (values : List ℕ) (v : ℕ)
    → IsNearestRank percentile (sorted leb values) v
    → IsNearestRank percentile values v
IsNearestRank-sorted percentile values v h = record {
  sampled = sym (elem-sorted leb v values) ∙ h.sampled;
  reached = rw (← length-sorted values, ← count-sorted (λ x. leb x v) values) h.reached;
  unreached = rw (← length-sorted values, ← count-sorted (λ x. ltb x v) values) h.unreached;
}

ranked-IsNearestRank :
    (percentile : Double) (values : List ℕ)
    → 0 < percentile.significand
    → product percentile (length values) ≤ 2 ^ percentile.scale * length values
    → 0 < length values
    → (v : ℕ) × (ranked percentile values ≡ ok (some v)) × IsNearestRank percentile values v
ranked-IsNearestRank percentile [] positive bounded nonempty = absurd (omega (arith, nonempty))
ranked-IsNearestRank percentile (x ∷ l) positive bounded nonempty =
    let (v, at, h) =
      item_at-IsNearestRank percentile (sorted leb (x ∷ l))
        (rw (length-sorted (x ∷ l)) (product-positive percentile _ positive nonempty))
        (rw (length-sorted (x ∷ l)) bounded) (sorted-Ascending (x ∷ l)) in
    (v, at, IsNearestRank-sorted percentile (x ∷ l) v h)

-- A percentile that is more than 0 and at most 1 is never refused.
nearest_rank_percentile_returns :
    (values : List ℕ) (percentile : Double)
    → 0 < percentile.significand
    → percentile.significand ≤ 2 ^ percentile.scale
    → product percentile (length values) ≤ 2 ^ percentile.scale * length values
    → (a : Option ℕ) × (nearest_rank_percentile values percentile ≡ ok a)
unfolding nearest_rank_percentile
nearest_rank_percentile_returns values percentile positive part bounded =
    let good : not
          (ltb 0 percentile.significand && leb percentile.significand (2 ^ percentile.scale))
        ≡ false =
      ground (arith, positive, part) in
    rw good (returned values bounded)
  where
    returned :
        (values : List ℕ)
        → product percentile (length values) ≤ 2 ^ percentile.scale * length values
        → (a : Option ℕ) × (ranked percentile values ≡ ok a)
    returned [] bounded = (none, refl)
    returned (x ∷ l) bounded =
        let (v, at, h) = ranked-IsNearestRank percentile (x ∷ l) positive bounded (omega arith) in
        (some v, at)

-- The same for a percentile that is not close to 1, whatever the number of samples.
pub never_refused :
    (values : List ℕ) (percentile : Double)
    → 0 < percentile.significand
    → percentile.significand ≤ 2 ^ percentile.scale
    → (2 ^ 53 + 1) * (2 ^ 53 + 1) * percentile.significand ≤ 2 ^ 106 * 2 ^ percentile.scale
    → (a : Option ℕ) × (nearest_rank_percentile values percentile ≡ ok a)
never_refused values percentile positive part room =
    nearest_rank_percentile_returns values percentile positive part
      (product_large percentile (length values) room)

nonempty_of :
    (percentile : Double) (values : List ℕ) (v : ℕ)
    → ranked percentile values ≡ ok (some v)
    → 0 < length values
nonempty_of percentile [] v e = ground (arith, e)
nonempty_of percentile (x ∷ l) v e = omega arith

same_rank :
    (percentile : Double) (values : List ℕ) (v : ℕ)
    → 0 < percentile.significand
    → product percentile (length values) ≤ 2 ^ percentile.scale * length values
    → ranked percentile values ≡ ok (some v)
    → IsNearestRank percentile values v
same_rank percentile values v positive bounded e =
    let (w, at, h) =
      ranked-IsNearestRank percentile values positive bounded (nonempty_of percentile values v e) in
    subst (IsNearestRank percentile values) (ground (arith, e, at)) h

some_sample : (v : ℕ) (values : List ℕ) → elem v values ≡ true → 0 < length values
some_sample v [] there = cc
some_sample v (x ∷ l) there = omega arith

-- For a percentile that is a double, given as `float.as_integer_ratio` gives it, and fewer than 2^53
-- samples, `nearest_rank_percentile` returns the number `v` just if the percentile is more than 0 and
-- at most 1 and `v` is its nearest rank: a sample, such that the samples at most `v` are not fewer
-- than the percentile times the number of samples, and the samples below `v` are fewer; that product
-- is the one of doubles, rounded as Python rounds it.
pub nearest_rank_percentile_iff :
    (values : List ℕ) (percentile : Double) (v : ℕ)
    → IsDouble percentile
    → length values < 2 ^ 53
    → (nearest_rank_percentile values percentile ≡ ok (some v)) ↔ (
        (0 < percentile.significand)
        × (percentile.significand ≤ 2 ^ percentile.scale)
        × IsNearestRank percentile values v)
unfolding nearest_rank_percentile
nearest_rank_percentile_iff values percentile v double few =
    elim (Bool-cases
      (not (ltb 0 percentile.significand && leb percentile.significand (2 ^ percentile.scale)))) [
        | inl bad ↦ (
          λ e. absurd (ground (arith, e, bad)),
          λ (positive, part, h). absurd (ground (arith, bad, positive, part)),
        )
        | inr good ↦
            let positive : 0 < percentile.significand = ground (arith, good) in
            let part : percentile.significand ≤ 2 ^ percentile.scale = ground (arith, good) in
            let bounded = product-bounded percentile (length values) double part few in
            rw good (
              λ e. (positive, part, same_rank percentile values v positive bounded e),
              λ (_, _, h).
                  let (w, at, k) =
                    ranked-IsNearestRank percentile values positive bounded
                      (some_sample v values h.sampled) in
                  at ∙ ap (λ a. ok (some a)) (IsNearestRank-unique percentile values w v k h),
            )
      ]
