-- ===== src/Metrics/Statistics.antt =====
-- metrics/statistics.py, for samples that are natural numbers; the mean is rounded down. A percentile
-- is a double, and its product with the number of samples is rounded as a product of doubles is.
pub mod Ascending
pub mod Rank
use kafka_order_event_platfo.Prelude.{
  ℕ, zero, suc, ◌+◌, ◌-◌, ◌*◌, ◌/◌, ◌^◌, Bool, ◌&&◌, not, Option, none, some, List, [], ◌∷◌, length,
  ltb, leb, if◌then◌else◌,
}
use kafka_order_event_platfo.Outcome.{Outcome, ok, raised, value_error, index_error}
use kafka_order_event_platfo.Sorting.{sorted}
use kafka_order_event_platfo.Metrics.Doubles.{Double, product}

abbrev pub sum : List ℕ → ℕ
sum [] = 0
sum (x ∷ l) = x + sum l

unfoldable pub average : List ℕ → Option ℕ
average [] = none
average (x ∷ l) = some (sum (x ∷ l) / length (x ∷ l))

-- `l[index]`, where the index is not negative
abbrev pub item_at : List ℕ → ℕ → Outcome (Option ℕ)
item_at [] index = raised index_error
item_at (x ∷ l) zero = ok (some x)
item_at (x ∷ l) (suc index) = item_at l index

-- `ceil(percentile * count) - 1`
abbrev pub rank_index : Double → ℕ → ℕ
rank_index percentile count =
    (product percentile count + (2 ^ percentile.scale - 1)) / 2 ^ percentile.scale - 1

abbrev pub ranked : Double → List ℕ → Outcome (Option ℕ)
ranked percentile [] = ok none
ranked percentile (x ∷ l) =
    item_at (sorted leb (x ∷ l)) (rank_index percentile (length (sorted leb (x ∷ l))))

unfoldable pub nearest_rank_percentile : List ℕ → Double → Outcome (Option ℕ)
nearest_rank_percentile values percentile =
    if not (ltb 0 percentile.significand && leb percentile.significand (2 ^ percentile.scale))
    then raised (value_error "percentile must be greater than 0 and at most 1")
    else ranked percentile values
