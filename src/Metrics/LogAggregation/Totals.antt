-- ===== src/Metrics/LogAggregation/Totals.antt =====
-- `aggregate` of metrics/log_aggregation.py against a sum that is taken for each key by itself.
use kafka_order_event_platfo.Prelude.{
  ℕ, ◌≡◌, refl, Bool, false, ◌&&◌, ◌||◌, Option, none, some, List, [], ◌∷◌, arith, if◌then◌else◌,
  ◌==◌,
}
use kafka_order_event_platfo.Dict.{Dict, lookup, lookup-insert}
use kafka_order_event_platfo.Metrics.LogAggregation.Delta.{
  AggregationKey, key_eq, key_beq_iff, MetricAggregate, no_requests, combine,
}
use kafka_order_event_platfo.Metrics.LogAggregation.Buffer.{
  BufferedLogEvent, Snapshot, is_included, or_no_requests, add_event, aggregate_from, aggregate,
}

pub combine_assoc : (a b c : MetricAggregate) → combine (combine a b) c ≡ combine a (combine b c)
unfolding combine
combine_assoc a b c = ground arith

pub combine_comm : (a b : MetricAggregate) → combine a b ≡ combine b a
unfolding combine
combine_comm a b = ground arith

pub combine-no_requests : (a : MetricAggregate) → combine a no_requests ≡ a
unfolding combine
combine-no_requests a = ground arith

pub no_requests-combine : (a : MetricAggregate) → combine no_requests a ≡ a
unfolding combine
no_requests-combine a = ground arith

lookup-add_event :
    (key : AggregationKey) (e : BufferedLogEvent) (r : Dict AggregationKey MetricAggregate)
    → lookup key (add_event e r) ≡ (
        if e.key == key
        then some (combine (or_no_requests (lookup key r)) e.delta)
        else lookup key r)
unfolding add_event
lookup-add_event key e r = ground (
  arith,
  key_beq_iff e.key key,
  lookup-insert e.key key (combine (or_no_requests (lookup e.key r)) e.delta) r,
)

module _ (ids : Option (List ℕ)) (key : AggregationKey) where
  abbrev counts : BufferedLogEvent → Bool
  counts e = is_included ids e.event_id && e.key == key

  -- Whether an included event has the key.
  abbrev pub occurs : Snapshot → Bool
  occurs [] = false
  occurs (e ∷ es) = counts e || occurs es

  -- The sum of the deltas of the included events that have the key.
  abbrev pub total : Snapshot → MetricAggregate
  total [] = no_requests
  total (e ∷ es) = if counts e then combine e.delta (total es) else total es

  total_absent : (es : Snapshot) → occurs es ≡ false → total es ≡ no_requests
  total_absent [] h = refl
  total_absent (e ∷ es) h = ground (arith, total_absent es)

  aggregate_from_lem :
      (es : Snapshot) (r : Dict AggregationKey MetricAggregate)
      → lookup key (aggregate_from ids es r) ≡ (
          if occurs es
          then some (combine (or_no_requests (lookup key r)) (total es))
          else lookup key r)
  unfolding aggregate_from
  aggregate_from_lem [] r = refl
  aggregate_from_lem (e ∷ es) r = ground (
    arith,
    aggregate_from_lem es (add_event e r),
    aggregate_from_lem es r,
    lookup-add_event key e r,
    combine_assoc (or_no_requests (lookup key r)) e.delta (total es),
    total_absent es,
    combine-no_requests e.delta,
  )

  -- `aggregate` has an entry for a key exactly when an included event of the snapshot has that
  -- key, and the entry is the sum of the deltas of those events, whatever their order and their
  -- place among events of other keys.
  pub lookup-aggregate :
      (es : Snapshot)
      → lookup key (aggregate ids es) ≡ (if occurs es then some (total es) else none)
  unfolding aggregate
  lookup-aggregate es = rw (aggregate_from_lem es [], no_requests-combine (total es))
