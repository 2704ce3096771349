-- ===== src/Metrics/LogAggregation/Consistency.antt =====
-- The counts of a metric of metrics/log_aggregation.py agree with one another.
use kafka_order_event_platfo.Prelude.{
  ℕ, ◌+◌, ◌*◌, ◌≤◌, max, ◌≡◌, ◌&&◌, Option, some, List, [], ◌∷◌, arith, ◌==◌, All, if_split, subst,
  Bool-cases, inl, inr,
}
use kafka_order_event_platfo.Dict.{lookup}
use kafka_order_event_platfo.Models.Event.{ApiAccessLogEvent}
use kafka_order_event_platfo.Metrics.LogAggregation.Delta.{
  AggregationKey, key_eq, MetricAggregate, combine, delta_for,
}
use kafka_order_event_platfo.Metrics.LogAggregation.Buffer.{Snapshot, is_included, aggregate}
use kafka_order_event_platfo.Metrics.LogAggregation.Totals.{occurs, total, lookup-aggregate}

pub record IsConsistent (m : MetricAggregate) : Type 0 where
  pub classes : m.success_count + m.client_error_count + m.server_error_count ≡ m.request_count
  pub max_le_sum : m.max_response_time_ms ≤ m.response_time_sum_ms
  pub sum_le : m.response_time_sum_ms ≤ m.request_count * m.max_response_time_ms

-- The status codes that validation admits fall into exactly one class.
pub delta_for-IsConsistent :
    (event : ApiAccessLogEvent)
    → 100 ≤ event.payload.status_code
    → event.payload.status_code ≤ 599
    → IsConsistent (delta_for event)
unfolding delta_for
delta_for-IsConsistent event lo hi = ground arith

scaled : (n m k : ℕ) → m ≤ k → n * m ≤ n * k
scaled n m k h = grind arith

combined_sum :
    (n1 n2 m1 m2 s1 s2 : ℕ) → s1 ≤ n1 * m1 → s2 ≤ n2 * m2 → s1 + s2 ≤ (n1 + n2) * max m1 m2
combined_sum n1 n2 m1 m2 s1 s2 h k =
    omega (arith, scaled n1 m1 (max m1 m2) (omega arith), scaled n2 m2 (max m1 m2) (omega arith))

pub combine-IsConsistent :
    (a b : MetricAggregate) → IsConsistent a → IsConsistent b → IsConsistent (combine a b)
unfolding combine
combine-IsConsistent a b ha hb = record {
  classes = omega (arith, ha.classes, hb.classes);
  max_le_sum = omega (arith, ha.max_le_sum, hb.max_le_sum);
  sum_le =
      combined_sum a.request_count b.request_count a.max_response_time_ms b.max_response_time_ms
        a.response_time_sum_ms b.response_time_sum_ms ha.sum_le hb.sum_le;
}

total-IsConsistent :
    (ids : Option (List ℕ)) (key : AggregationKey) (es : Snapshot)
    → All (λ e. IsConsistent e.delta) es
    → IsConsistent (total ids key es)
total-IsConsistent ids key [] h = omega arith
total-IsConsistent ids key (e ∷ es) h =
    if_split IsConsistent (is_included ids e.event_id && e.key == key)
      (λ _. combine-IsConsistent e.delta (total ids key es) h.0 (total-IsConsistent ids key es h.1))
      (λ _. total-IsConsistent ids key es h.1)

-- Whatever events are included: where every delta of the snapshot is consistent, so is every entry
-- of the aggregate. Its three status classes add up to the request count, and its sum of response
-- times lies between the greatest one and the request count times that.
pub aggregate-IsConsistent :
    (ids : Option (List ℕ)) (key : AggregationKey) (es : Snapshot) (m : MetricAggregate)
    → All (λ e. IsConsistent e.delta) es
    → lookup key (aggregate ids es) ≡ some m
    → IsConsistent m
aggregate-IsConsistent ids key es m h e = elim (Bool-cases (occurs ids key es)) [
  | inl there ↦
      subst IsConsistent (ground (arith, e, lookup-aggregate ids key es, there))
        (total-IsConsistent ids key es h)
  | inr absent ↦ ground (arith, e, lookup-aggregate ids key es, absent)
]
