-- ===== src/Kafka/Dlq.antt =====
-- kafka/dlq.py: `DlqProducer.publish` waits for the delivery callback until a deadline.
use kafka_order_event_platfo.Prelude.{
  ◌++◌, All, refl, ap, subst, Bool, Bool-cases, inl, inr, ℕ, ◌<◌, ◌≡◌, ◌↔◌, Option, none, some,
  List, [], ◌∷◌, leb, if◌then◌else◌, arith,
}
use kafka_order_event_platfo.Outcome.{
  Outcome, ok, raised, timeout_error, kafka_exception, KafkaArgument,
}

-- One round of the loop: the reading of the clock, and what the callback reports during the poll
-- that follows, if it is called: no error, or a `KafkaError`.
pub record Tick : Type 0 where
  pub reading : ℕ
  pub callback : Option (Option KafkaArgument)

-- The loop. It goes round while the clock reads less than the deadline, so the list of its rounds
-- is finite, and where the list ends the next reading is at the deadline or past it.
unfoldable pub await : ℕ → List Tick → Outcome (Unit {0})
await deadline [] = raised timeout_error
await deadline (t ∷ ticks) =
    if leb deadline t.reading then raised timeout_error else elim t.callback [
      | none ↦ await deadline ticks
      | some none ↦ ok tt
      | some (some e) ↦ raised (kafka_exception (e ∷ []))
    ]

-- There is a round that reports a delivery: the rounds before it report nothing, and they and the
-- round itself begin before the deadline.
pub record IsAcknowledged (deadline : ℕ) (ticks : List Tick) : Type 0 where
  pub before : List Tick
  pub acknowledging : Tick
  pub after : List Tick
  pub split : ticks ≡ before ++ acknowledging ∷ after
  pub silent : All (λ (t : Tick). (t.reading < deadline) × (t.callback ≡ none)) before
  pub in_time : acknowledging.reading < deadline
  pub delivered : acknowledging.callback ≡ some none

await-IsAcknowledged :
    (deadline : ℕ) (ticks : List Tick)
    → await deadline ticks ≡ ok tt
    → IsAcknowledged deadline ticks
unfolding await
await-IsAcknowledged deadline [] e = absurd (ground (arith, e))
await-IsAcknowledged deadline (t ∷ ticks) e = elim (Bool-cases (leb deadline t.reading)) [
  | inl late ↦ absurd (ground (arith, e, late))
  | inr early ↦
      reported t.callback refl (await-IsAcknowledged deadline ticks)
        (subst (λ (b : Bool). (if b then raised timeout_error else awaited t.callback) ≡ ok tt)
          early e)
        (ground (arith, early))
]
  where
    awaited : Option (Option KafkaArgument) → Outcome (Unit {0})
    awaited callback = elim callback [
      | none ↦ await deadline ticks
      | some none ↦ ok tt
      | some (some e) ↦ raised (kafka_exception (e ∷ []))
    ]

    reported :
        (callback : Option (Option KafkaArgument))
        → t.callback ≡ callback
        → (await deadline ticks ≡ ok tt → IsAcknowledged deadline ticks)
        → awaited callback ≡ ok tt
        → t.reading < deadline
        → IsAcknowledged deadline (t ∷ ticks)
    reported none at later e early =
        let rest = later e in
        record {
          before = t ∷ rest.before;
          acknowledging = rest.acknowledging;
          after = rest.after;
          split = ap (λ l. t ∷ l) rest.split;
          silent = ((early, at), rest.silent);
          in_time = rest.in_time;
          delivered = rest.delivered;
        }
    reported (some none) at later e early = record {
      before = [];
      acknowledging = t;
      after = ticks;
      split = refl;
      silent = tt;
      in_time = early;
      delivered = at;
    }
    reported (some (some _)) at later e early = absurd (ground (arith, e))

-- the rounds that report nothing, then one that reports a delivery
acknowledged_at :
    (deadline : ℕ) (before : List Tick) (t : Tick) (after : List Tick)
    → All (λ (u : Tick). (u.reading < deadline) × (u.callback ≡ none)) before
    → t.reading < deadline
    → t.callback ≡ some none
    → await deadline (before ++ t ∷ after) ≡ ok tt
unfolding await
acknowledged_at deadline [] t after silent in_time delivered = ground (arith, in_time, delivered)
acknowledged_at deadline (u ∷ before) t after ((early, nothing), silent) in_time delivered =
    ground (arith, early, nothing, acknowledged_at deadline before t after silent in_time delivered)

-- Each round of the wait reads the clock and then polls. The wait returns exactly when some round
-- that begins before the deadline reports a delivery, and the rounds before it begin before the
-- deadline as well and report neither a delivery nor an error; in every other case it raises.
pub await_iff :
    (deadline : ℕ) (ticks : List Tick)
    → (await deadline ticks ≡ ok tt) ↔ IsAcknowledged deadline ticks
await_iff deadline ticks = (
  await-IsAcknowledged deadline ticks,
  λ h.
      rw (h.split)
        (acknowledged_at deadline h.before h.acknowledging h.after h.silent h.in_time h.delivered),
)
