-- ===== src/Consumer/World/Calls.antt =====
-- The calls of the consumers to PostgreSQL and Kafka, each with what has come about when it
-- returns or raises.
use kafka_order_event_platfo.Prelude.{
  ℕ, ◌+◌, String, Bool, true, false, ◌||◌, Option, none, some, List, [], ◌∷◌, ◌++◌, if◌then◌else◌,
}
use kafka_order_event_platfo.Outcome.{Error, Outcome, Exec, ok, raised, KafkaArgument}
use kafka_order_event_platfo.Models.Event.{Datetime, aware}
use kafka_order_event_platfo.Models.Message.{KafkaMessage, DlqMessage}
use kafka_order_event_platfo.Database.Models.{Database}
use kafka_order_event_platfo.Kafka.Consumer.{Polled, nothing, poll_result, raise_partition_errors}
use kafka_order_event_platfo.Kafka.Dlq.{Tick, await}
use kafka_order_event_platfo.Consumer.Retry.{RetryPolicy, RetryOptions}
use kafka_order_event_platfo.Consumer.Offsets.{PartitionKey}

-- How a transaction ends: it commits; it fails and is rolled back; or it commits and the answer is
-- lost, so that the caller sees an error.
pub data Fate : Type 0 where
  commits : Fate
  fails : Error → Fate
  unseen : Error → Fate

-- A delivery to the dead-letter topic: an error of `produce` itself, the clock at its start, the
-- rounds of the wait, and whether the broker stores the record although no callback says so.
pub record Delivery : Type 0 where
  pub refusal : Option Error
  pub start : ℕ
  pub ticks : List Tick
  pub stored : Bool

abbrev pub prompt_delivery : Delivery
prompt_delivery = record {
  refusal = none;
  start = 0;
  ticks = record { reading = 0; callback = some none } ∷ [];
  stored = true;
}

-- An offset commit: an error of the call itself, the errors of its partitions, and whether Kafka
-- stores the offsets although the call reports an error.
pub record CommitReply : Type 0 where
  pub refusal : Option Error
  pub errors : List (Option KafkaArgument)
  pub stored : Bool

abbrev pub prompt_commit : CommitReply
prompt_commit = record { refusal = none; errors = []; stored = true }

pub record World : Type 0 where
  pub database : Database
  pub transactions : List Fate
  -- records that the broker has stored in the dead-letter topic, oldest first
  pub dlq : List (String × DlqMessage)
  pub deliveries : List Delivery
  -- next offsets that Kafka has stored for partitions, oldest first
  pub committed : List (PartitionKey × ℕ)
  pub commits : List CommitReply
  pub polls : List Polled
  -- coming readings of the wall clock
  pub clock : List Datetime
  pub slept : List ℕ
  pub warnings : List (Error × ℕ × ℕ)

abbrev pub next_or {ℓ} : {A : Type ℓ} → A → List A → A × List A
next_or default [] = (default, [])
next_or default (a ∷ rest) = (a, rest)

module _ {A : Type 0} where
  -- A body that raises is rolled back whatever the fate of the commit would have been.
  unfoldable pub settle_transaction : Fate → Outcome A × Database → Exec World A
  settle_transaction (fails e) r w = (raised e, w)
  settle_transaction commits (ok a, db) w = (ok a, record w { database = db })
  settle_transaction commits (raised e, db) w = (raised e, w)
  settle_transaction (unseen e) (ok a, db) w = (raised e, record w { database = db })
  settle_transaction (unseen e) (raised e', db) w = (raised e', w)

  -- `with self._session_factory() as session, session.begin(): return body(session)`
  unfoldable pub transaction : Exec Database A → Exec World A
  unfolding settle_transaction
  transaction body w =
      let (fate, rest) = next_or commits w.transactions in
      settle_transaction fate (body w.database) (record w { transactions = rest })

abbrev pub is_ok {ℓ} : {A : Type ℓ} → Outcome A → Bool
is_ok (ok _) = true
is_ok (raised _) = false

-- An acknowledgement means that the broker has stored the record.
unfoldable pub settle_delivery :
    Option Error → Bool → Outcome (Unit {0}) → String → DlqMessage → Exec World (Unit {0})
settle_delivery (some e) stored r key message w = (raised e, w)
settle_delivery none stored r key message w =
    (r, if is_ok r || stored then record w { dlq = w.dlq ++ (key, message) ∷ [] } else w)

-- `DlqProducer.publish`
unfoldable pub publish : ℕ → String → DlqMessage → Exec World (Unit {0})
unfolding settle_delivery
publish timeout key message w =
    let (d, rest) = next_or prompt_delivery w.deliveries in
    settle_delivery d.refusal d.stored (await (d.start + timeout) d.ticks) key message
      (record w { deliveries = rest })

unfoldable pub settle_commit :
    Option Error → Bool → Outcome (Unit {0}) → PartitionKey → ℕ → Exec World (Unit {0})
settle_commit refusal stored r key next w =
    let result : Outcome (Unit {0}) = elim refusal [ some e ↦ raised e | none ↦ r ] in
    (
      result,
      if is_ok result || stored
          then record w { committed = w.committed ++ (key, next) ∷ [] }
          else w,
    )

-- `ManualKafkaConsumer.commit_offsets` for one position, and `commit` for one message, which
-- commits the offset after it
unfoldable pub commit_position : PartitionKey → ℕ → Exec World (Unit {0})
unfolding settle_commit raise_partition_errors
commit_position key next w =
    let (c, rest) = next_or prompt_commit w.commits in
    settle_commit c.refusal c.stored (raise_partition_errors c.errors) key next
      (record w { commits = rest })

unfoldable pub commit_message : KafkaMessage → Exec World (Unit {0})
unfolding commit_position
commit_message m = commit_position (m.topic, m.partition) (m.offset + 1)

unfoldable pub poll : Exec World (Option KafkaMessage)
unfolding poll_result
poll w = let (p, rest) = next_or nothing w.polls in (poll_result p, record w { polls = rest })

-- `datetime.now(UTC)`
unfoldable pub read_clock : Exec World Datetime
read_clock w = let (t, rest) = next_or (aware 0) w.clock in (ok t, record w { clock = rest })

-- the keyword arguments that every call of `run_with_retry` in the consumers shares
unfoldable pub retrying : RetryPolicy → String → (Error → Bool) → RetryOptions World
retrying policy name is_retryable = record {
  operation_name = name;
  policy = policy;
  is_retryable = is_retryable;
  sleeper = λ seconds w. record w { slept = w.slept ++ seconds ∷ [] };
  on_retry = some (λ e n seconds w. record w { warnings = w.warnings ++ (e, n, seconds) ∷ [] });
}
