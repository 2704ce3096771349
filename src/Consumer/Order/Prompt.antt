-- ===== src/Consumer/Order/Prompt.antt =====
-- The calls that consumer/order.py makes of the database, the topics and Kafka, where these answer
-- at once.
use kafka_order_event_platfo.Prelude.{
  ℕ, ◌+◌, ◌<◌, String, ◌≡◌, refl, sym, subst, Bool, true, Option, none, List, [], ◌∷◌, ◌++◌, arith,
}
use kafka_order_event_platfo.Outcome.{Outcome, Exec, ok, raised}
use kafka_order_event_platfo.Models.Message.{KafkaMessage, DlqMessage}
use kafka_order_event_platfo.Kafka.Consumer.{Polled, nothing, poll_result, raise_partition_errors}
use kafka_order_event_platfo.Kafka.Dlq.{await}
use kafka_order_event_platfo.Database.Models.{Database}
use kafka_order_event_platfo.Consumer.Retry.{RetryOptions, run_with_retry, attempts, settle}
use kafka_order_event_platfo.Consumer.Retry.Rule.{Post}
use kafka_order_event_platfo.Consumer.Offsets.{PartitionKey}
use kafka_order_event_platfo.Consumer.World.{
  World, Fate, Delivery, CommitReply, settle_transaction, settle_delivery, settle_commit, commits,
  next_or, prompt_delivery, prompt_commit,
}

-- Every coming transaction, delivery and commit succeeds at once.
pub record IsPrompt (w : World) : Type 0 where
  pub transactions : w.transactions ≡ []
  pub deliveries : w.deliveries ≡ []
  pub commits : w.commits ≡ []

-- The call returns, and has this to show for it.
abbrev pub Live : {A : Type 0} → (A → World → Type 0) → Outcome A × World → Type 0
Live Q r = Post Q (λ _. ⊥) r

-- A call that returns at its first attempt.
pub run_with_retry-Live :
    {A : Type 0} (o : RetryOptions World) (operation : Exec World A) (Q : A → World → Type 0)
    (w : World)
    → Live Q (operation w)
    → Live Q (run_with_retry o operation w)
unfolding run_with_retry attempts
run_with_retry-Live o operation Q w h = settled (operation w) h
  where
    settled :
        (r : Outcome _ × World)
        → Live Q r
        → Live Q (settle o (attempts o operation o.policy.max_retries 1) 0 r)
    settled (ok a, s) h = h
    settled (raised e, s) h = absurd h

pub settle-IsPrompt :
    (fates : List Fate) (r : Outcome Bool × Database) (b : Bool) (w : World)
    → fates ≡ []
    → r.0 ≡ ok b
    → IsPrompt w
    → Live
        (λ _. IsPrompt)
        (let (fate, rest) = next_or commits fates in
          settle_transaction fate r (record w { transactions = rest }))
unfolding settle_transaction
settle-IsPrompt [] (ok a, db) b w none_left returned h = record {
  transactions = refl;
  deliveries = h.deliveries;
  commits = h.commits;
}
settle-IsPrompt [] (raised e, db) b w none_left returned h = absurd (ground (arith, returned))
settle-IsPrompt (fate ∷ rest) r b w none_left returned h = absurd (ground (arith, none_left))

pub deliver-IsPrompt :
    (deliveries : List Delivery) (timeout : ℕ) (key : String) (d : DlqMessage) (w : World)
    → 0 < timeout
    → deliveries ≡ []
    → IsPrompt w
    → Live
        (λ _. IsPrompt)
        (let (delivery, rest) = next_or prompt_delivery deliveries in
          settle_delivery delivery.refusal delivery.stored
            (await (delivery.start + timeout) delivery.ticks)
            key
            d
            (record w { deliveries = rest }))
unfolding settle_delivery await
deliver-IsPrompt [] timeout key d w patient none_left h =
    let acknowledged : await (0 + timeout) prompt_delivery.ticks ≡ ok tt =
      ground (arith, patient) in
    subst
      (λ r. Live (λ _. IsPrompt) (settle_delivery none true r key d (record w { deliveries = [] })))
      (sym acknowledged)
      (record { transactions = h.transactions; deliveries = refl; commits = h.commits })
deliver-IsPrompt (_ ∷ _) timeout key d w patient none_left h = absurd (ground (arith, none_left))

-- A commit stores the position, and touches nothing else that is stored or is to come.
abbrev pub CommittedFrom : PartitionKey × ℕ → World → Unit {0} → World → Type 0
CommittedFrom position w _ v =
    IsPrompt v
    × (v.committed ≡ w.committed ++ position ∷ [])
    × (v.database ≡ w.database)
    × (v.dlq ≡ w.dlq)
    × (v.polls ≡ w.polls)

-- A poll takes the next answer, and touches nothing that is stored.
abbrev pub Answered :
    Option KafkaMessage → List Polled → World → Option KafkaMessage → World → Type 0
Answered answer rest w a v =
    (a ≡ answer)
    × IsPrompt v
    × (v.polls ≡ rest)
    × (v.committed ≡ w.committed)
    × (v.database ≡ w.database)
    × (v.dlq ≡ w.dlq)

pub commit-IsPrompt :
    (replies : List CommitReply) (position : PartitionKey × ℕ) (w : World)
    → replies ≡ []
    → IsPrompt w
    → Live (CommittedFrom position w) (
        let (reply, rest) = next_or prompt_commit replies in
        settle_commit reply.refusal reply.stored
          (raise_partition_errors reply.errors)
          position.0
          position.1
          (record w { commits = rest }))
unfolding settle_commit raise_partition_errors
commit-IsPrompt [] position w none_left h = (
  record { transactions = h.transactions; deliveries = h.deliveries; commits = refl },
  refl,
  refl,
  refl,
  refl,
)
commit-IsPrompt (_ ∷ _) position w none_left h = absurd (ground (arith, none_left))

answered :
    (r : Outcome (Option KafkaMessage)) (answer : Option KafkaMessage) (left rest : List Polled)
    (w : World)
    → r ≡ ok answer
    → left ≡ rest
    → IsPrompt w
    → Live (Answered answer rest w) (r, record w { polls = left })
answered (ok a) answer left rest w e same h = (
  ground (arith, e),
  record { transactions = h.transactions; deliveries = h.deliveries; commits = h.commits },
  same,
  refl,
  refl,
  refl,
)
answered (raised _) answer left rest w e same h = absurd (ground (arith, e))

pub poll-answer :
    (polls : List Polled) (p : Polled) (rest : List Polled) (answer : Option KafkaMessage)
    (w : World)
    → polls ≡ p ∷ rest
    → poll_result p ≡ ok answer
    → IsPrompt w
    → Live
        (Answered answer rest w)
        (let (q, left) = next_or nothing polls in (poll_result q, record w { polls = left }))
poll-answer [] p rest answer w h answers prompt = absurd (ground (arith, h))
poll-answer (q ∷ left) p rest answer w h answers prompt =
    answered (poll_result q) answer left rest w (ground (arith, h, answers)) (ground (arith, h))
      prompt
