-- ===== src/Consumer/Order/Polled.antt =====
-- What the loop of consumer/order.py has done so far, and what its polls do.
use mathlib.Core.List.{append_assoc}
use kafka_order_event_platfo.Prelude.{
  ℕ, ◌+◌, String, ◌≡◌, refl, sym, ◌∙◌, Bool, true, false, Option, none, some, List, [], ◌∷◌, ◌++◌,
  All, All-append,
}
use kafka_order_event_platfo.Outcome.{
  Error, Outcome, ok, raised, kafka_error, other_argument, partition_eof, code,
}
use kafka_order_event_platfo.Models.Message.{KafkaMessage}
use kafka_order_event_platfo.Kafka.Consumer.{
  Polled, nothing, message, broker_error, poll_result, raise_partition_errors,
  is_retryable_kafka_error,
}
use kafka_order_event_platfo.Database.OrderRepository.Marking.{IsLinked}
use kafka_order_event_platfo.Consumer.Retry.{RetryPolicy, wait}
use kafka_order_event_platfo.Consumer.Retry.Rule.{Post, run_with_retry-Post, Post-weaken}
use kafka_order_event_platfo.Consumer.Offsets.{PartitionKey}
use kafka_order_event_platfo.Consumer.World.{
  World, poll, next_or, settle_commit, commit_position, commit_message, prompt_commit, retrying,
}
use kafka_order_event_platfo.Consumer.Errors.{Codec}
use kafka_order_event_platfo.Consumer.Order.{ConsumerSettings, commit_processed, poll_once}
use kafka_order_event_platfo.Consumer.Order.Handled.{Handled, Handled-Kept, Kept, Progress}

-- The message is one of the poll results.
abbrev pub IsPolled : KafkaMessage → List Polled → Type 0
IsPolled m l = (before after : List Polled) × (l ≡ before ++ message m ∷ after)

abbrev pub position_after : KafkaMessage → PartitionKey × ℕ
position_after m = ((m.topic, m.partition), m.offset + 1)

-- A committed position is the one after a message that was polled and is dealt with.
abbrev pub IsJustified : Codec → List Polled → World → PartitionKey × ℕ → Type 0
IsJustified codec polls w position =
    (m : KafkaMessage) × IsPolled m polls × Handled codec m w × (position ≡ position_after m)

-- What the loop has done from `u` to `w`.
pub record Ran (codec : Codec) (group : String) (u w : World) : Type 0 where
  pub linked : IsLinked group w.database
  pub kept : Kept u w
  pub taken : (l : List Polled) × (u.polls ≡ l ++ w.polls)
  pub committed :
      (new : List (PartitionKey × ℕ)) × (w.committed ≡ u.committed ++ new)
      × All (IsJustified codec u.polls w) new

pub Kept-trans : (u v w : World) → Kept u v → Kept v w → Kept u w
Kept-trans u v w (rows, letters) (rows', letters') =
    (λ id row e. rows' id row (rows id row e), λ c e. letters' c (letters c e))

module _ (codec : Codec) (group : String) (u : World) where
  All-Kept :
      (l : List (PartitionKey × ℕ)) (v w : World)
      → Kept v w
      → All (IsJustified codec u.polls v) l
      → All (IsJustified codec u.polls w) l
  All-Kept [] v w h k = tt
  All-Kept (x ∷ l) v w h ((m, polled, handled, at), k) =
      ((m, polled, Handled-Kept codec m v w h handled, at), All-Kept l v w h k)

  -- A step that polls and commits nothing.
  Ran-Kept :
      (v w : World)
      → Ran codec group u v
      → IsLinked group w.database
      → Kept v w
      → w.polls ≡ v.polls
      → w.committed ≡ v.committed
      → Ran codec group u w
  Ran-Kept v w h linked kept polls committed =
      let (l, taken) = h.taken in
      let (new, at, justified) = h.committed in
      record {
        linked = linked;
        kept = Kept-trans u v w h.kept kept;
        taken = (l, rw (polls, taken));
        committed = (new, rw (committed, at), All-Kept new v w kept justified);
      }

  pub Ran-Progress : (v w : World) → Ran codec group u v → Progress group v w → Ran codec group u w
  Ran-Progress v w h p = Ran-Kept v w h p.linked (p.rows, p.letters) p.polls p.committed

  Ran-wait :
      (policy : RetryPolicy) (name : String) (is_retryable : Error → Bool) (k : ℕ) (error : Error)
      (v : World)
      → Ran codec group u v
      → Ran codec group u (wait (retrying policy name is_retryable) k error v)
  unfolding wait retrying
  Ran-wait policy name is_retryable k error v h =
      Ran-Kept v _ h h.linked (λ id row e. e, λ c e. e) refl refl

  -- A poll takes at most one result.
  Ran-take :
      (v : World) (p : Polled) (rest : List Polled)
      → v.polls ≡ p ∷ rest
      → Ran codec group u v
      → Ran codec group u (record v { polls = rest })
  Ran-take v p rest e h =
      let (l, taken) = h.taken in
      let (new, at, justified) = h.committed in
      record {
        linked = h.linked;
        kept = h.kept;
        taken = (l ++ p ∷ [], taken ∙ rw (e, append_assoc l (p ∷ []) rest));
        committed = (new, at, All-Kept new v _ (λ id row e. e, λ c e. e) justified);
      }

  -- What a poll has established: its message is one of the results.
  abbrev pub Polling : Option KafkaMessage → World → Type 0
  Polling none w = Ran codec group u w
  Polling (some m) w = Ran codec group u w × IsPolled m u.polls

  taken-IsPolled :
      (v : World) (m : KafkaMessage) (rest : List Polled)
      → v.polls ≡ message m ∷ rest
      → Ran codec group u v
      → IsPolled m u.polls
  taken-IsPolled v m rest e h = let (l, taken) = h.taken in (l, rest, taken ∙ rw e)

  poll_result-Polling :
      (v : World) (p : Polled) (rest : List Polled)
      → v.polls ≡ p ∷ rest
      → Ran codec group u v
      → Post Polling (Ran codec group u) (poll_result p, record v { polls = rest })
  unfolding poll_result
  poll_result-Polling v nothing rest e h = Ran-take v nothing rest e h
  poll_result-Polling v (message m) rest e h =
      (Ran-take v (message m) rest e h, taken-IsPolled v m rest e h)
  poll_result-Polling v (broker_error (kafka_error partition_eof b)) rest e h =
      Ran-take v _ rest e h
  poll_result-Polling v (broker_error (kafka_error (code n) b)) rest e h = Ran-take v _ rest e h
  poll_result-Polling v (broker_error other_argument) rest e h = Ran-take v _ rest e h

  poll-Polling :
      (v : World) (polls : List Polled)
      → v.polls ≡ polls
      → Ran codec group u v
      → Post Polling
          (Ran codec group u)
          (poll_result (next_or nothing polls).0, record v { polls = (next_or nothing polls).1 })
  unfolding poll_result
  poll-Polling v [] e h = Ran-Kept v _ h h.linked (λ id row k. k, λ c k. k) (sym e) refl
  poll-Polling v (p ∷ rest) e h = poll_result-Polling v p rest e h

  pub poll_once-Polling :
      (settings : ConsumerSettings) (v : World)
      → Ran codec group u v
      → Post Polling (Ran codec group u) (poll_once settings v)
  unfolding poll_once poll
  poll_once-Polling settings =
      run_with_retry-Post _ poll Polling (Ran codec group u) (λ v h. poll-Polling v v.polls refl h)
        (λ k e v h. Ran-wait settings.retry_policy _ _ k e v h)

  module _ (m : KafkaMessage) (polled : IsPolled m u.polls) where
    abbrev Committing : World → Type 0
    Committing w = Ran codec group u w × Handled codec m w

    -- The position after the message is the last one that Kafka has stored.
    abbrev Committed : Unit {0} → World → Type 0
    Committed _ w =
        Ran codec group u w
        × Handled codec m w
        × ((earlier : List (PartitionKey × ℕ)) × (w.committed ≡ earlier ++ position_after m ∷ []))

    Ran-commit :
        (v : World)
        → Ran codec group u v
        → Handled codec m v
        → Ran codec group u (record v { committed = v.committed ++ position_after m ∷ [] })
    Ran-commit v h handled =
        let (new, at, justified) = h.committed in
        let w = record v { committed = v.committed ++ position_after m ∷ [] } in
        let same : Kept v w = (λ id row e. e, λ c e. e) in
        record {
          linked = h.linked;
          kept = h.kept;
          taken = h.taken;
          committed = (
            new ++ position_after m ∷ [],
            rw (at, append_assoc u.committed new (position_after m ∷ [])),
            All-append _ new (position_after m ∷ []) (All-Kept new v w same justified)
                ((m, polled, Handled-Kept codec m v w same handled, refl), tt),
          );
        }

    settle_commit-Committed :
        (refusal : Option Error) (stored : Bool) (r : Outcome (Unit {0})) (v : World)
        → Ran codec group u v
        → Handled codec m v
        → Post Committed Committing
            (settle_commit refusal stored r (m.topic, m.partition) (m.offset + 1) v)
    unfolding settle_commit
    settle_commit-Committed none stored (ok _) v h handled = (
      Ran-commit v h handled,
      Handled-Kept codec m v _ (λ id row k. k, λ c k. k) handled,
      (v.committed, refl),
    )
    settle_commit-Committed none true (raised e) v h handled =
        (Ran-commit v h handled, Handled-Kept codec m v _ (λ id row k. k, λ c k. k) handled)
    settle_commit-Committed none false (raised e) v h handled = (h, handled)
    settle_commit-Committed (some e) true r v h handled =
        (Ran-commit v h handled, Handled-Kept codec m v _ (λ id row k. k, λ c k. k) handled)
    settle_commit-Committed (some e) false r v h handled = (h, handled)

    commit_message-Committed :
        (v : World) → Committing v → Post Committed Committing (commit_message m v)
    unfolding commit_message commit_position
    commit_message-Committed v (h, handled) =
        let (c, rest) = next_or prompt_commit v.commits in
        let w = record v { commits = rest } in
        settle_commit-Committed c.refusal c.stored (raise_partition_errors c.errors) w
          (Ran-Kept v w h h.linked (λ id row k. k, λ c k. k) refl refl)
          (Handled-Kept codec m v w (λ id row k. k, λ c k. k) handled)

    pub commit_processed-Committed :
        (settings : ConsumerSettings) (v : World)
        → Ran codec group u v
        → Handled codec m v
        → Post Committed (Ran codec group u) (commit_processed settings m v)
    unfolding commit_processed wait retrying
    commit_processed-Committed settings v h handled =
        Post-weaken Committed Committing Committed (Ran codec group u)
          (commit_processed settings m v) (λ _ w k. k) (λ w k. k.0)
          (run_with_retry-Post _ (commit_message m) Committed Committing commit_message-Committed
            (λ k e w (ran, kept). (
              Ran-wait settings.retry_policy "Kafka offset commit" is_retryable_kafka_error k e w
                  ran,
              Handled-Kept codec m w _ (λ id row i. i, λ c i. i) kept,
            ))
            v (h, handled))
