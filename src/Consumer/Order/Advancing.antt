-- ===== src/Consumer/Order/Advancing.antt =====
-- How far the loop of consumer/order.py has come, and how two stretches of it make one.
use mathlib.Core.List.{append_assoc}
use kafka_order_event_platfo.Prelude.{
  All, All-append, All-map, ap, ℕ, String, ◌≡◌, refl, ◌∙◌, Option, none, some, List, [], ◌∷◌, ◌++◌,
}
use kafka_order_event_platfo.Outcome.{Outcome, ok, raised}
use kafka_order_event_platfo.Models.Message.{KafkaMessage}
use kafka_order_event_platfo.Kafka.Consumer.{Polled, poll_result}
use kafka_order_event_platfo.Database.OrderRepository.Marking.{IsLinked}
use kafka_order_event_platfo.Consumer.Retry.Rule.{Post}
use kafka_order_event_platfo.Consumer.Offsets.{PartitionKey}
use kafka_order_event_platfo.Consumer.World.{World}
use kafka_order_event_platfo.Consumer.Errors.{Codec, or_empty}
use kafka_order_event_platfo.Consumer.Order.Handled.{Kept, Handled, Handled-Kept}
use kafka_order_event_platfo.Consumer.Order.Polled.{position_after, Kept-trans}
use kafka_order_event_platfo.Consumer.Order.Returning.{IsAdmitted}
use kafka_order_event_platfo.Consumer.Order.{coordinate_of, decode_order_event}
use kafka_order_event_platfo.Consumer.Order.Prompt.{IsPrompt, Live}

-- What two rules say of a call.
pub Live-and :
    {A : Type 0} (Q Q' : A → World → Type 0) (R : World → Type 0) (r : Outcome A × World)
    → Live Q r
    → Post Q' R r
    → Live (λ a w. Q a w × Q' a w) r
Live-and Q Q' R (ok a, s) h k = (h, k)
Live-and Q Q' R (raised e, s) h k = absurd h

-- A state of the run in which all that is to come is prompt.
pub record IsLive (group : String) (w : World) : Type 0 where
  pub prompt : IsPrompt w
  pub linked : IsLinked group w.database

abbrev pub positions : List KafkaMessage → List (PartitionKey × ℕ)
positions [] = []
positions (m ∷ ms) = position_after m ∷ positions ms

pub positions-append :
    (ms ns : List KafkaMessage) → positions (ms ++ ns) ≡ positions ms ++ positions ns
positions-append [] ns = refl
positions-append (m ∷ ms) ns = ap (λ l. position_after m ∷ l) (positions-append ms ns)

-- A state with the same database and dead letters has lost nothing.
pub same-Kept : (w v : World) → v.database ≡ w.database → v.dlq ≡ w.dlq → Kept w v
same-Kept w v stored letters = (λ id row e. rw stored e, λ c e. rw letters e)

-- From `w`, these messages have been dealt with and their positions committed, nothing that was
-- stored is lost, and these polls are left.
pub record Advanced (codec : Codec) (group : String) (w : World) (ms : List KafkaMessage)
    (rest : List Polled) {A : Type 0} (a : A) (v : World) : Type 0 where
  pub live : IsLive group v
  pub committed : v.committed ≡ w.committed ++ positions ms
  pub polls : v.polls ≡ rest
  pub kept : Kept w v
  pub dealt : All (λ m. Handled codec m v) ms

-- What is done from a state that has been reached is done from the first one.
pub Live-after :
    {A B : Type 0} (codec : Codec) (group : String) (w v : World) (ms ns : List KafkaMessage)
    (middle left rest : List Polled) (b : B) (r : Outcome A × World)
    → Advanced codec group w ms middle b v
    → left ≡ rest
    → Live (Advanced codec group v ns left) r
    → Live (Advanced codec group w (ms ++ ns) rest) r
Live-after codec group w v ms ns middle left rest b (ok a, x) first same next = record {
  live = next.live;
  committed =
      rw (next.committed, first.committed, positions-append ms ns)
        (append_assoc w.committed (positions ms) (positions ns));
  polls = next.polls ∙ same;
  kept = Kept-trans w v x first.kept next.kept;
  dealt =
      All-append (λ m. Handled codec m x) ms ns
        (All-map (λ m. Handled codec m v) (λ m. Handled codec m x) ms
          (λ m. Handled-Kept codec m v x next.kept) first.dealt)
        next.dealt;
}
Live-after codec group w v ms ns middle left rest b (raised e, x) first same h = absurd h

-- what a poll has brought
abbrev pub brought : Option KafkaMessage → List KafkaMessage
brought none = []
brought (some m) = m ∷ []

abbrev pub messages : List (Option KafkaMessage) → List KafkaMessage
messages [] = []
messages (answer ∷ answers) = brought answer ++ messages answers

-- The first polls give these answers, and raise nothing; then `rest` is to come.
abbrev pub Answers : List Polled → List (Option KafkaMessage) → List Polled → Type 0
Answers polls [] rest = polls ≡ rest
Answers [] (_ ∷ _) rest = ⊥
Answers (p ∷ polls) (answer ∷ answers) rest =
    (poll_result p ≡ ok answer) × Answers polls answers rest

-- What a poll brings, if anything, can be dealt with.
abbrev pub AnswerAdmitted : Codec → String → Option KafkaMessage → Type 0
AnswerAdmitted codec group none = Unit
AnswerAdmitted codec group (some m) =
    IsAdmitted group (coordinate_of m) (decode_order_event codec (or_empty m.value))
