-- ===== src/Consumer/Order/Returning.antt =====
-- `OrderProcessor.process` of consumer/order.py, up to the commit, where the database and the topics
-- answer at once.
use kafka_order_event_platfo.Prelude.{
  refl, ◌∙◌, ◌≡◌, Bool, true, nat_eq, ◌<◌, String, Option, none, some, if◌then◌else◌,
}
use kafka_order_event_platfo.Outcome.{Outcome, ok, raised, permanent, PermanentMessageError, pure}
use kafka_order_event_platfo.Models.Event.{envelope, OrderEvent, Datetime, aware}
use kafka_order_event_platfo.Models.Message.{KafkaMessage, KafkaCoordinate}
use kafka_order_event_platfo.Database.OrderRepository.{persist, order_row}
use kafka_order_event_platfo.Database.OrderRepository.Marking.{
  IsLinked, persist-Persisted, verdict, is_absent,
}
use kafka_order_event_platfo.Database.Models.{ValidOrder}
use kafka_order_event_platfo.Database.Columns.{row_fits, marker_fits}
use kafka_order_event_platfo.Dict.{lookup}
use kafka_order_event_platfo.Consumer.Retry.Rule.{Post-bind}
use kafka_order_event_platfo.Consumer.World.{World, transaction, publish, read_clock, next_or}
use kafka_order_event_platfo.Consumer.Errors.{Codec}
use kafka_order_event_platfo.Consumer.Order.{
  ConsumerSettings, dlqed, processed, duplicate, coordinate_of, persist_once, store_event,
  send_to_dlq, route,
}
use kafka_order_event_platfo.Consumer.Order.Prompt.{
  IsPrompt, Live, run_with_retry-Live, settle-IsPrompt, deliver-IsPrompt,
}

-- The message can be dealt with: it decodes to an event that the columns of the database admit, or
-- what decoding raises is a permanent error.
abbrev pub IsAdmitted : String → KafkaCoordinate → Outcome OrderEvent → Type 0
IsAdmitted group c (ok event) = (marker_fits group c ≡ true) × (row_fits (order_row event c) ≡ true)
IsAdmitted group c (raised (permanent e)) = Unit
IsAdmitted group c (raised _) = ⊥

returns_of :
    (marker row : Bool) (found : Option ValidOrder)
    → marker ≡ true
    → row ≡ true
    → verdict marker found row ≡ ok (is_absent found)
returns_of marker row none h k = rw (h, k) refl
returns_of marker row (some old) h k = rw h refl

module _ (codec : Codec) (settings : ConsumerSettings)
    (patient : 0 < settings.delivery_timeout) where
  store_event-IsPrompt :
      (event : OrderEvent) (c : KafkaCoordinate) (w : World)
      → IsAdmitted settings.consumer_group c (ok event)
      → IsPrompt w
      → IsLinked settings.consumer_group w.database
      → Live (λ _. IsPrompt) (store_event settings event c w)
  unfolding store_event persist_once transaction
  store_event-IsPrompt event c w admitted h linked =
      run_with_retry-Live _ _ (λ _. IsPrompt) w
        (settle-IsPrompt w.transactions (persist event c settings.consumer_group w.database) _ w
          h.transactions
          ((persist-Persisted event c settings.consumer_group w.database linked).0
            ∙ returns_of _ _ (lookup (envelope event).event_id w.database.valid_orders) admitted.0
                admitted.1)
          h)

  send_to_dlq-IsPrompt :
      (m : KafkaMessage) (e : PermanentMessageError) (t : Datetime) (w : World)
      → IsPrompt w
      → Live (λ _. IsPrompt) (send_to_dlq codec settings m e t w)
  unfolding send_to_dlq publish
  send_to_dlq-IsPrompt m e t w h =
      run_with_retry-Live _ _ (λ _. IsPrompt) w
        (deliver-IsPrompt w.deliveries settings.delivery_timeout _ _ w patient h.deliveries h)

  pub route-IsPrompt :
      (m : KafkaMessage) (decoded : Outcome OrderEvent) (w : World)
      → IsAdmitted settings.consumer_group (coordinate_of m) decoded
      → IsPrompt w
      → IsLinked settings.consumer_group w.database
      → Live (λ _. IsPrompt) (route codec settings m decoded w)
  unfolding route read_clock
  route-IsPrompt m (ok event) w d h linked =
      Post-bind (store_event settings event (coordinate_of m))
        (λ inserted. pure (if inserted then processed else duplicate)) (λ _. IsPrompt)
        (λ _. IsPrompt) (λ _. ⊥) w (store_event-IsPrompt event (coordinate_of m) w d h linked)
        (λ _ _ k. k)
  route-IsPrompt m (raised (permanent e)) w d h linked =
      let (t, rest) = next_or (aware 0) w.clock in
      let u = record w { clock = rest } in
      let prompt : IsPrompt u = record {
        transactions = h.transactions;
        deliveries = h.deliveries;
        commits = h.commits;
      } in
      Post-bind (send_to_dlq codec settings m e t) (λ _. pure dlqed) (λ _. IsPrompt) (λ _. IsPrompt)
        (λ _. ⊥) u (send_to_dlq-IsPrompt m e t u prompt) (λ _ _ k. k)
  route-IsPrompt m (raised _) w d h linked = absurd d
