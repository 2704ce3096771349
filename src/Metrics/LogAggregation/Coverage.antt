-- ===== src/Metrics/LogAggregation/Coverage.antt =====
-- No source coordinate is lost between `add` and the snapshot (metrics/log_aggregation.py).
use kafka_order_event_platfo.Prelude.{
  ℕ, ◌≡◌, refl, Bool, ◌||◌, Option, none, some, List, [], ◌∷◌, ◌++◌, arith, elem, elem-append,
  nat_eq,
}
use kafka_order_event_platfo.Dict.{lookup, insert, values}
use kafka_order_event_platfo.Outcome.{Outcome, ok, raised}
use kafka_order_event_platfo.Models.Message.{KafkaCoordinate, coordinate_eq, coordinate_beq_iff}
use kafka_order_event_platfo.Metrics.LogAggregation.Buffer.{
  BufferedLogEvent, Buffer, coordinates_of, from_keys, merge_event, merged, put_event, store,
}

elem-from_keys :
    (x : KafkaCoordinate) (seen cs : List KafkaCoordinate)
    → elem x (from_keys seen cs) ≡ (elem x seen || elem x cs)
elem-from_keys x seen [] = ground arith
elem-from_keys x seen (c ∷ cs) = ground (
  arith,
  elem-from_keys x seen cs,
  elem-from_keys x (seen ++ c ∷ []) cs,
  elem-append x seen (c ∷ []),
  coordinate_beq_iff c x,
)

abbrev pub held : KafkaCoordinate → Buffer → Bool
held x b = elem x (coordinates_of (values b))

module _ (x : KafkaCoordinate) (k : ℕ) (e : BufferedLogEvent) where
  held-insert_new :
      (b : Buffer) → lookup k b ≡ none → held x (insert k e b) ≡ (held x b || elem x e.coordinates)
  held-insert_new [] h = ground (arith, elem-append x e.coordinates [])
  held-insert_new ((j, v) ∷ b) h = ground (
    arith,
    held-insert_new b,
    elem-append x v.coordinates (coordinates_of (values b)),
    elem-append x v.coordinates (coordinates_of (values (insert k e b))),
  )

  held-insert_old :
      (old : BufferedLogEvent) (more : Bool) (b : Buffer)
      → lookup k b ≡ some old
      → elem x e.coordinates ≡ (elem x old.coordinates || more)
      → held x (insert k e b) ≡ (held x b || more)
  held-insert_old old more [] h same = cc
  held-insert_old old more ((j, v) ∷ b) h same = ground (
    arith,
    held-insert_old old more b,
    elem-append x v.coordinates (coordinates_of (values b)),
    elem-append x e.coordinates (coordinates_of (values b)),
    elem-append x v.coordinates (coordinates_of (values (insert k e b))),
  )

pub elem-merge_event :
    (x : KafkaCoordinate) (first second e : BufferedLogEvent)
    → merge_event first second ≡ ok e
    → elem x e.coordinates ≡ (elem x first.coordinates || elem x second.coordinates)
unfolding merge_event
elem-merge_event x first second e h = ground (
  arith,
  h,
  elem-from_keys x [] (first.coordinates ++ second.coordinates),
  elem-append x first.coordinates second.coordinates,
)

store_inv :
    (incoming : BufferedLogEvent) (r : Outcome BufferedLogEvent) (b b' : Buffer)
    → store incoming r b ≡ (ok tt, b')
    → (m : BufferedLogEvent) × (r ≡ ok m) × (b' ≡ insert incoming.event_id m b)
store_inv incoming (ok m) b b' h = (m, refl, ground (arith, h))
store_inv incoming (raised e) b b' h = ground (arith, h)

-- A call of the shared body that returns has stored the merged event.
pub put_event_inv :
    (incoming : BufferedLogEvent) (b b' : Buffer)
    → put_event incoming b ≡ (ok tt, b')
    → (m : BufferedLogEvent) × (merged (lookup incoming.event_id b) incoming ≡ ok m)
      × (b' ≡ insert incoming.event_id m b)
unfolding put_event
put_event_inv incoming b b' h = store_inv incoming _ b b' h

elem-merged :
    (x : KafkaCoordinate) (incoming m : BufferedLogEvent) (b : Buffer)
    (found : Option BufferedLogEvent)
    → lookup incoming.event_id b ≡ found
    → merged found incoming ≡ ok m
    → held x (insert incoming.event_id m b) ≡ (held x b || elem x incoming.coordinates)
unfolding merged
elem-merged x incoming m b none absent e =
    ground (arith, e, held-insert_new x incoming.event_id m b absent)
elem-merged x incoming m b (some old) present e =
    held-insert_old x incoming.event_id m old (elem x incoming.coordinates) b present
      (elem-merge_event x old incoming m e)

-- Storing an event keeps every coordinate that the buffer holds, and adds those of the event.
pub held-put_event :
    (x : KafkaCoordinate) (incoming : BufferedLogEvent) (b b' : Buffer)
    → put_event incoming b ≡ (ok tt, b')
    → held x b' ≡ (held x b || elem x incoming.coordinates)
held-put_event x incoming b b' h =
    let (m, e, eq) = put_event_inv incoming b b' h in
    rw eq (elem-merged x incoming m b (lookup incoming.event_id b) refl e)
