-- ===== src/Consumer/Offsets/Tracker.antt =====
-- The state and the methods of `ContiguousOffsetTracker` (consumer/offsets.py).
use kafka_order_event_platfo.Prelude.{
  ℕ, String, Bool, true, false, not, ◌&&◌, ◌||◌, Option, none, some, List, [], ◌∷◌, ltb, leb,
  if◌then◌else◌, length, elem, nat_eq, string_eq, pair_eq,
}
use kafka_order_event_platfo.Dict.{Dict, lookup, insert, erase, set_default}
use kafka_order_event_platfo.Outcome.{Exec, ok, raised, value_error, key_error, ◌>>◌, pure}
use kafka_order_event_platfo.Models.Message.{KafkaCoordinate}
use kafka_order_event_platfo.Consumer.Offsets.Frontier.{advance}

-- topic and partition
abbrev pub PartitionKey : Type 0
PartitionKey = String × ℕ

abbrev pub partition_key : KafkaCoordinate → PartitionKey
partition_key c = (c.topic, c.partition)

-- `offsets`: an observed offset, and whether its record is durable
pub record PartitionState : Type 0 where
  pub committed_next : ℕ
  pub offsets : Dict ℕ Bool

abbrev pub Tracker : Type 0
Tracker = Dict PartitionKey PartitionState

abbrev pub empty_tracker : Tracker
empty_tracker = []

abbrev pub fresh_state : ℕ → PartitionState
fresh_state offset = record { committed_next = offset; offsets = [] }

-- `self._states.setdefault(key, _PartitionState(coordinate.offset))`
abbrev pub state_or_fresh : ℕ → Option PartitionState → PartitionState
state_or_fresh offset none = fresh_state offset
state_or_fresh offset (some s) = s

unfoldable pub observe_state : ℕ → PartitionState → PartitionState
observe_state offset s =
    if leb s.committed_next offset
    then record s { offsets = set_default offset false s.offsets }
    else s

unfoldable pub observe : KafkaCoordinate → Tracker → Tracker
observe c t =
    let key = partition_key c in
    insert key (observe_state c.offset (state_or_fresh c.offset (lookup key t))) t

abbrev pub contains : ℕ → Dict ℕ Bool → Bool
contains o d = elim (lookup o d) [ none ↦ false | some _ ↦ true ]

abbrev pub mark_durable : ℕ → PartitionState → PartitionState
mark_durable offset s = record s { offsets = insert offset true s.offsets }

unfoldable pub complete_state : KafkaCoordinate → Option PartitionState → Exec Tracker (Unit {0})
complete_state c none t = (raised (value_error "offset was not observed"), t)
complete_state c (some s) t =
    if contains c.offset s.offsets
    then (ok tt, insert (partition_key c) (mark_durable c.offset s) t)
    else (raised (value_error "offset was not observed"), t)

unfoldable pub complete : KafkaCoordinate → Exec Tracker (Unit {0})
unfolding complete_state
complete c t = complete_state c (lookup (partition_key c) t) t

unfoldable pub complete_many : List KafkaCoordinate → Exec Tracker (Unit {0})
complete_many [] = pure tt
complete_many (c ∷ cs) = complete c >> complete_many cs

-- `partitions is None or key in partitions`
abbrev pub is_selected : Option (List PartitionKey) → PartitionKey → Bool
is_selected none key = true
is_selected (some partitions) key = elem key partitions

-- the loop, with a round for each entry
unfoldable pub candidate : PartitionState → ℕ
candidate s = advance (length s.offsets) s.committed_next s.offsets

-- `result[key] = candidate`; the keys of a dict are distinct, so each is a new entry
unfoldable pub committable : Option (List PartitionKey) → Tracker → Dict PartitionKey ℕ
unfolding candidate
committable partitions [] = []
committable partitions ((key, s) ∷ t) =
    let rest = committable partitions t in
    let next = candidate s in
    if is_selected partitions key && ltb s.committed_next next then (key, next) ∷ rest else rest

-- `for offset in tuple(state.offsets): if offset < next_offset: del state.offsets[offset]`
unfoldable pub drop_below : ℕ → Dict ℕ Bool → Dict ℕ Bool
drop_below next [] = []
drop_below next ((o, b) ∷ d) =
    let rest = drop_below next d in if ltb o next then rest else (o, b) ∷ rest

abbrev pub advance_to : ℕ → PartitionState → PartitionState
advance_to next s = record { committed_next = next; offsets = drop_below next s.offsets }

unfoldable pub acknowledge_state :
    PartitionKey → ℕ → Option PartitionState → Exec Tracker (Unit {0})
unfolding drop_below
acknowledge_state key next none t = (raised key_error, t)
acknowledge_state key next (some s) t =
    if ltb next s.committed_next
    then (raised (value_error "committed offset cannot move backwards"), t)
    else (ok tt, insert key (advance_to next s) t)

unfoldable pub acknowledge_commit : PartitionKey → ℕ → Exec Tracker (Unit {0})
unfolding acknowledge_state
acknowledge_commit key next t = acknowledge_state key next (lookup key t) t

unfoldable pub forget : List PartitionKey → Tracker → Tracker
forget [] t = t
forget (key ∷ keys) t = forget keys (erase key t)

abbrev any_pending : Dict ℕ Bool → Bool
any_pending [] = false
any_pending ((_, completed) ∷ d) = not completed || any_pending d

unfoldable pub has_pending : Option (List PartitionKey) → Tracker → Bool
has_pending partitions [] = false
has_pending partitions ((key, s) ∷ t) =
    (is_selected partitions key && any_pending s.offsets) || has_pending partitions t
