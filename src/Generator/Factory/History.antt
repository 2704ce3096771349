-- ===== src/Generator/Factory/History.antt =====
-- The records that generator/factory.py creates, and the bounded history that it replays them from.
use kafka_order_event_platfo.Prelude.{
  ℕ, zero, suc, ◌+◌, ◌-◌, ◌%◌, Bool, true, false, ◌||◌, not, none, some, List, [], ◌∷◌, ◌++◌,
  length, if◌then◌else◌, ltb, ◌==◌, string_eq, nat_eq,
}
use kafka_order_event_platfo.Outcome.{
  Outcome, Exec, ok, raised, value_error, runtime_error, pure, raise, lift, modify, ◌>>=◌, ◌>>◌,
}
use kafka_order_event_platfo.Models.Json.{Json, object}
use kafka_order_event_platfo.Models.Event.{
  Datetime, naive, aware, EventType, order_created, order_paid, order_cancelled, payment_failed,
  api_access_log, application_error_log,
}
use kafka_order_event_platfo.Generator.Records.{
  EventFamily, InjectionKind, InvalidKind, invalid_value, missing_required_field, GeneratedRecord,
  GeneratorOptions,
}
use kafka_order_event_platfo.Generator.Factory.Draws.{
  FactoryState, random_millionths, choice, read_factory_clock,
}
use kafka_order_event_platfo.Generator.Factory.Payloads.{FactoryCodec, build_event, route}
use kafka_order_event_platfo.Generator.Factory.Mutations.{invalid_kinds_for, mutate_invalid}

abbrev pub duplicate_history_limit : ℕ
duplicate_history_limit = 10000

abbrev pub earlier_by : ℕ → Datetime → Datetime
earlier_by d (naive t) = naive (t - d)
earlier_by d (aware t) = aware (t - d)

abbrev pub kind_elem : InvalidKind → List InvalidKind → Bool
kind_elem kind [] = false
kind_elem kind (k ∷ l) = invalid_value k == invalid_value kind || kind_elem kind l

abbrev pub choice_of_kinds : List InvalidKind → Exec FactoryState InvalidKind
choice_of_kinds [] = pure missing_required_field
choice_of_kinds (k ∷ l) = choice k l

unfoldable pub create_duplicate : GeneratedRecord → GeneratedRecord
create_duplicate original = record original {
  injection_kind = InjectionKind.duplicate;
  invalid_kind = none;
}

-- `choice(self._history[family])`, of a history that is not empty
abbrev pub choice_of_history :
    GeneratedRecord → List GeneratedRecord → Exec FactoryState GeneratedRecord
choice_of_history r l = choice r l >>= λ original. pure (create_duplicate original)

-- a value that is no object would have no `get`
abbrev pub mutate_value : InvalidKind → Json → Outcome Json
mutate_value kind (object fields) = elim (mutate_invalid kind fields) [
  | ok mutated ↦ ok (object mutated)
  | raised e ↦ raised e
]
mutate_value kind _ = raised (runtime_error "AttributeError")

-- `history[cursor] = record`
abbrev pub set_item : ℕ → GeneratedRecord → List GeneratedRecord → List GeneratedRecord
set_item n r [] = []
set_item zero r (x ∷ l) = r ∷ l
set_item (suc n) r (x ∷ l) = x ∷ set_item n r l

-- the history and the cursor of one family, once the record is in it
unfoldable pub remember_in : GeneratedRecord → List GeneratedRecord → ℕ → List GeneratedRecord × ℕ
remember_in r history cursor =
    if ltb (length history) duplicate_history_limit
    then (history ++ r ∷ [], cursor)
    else (set_item cursor r history, (cursor + 1) % duplicate_history_limit)

unfoldable pub remember : EventFamily → GeneratedRecord → FactoryState → FactoryState
unfolding remember_in
remember EventFamily.order r s =
    let (history, cursor) = remember_in r s.order_history s.order_cursor in
    record s { order_history = history; order_cursor = cursor }
remember EventFamily.log r s =
    let (history, cursor) = remember_in r s.log_history s.log_cursor in
    record s { log_history = history; log_cursor = cursor }

abbrev pub history_of : EventFamily → FactoryState → List GeneratedRecord
history_of EventFamily.order s = s.order_history
history_of EventFamily.log s = s.log_history

unfoldable pub choose_family : ℕ → Exec FactoryState EventFamily
choose_family order_ratio = random_millionths >>= λ n.
    pure (if ltb n order_ratio then EventFamily.order else EventFamily.log)

unfoldable pub choose_event_type : EventFamily → ℕ → Exec FactoryState EventType
choose_event_type EventFamily.order ratio =
    choice order_created (order_paid ∷ order_cancelled ∷ payment_failed ∷ [])
choose_event_type EventFamily.log ratio =
    random_millionths >>= λ n. pure (if ltb n ratio then application_error_log else api_access_log)

module _ (codec : FactoryCodec) where
  unfoldable pub create_normal : EventType → Exec FactoryState GeneratedRecord
  create_normal type = do
    t ← read_factory_clock
    event ← build_event codec type t
    pure (route codec event InjectionKind.normal)

  unfoldable pub create_stale : EventType → ℕ → Exec FactoryState GeneratedRecord
  create_stale type stale_time = do
    t ← read_factory_clock
    event ← build_event codec type (earlier_by stale_time t)
    pure (route codec event InjectionKind.stale)

  unfoldable pub create_invalid : EventType → InvalidKind → Exec FactoryState GeneratedRecord
  create_invalid type kind =
      if not (kind_elem kind (invalid_kinds_for type))
      then raise (value_error "invalid kind is not valid for the event type")
      else do
        valid ← create_normal type
        value ← lift (mutate_value kind valid.value)
        pure (record valid {
          value = value;
          injection_kind = InjectionKind.invalid;
          invalid_kind = some kind;
        })

  -- the record is remembered where duplicates are wanted at all
  abbrev pub normal_record :
      GeneratorOptions → EventFamily → EventType → Exec FactoryState GeneratedRecord
  normal_record options family type = create_normal type >>= λ r.
      modify (if ltb 0 options.duplicate_rate then remember family r else λ s. s) >> pure r

  abbrev pub duplicate_or_normal :
      GeneratorOptions
      → EventFamily
      → EventType
      → Bool
      → List GeneratedRecord
      → Exec FactoryState GeneratedRecord
  duplicate_or_normal options family type true (r ∷ l) = choice_of_history r l
  duplicate_or_normal options family type true [] = normal_record options family type
  duplicate_or_normal options family type false l = normal_record options family type

  -- what the roll decides, once the family and the type are chosen
  unfoldable pub by_roll :
      GeneratorOptions → EventFamily → EventType → ℕ → Exec FactoryState GeneratedRecord
  unfolding create_invalid create_stale create_normal remember
  by_roll options family type roll s =
      if ltb roll options.invalid_rate
      then (choice_of_kinds (invalid_kinds_for type) >>= λ kind. create_invalid type kind) s
      else if ltb roll (options.invalid_rate + options.stale_rate)
      then create_stale type options.stale_time s
      else duplicate_or_normal options family type
          (ltb roll (options.invalid_rate + options.stale_rate + options.duplicate_rate))
          (history_of family s) s

  unfoldable pub next_record : GeneratorOptions → Exec FactoryState GeneratedRecord
  unfolding by_roll
  next_record options = do
    family ← choose_family options.order_ratio
    type ← choose_event_type family options.application_error_ratio
    roll ← random_millionths
    by_roll options family type roll

-- A history is bounded, and its cursor is inside it once it is full.
