-- ===== src/Generator/Factory/Draws.antt =====
-- The state of `EventFactory` of generator/factory.py, and its random choices. The generator of random
-- numbers is the standard library's: its coming results are a list of numbers in the state, each
-- brought into the range that the call asks for.
use Prim.Native.String.{◌++◌}
use kafka_order_event_platfo.Prelude.{
  ℕ, zero, suc, ◌+◌, ◌-◌, ◌/◌, ◌%◌, String, List, [], ◌∷◌, length, ltb, if◌then◌else◌,
}
use kafka_order_event_platfo.Text.{decimal}
use kafka_order_event_platfo.Outcome.{Exec, ok, pure, ◌>>=◌}
use kafka_order_event_platfo.Models.Event.{Datetime, aware}
use kafka_order_event_platfo.Consumer.World.{next_or}
use kafka_order_event_platfo.Generator.Records.{GeneratedRecord}

pub record FactoryState : Type 0 where
  pub draws : List ℕ
  pub clock : List Datetime
  pub order_history : List GeneratedRecord
  pub log_history : List GeneratedRecord
  pub order_cursor : ℕ
  pub log_cursor : ℕ

unfoldable pub draw : Exec FactoryState ℕ
draw s = let (n, rest) = next_or 0 s.draws in (ok n, record s { draws = rest })

-- `random()`, in millionths
abbrev pub random_millionths : Exec FactoryState ℕ
random_millionths = draw >>= λ n. pure (n % 1000000)

-- `randint(low, high)`
abbrev pub randint : ℕ → ℕ → Exec FactoryState ℕ
randint low high = draw >>= λ n. pure (low + n % (high - low + 1))

abbrev pub item {ℓ} : {A : Type ℓ} → A → List A → ℕ → A
item default [] n = default
item default (x ∷ l) zero = x
item default (x ∷ l) (suc n) = item default l n

-- `choice(x ∷ l)`, of a sequence that is not empty
abbrev pub choice : {A : Type 0} → A → List A → Exec FactoryState A
choice x l = draw >>= λ n. pure (item x (x ∷ l) (n % length (x ∷ l)))

unfoldable pub read_factory_clock : Exec FactoryState Datetime
read_factory_clock s =
    let (t, rest) = next_or (aware 0) s.clock in (ok t, record s { clock = rest })

-- `f"{n:08d}"`
abbrev pub zeros : ℕ → String
zeros zero = ""
zeros (suc n) = "0" ++ zeros n

abbrev pub digit_count : ℕ → ℕ → ℕ
digit_count zero n = 1
digit_count (suc fuel) n = let rest = digit_count fuel (n / 10) in if ltb n 10 then 1 else rest + 1

abbrev pub padded : ℕ → String
padded n = zeros (8 - digit_count n n) ++ decimal n

-- `_id`
unfoldable pub make_id : String → ℕ → Exec FactoryState String
make_id prefix maximum = randint 1 maximum >>= λ n. pure (prefix ++ ("-" ++ padded n))

-- `_amount`, in hundredths
unfoldable pub make_amount : Exec FactoryState ℕ
make_amount = randint 100 500000
