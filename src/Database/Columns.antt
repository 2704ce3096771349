-- ===== src/Database/Columns.antt =====
-- database/models.py: which values the columns of `valid_orders` and `processed_events` admit. An
-- identifier and a time of the program fit their columns.
use Prim.Native.Char.{code}
use kafka_order_event_platfo.Prelude.{
  ℕ, zero, suc, ◌^◌, String, Bool, true, false, ◌&&◌, not, Option, none, some, ltb, ◌==◌, nat_eq,
}
use kafka_order_event_platfo.Models.Message.{KafkaCoordinate}
use kafka_order_event_platfo.Database.Models.{ValidOrder}

-- `String(n)`: at most `n` characters, none of them the null character, which PostgreSQL refuses
unfoldable pub string_fits : ℕ → String → Bool
string_fits n String.[] = true
string_fits zero (String.◌∷◌ c s) = false
string_fits (suc n) (String.◌∷◌ c s) = let rest = string_fits n s in not (code c == 0) && rest

-- a column that may be null
abbrev pub optional_fits {ℓ} : {A : Type ℓ} → (A → Bool) → Option A → Bool
optional_fits fits none = true
optional_fits fits (some a) = fits a

-- `Integer`, `BigInteger`, and `Numeric(18, 2)` of a number of hundredths
abbrev pub integer_fits : ℕ → Bool
integer_fits n = ltb n (2 ^ 31)

abbrev pub big_integer_fits : ℕ → Bool
big_integer_fits n = ltb n (2 ^ 63)

abbrev pub numeric_fits : ℕ → Bool
numeric_fits n = ltb n (10 ^ 18)

unfoldable pub row_fits : ValidOrder → Bool
unfolding string_fits
row_fits row =
    string_fits 64 row.order_id
    && string_fits 50 row.event_type
    && string_fits 64 row.user_id
    && optional_fits (string_fits 64) row.product_id
    && optional_fits integer_fits row.quantity
    && optional_fits numeric_fits row.amount
    && optional_fits (string_fits 3) row.currency
    && optional_fits (string_fits 20) row.channel
    && string_fits 255 row.kafka_topic
    && integer_fits row.kafka_partition
    && big_integer_fits row.kafka_offset

unfoldable pub marker_fits : String → KafkaCoordinate → Bool
unfolding string_fits
marker_fits consumer_group c =
    string_fits 100 consumer_group
    && string_fits 255 c.topic
    && integer_fits c.partition
    && big_integer_fits c.offset
