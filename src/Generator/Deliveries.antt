-- ===== src/Generator/Deliveries.antt =====
-- `DeliveryTracker` of generator/report.py. The lock makes each method one step. A clock reading is a
-- number of seconds and an argument of the methods that read it.
pub mod Counts
pub mod Families
use kafka_order_event_platfo.Prelude.{
  ℕ, ◌+◌, ◌-◌, ◌*◌, String, Bool, true, false, Option, none, some, List, [], ◌∷◌, ◌++◌,
  if◌then◌else◌, ◌==◌, length, elem, nat_eq, string_eq, pair_eq,
}
use kafka_order_event_platfo.Dict.{Dict, lookup, insert, erase}
use kafka_order_event_platfo.Outcome.{Exec, ok, raised, key_error}
use kafka_order_event_platfo.Generator.Records.{
  GeneratedRecord, family_value, injection_value, InvalidKind, invalid_value,
}
use kafka_order_event_platfo.Generator.Ranges.{Range, insert_offset}

pub record DeliveryTracker : Type 0 where
  pub attempted : ℕ
  pub delivered : ℕ
  pub failed : ℕ
  pub pending : List ℕ
  pub started : Dict ℕ ℕ
  pub token_injection : Dict ℕ String
  pub next_token : ℕ
  pub families : Dict String ℕ
  pub injections : Dict String ℕ
  pub invalid_types : Dict String ℕ
  pub delivered_injections : Dict String ℕ
  pub latencies_ms : List ℕ
  pub offset_ranges : Dict (String × ℕ) (List Range)

abbrev pub new_tracker : DeliveryTracker
new_tracker = record {
  attempted = 0;
  delivered = 0;
  failed = 0;
  pending = [];
  started = [];
  token_injection = [];
  next_token = 0;
  families = [];
  injections = [];
  invalid_types = [];
  delivered_injections = [];
  latencies_ms = [];
  offset_ranges = [];
}

abbrev pub or_zero : Option ℕ → ℕ
or_zero none = 0
or_zero (some n) = n

-- `counter[key] += 1`
abbrev pub count_one : String → Dict String ℕ → Dict String ℕ
count_one key d = insert key (or_zero (lookup key d) + 1) d

abbrev pub count_invalid : Option InvalidKind → Dict String ℕ → Dict String ℕ
count_invalid none d = d
count_invalid (some kind) d = count_one (invalid_value kind) d

-- `set.remove`
abbrev pub remove : ℕ → List ℕ → List ℕ
remove token [] = []
remove token (x ∷ l) = let rest = remove token l in if x == token then rest else x ∷ rest

unfoldable pub begin_attempt : GeneratedRecord → ℕ → DeliveryTracker → ℕ × DeliveryTracker
begin_attempt r now t = (
  t.next_token,
  record t {
    next_token = t.next_token + 1;
    attempted = t.attempted + 1;
    pending = t.next_token ∷ t.pending;
    started = insert t.next_token now t.started;
    token_injection = insert t.next_token (injection_value r.injection_kind) t.token_injection;
    families = count_one (family_value r.family) t.families;
    injections = count_one (injection_value r.injection_kind) t.injections;
    invalid_types = count_invalid r.invalid_kind t.invalid_types;
  },
)

abbrev pub or_no_ranges : Option (List Range) → List Range
or_no_ranges none = []
or_no_ranges (some ranges) = ranges

-- `_insert_offset`, where the callback has told the topic, the partition and the offset
abbrev pub add_location :
    Option ((String × ℕ) × ℕ) → Dict (String × ℕ) (List Range) → Dict (String × ℕ) (List Range)
add_location none d = d
add_location (some (key, offset)) d =
    insert key (insert_offset offset (or_no_ranges (lookup key d))) d

-- `self._token_injection.pop(token)` and what follows
unfoldable pub count_delivery :
    Option String → ℕ → Option ((String × ℕ) × ℕ) → Exec DeliveryTracker (Unit {0})
count_delivery none token location t = (raised key_error, t)
count_delivery (some injection) token location t = (
  ok tt,
  record t {
    token_injection = erase token t.token_injection;
    delivered_injections = count_one injection t.delivered_injections;
    offset_ranges = add_location location t.offset_ranges;
  },
)

-- `self._started.pop(token)` and what follows; a clock that went back counts as no time
unfoldable pub time_delivery :
    Option ℕ → ℕ → ℕ → Option ((String × ℕ) × ℕ) → Exec DeliveryTracker (Unit {0})
unfolding count_delivery
time_delivery none token now location t = (raised key_error, t)
time_delivery (some start) token now location t =
    count_delivery (lookup token t.token_injection) token location (record t {
      started = erase token t.started;
      latencies_ms = t.latencies_ms ++ (now - start) * 1000 ∷ [];
    })

unfoldable pub mark_delivered : ℕ → ℕ → Option ((String × ℕ) × ℕ) → Exec DeliveryTracker (Unit {0})
unfolding time_delivery
mark_delivered token now location t =
    if elem token t.pending
    then time_delivery (lookup token t.started) token now location
        (record t { pending = remove token t.pending; delivered = t.delivered + 1 })
    else (ok tt, t)

unfoldable pub mark_failed : ℕ → DeliveryTracker → DeliveryTracker
mark_failed token t =
    if elem token t.pending
    then record t {
      pending = remove token t.pending;
      started = erase token t.started;
      token_injection = erase token t.token_injection;
      failed = t.failed + 1;
    }
    else t

unfoldable pub fail_pending : DeliveryTracker → ℕ × DeliveryTracker
fail_pending t = (
  length t.pending,
  record t {
    failed = t.failed + length t.pending;
    pending = [];
    started = [];
    token_injection = [];
  },
)
