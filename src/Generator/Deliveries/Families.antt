-- ===== src/Generator/Deliveries/Families.antt =====
-- What only an attempt changes in `DeliveryTracker` (generator/report.py).
use kafka_order_event_platfo.Prelude.{
  ℕ, ◌+◌, String, ◌≡◌, refl, sym, ◌∙◌, ap, Option, none, some, elem, nat_eq, string_eq, arith,
  if_split,
}
use kafka_order_event_platfo.Dict.{Dict, lookup, lookup-insert}
use kafka_order_event_platfo.Outcome.{Outcome}
use kafka_order_event_platfo.Generator.Records.{EventFamily, family_value}
use kafka_order_event_platfo.Generator.Deliveries.{
  DeliveryTracker, or_zero, count_one, begin_attempt, mark_delivered, time_delivery, count_delivery,
  mark_failed, fail_pending,
}
use kafka_order_event_platfo.Generator.Deliveries.Counts.{
  Reach, fresh, begins, delivers, fails, gives_up,
}

abbrev pub IsSteady : DeliveryTracker → DeliveryTracker → Type 0
IsSteady t u = (u.attempted ≡ t.attempted) × (u.families ≡ t.families)

pub mark_failed-IsSteady : (token : ℕ) (t : DeliveryTracker) → IsSteady t (mark_failed token t)
unfolding mark_failed
mark_failed-IsSteady token t =
    if_split (IsSteady t) (elem token t.pending) (λ _. (refl, refl)) (λ _. (refl, refl))

count_delivery-IsSteady :
    (injection : Option String) (token : ℕ) (location : Option ((String × ℕ) × ℕ))
    (t : DeliveryTracker)
    → IsSteady t (count_delivery injection token location t).1
unfolding count_delivery
count_delivery-IsSteady none token location t = (refl, refl)
count_delivery-IsSteady (some injection) token location t = (refl, refl)

time_delivery-IsSteady :
    (start : Option ℕ) (token now : ℕ) (location : Option ((String × ℕ) × ℕ)) (t : DeliveryTracker)
    → IsSteady t (time_delivery start token now location t).1
unfolding time_delivery
time_delivery-IsSteady none token now location t = (refl, refl)
time_delivery-IsSteady (some start) token now location t =
    count_delivery-IsSteady (lookup token t.token_injection) token location _

pub mark_delivered-IsSteady :
    (token now : ℕ) (location : Option ((String × ℕ) × ℕ)) (t : DeliveryTracker)
    → IsSteady t (mark_delivered token now location t).1
unfolding mark_delivered
mark_delivered-IsSteady token now location t =
    if_split (λ (r : Outcome (Unit {0}) × DeliveryTracker). IsSteady t r.1) (elem token t.pending)
      (λ _. time_delivery-IsSteady (lookup token t.started) token now location _)
      (λ _. (refl, refl))

abbrev pub in_families : Dict String ℕ → ℕ
in_families d = or_zero (lookup "order" d) + or_zero (lookup "log" d)

in_families-count_one :
    (family : EventFamily) (d : Dict String ℕ)
    → in_families (count_one (family_value family) d) ≡ in_families d + 1
in_families-count_one EventFamily.order d =
    let n = or_zero (lookup "order" d) + 1 in
    rw (lookup-insert "order" "order" n d, lookup-insert "order" "log" n d) (omega arith)
in_families-count_one EventFamily.log d =
    let n = or_zero (lookup "log" d) + 1 in
    rw (lookup-insert "log" "order" n d, lookup-insert "log" "log" n d) (omega arith)

IsSteady-families :
    (t u : DeliveryTracker)
    → IsSteady t u
    → in_families t.families ≡ t.attempted
    → in_families u.families ≡ u.attempted
IsSteady-families t u (attempted, families) h = ap in_families families ∙ h ∙ sym attempted

-- Every attempt is of an order event or a log event.
pub Reach-families : {t : DeliveryTracker} → Reach t → in_families t.families ≡ t.attempted
unfolding begin_attempt fail_pending
Reach-families fresh = refl
Reach-families (begins {t = t} r now run) =
    in_families-count_one r.family t.families ∙ ap (λ n. n + 1) (Reach-families run)
Reach-families (delivers {t = t} token now location run) =
    IsSteady-families t (mark_delivered token now location t).1
      (mark_delivered-IsSteady token now location t) (Reach-families run)
Reach-families (fails {t = t} token run) =
    IsSteady-families t (mark_failed token t) (mark_failed-IsSteady token t) (Reach-families run)
Reach-families (gives_up run) = Reach-families run
