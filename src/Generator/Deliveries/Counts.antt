-- ===== src/Generator/Deliveries/Counts.antt =====
-- Each attempt of `DeliveryTracker` (generator/report.py) is counted once.
use kafka_order_event_platfo.Prelude.{
  ℕ, ◌+◌, ◌-◌, ◌*◌, ◌<◌, String, ◌≡◌, refl, Bool, true, false, not, ◌&&◌, Option, none, some, List,
  [], ◌∷◌, ◌==◌, length, length-append, elem, nat_eq, string_eq, pair_eq, nat_beq_iff, arith, All,
  Bool-cases, Option-cases, inl, inr, if_split,
}
use kafka_order_event_platfo.Dict.{
  Dict, lookup, lookup-insert, lookup-erase, All-insert, All-lookup,
}
use kafka_order_event_platfo.Outcome.{Outcome, ok, raised}
use kafka_order_event_platfo.Consumer.Retry.Rule.{Post}
use kafka_order_event_platfo.Generator.Ranges.{Range, Apart, insert_offset-IsInserted}
use kafka_order_event_platfo.Generator.Records.{GeneratedRecord, injection_value}
use kafka_order_event_platfo.Generator.Deliveries.{
  DeliveryTracker, new_tracker, or_no_ranges, add_location, remove, begin_attempt, mark_delivered,
  mark_failed, fail_pending,
}

elem-remove : (k j : ℕ) (l : List ℕ) → elem j (remove k l) ≡ (elem j l && not (k == j))
elem-remove k j [] = refl
elem-remove k j (x ∷ l) =
    ground (arith, nat_beq_iff x k, nat_beq_iff x j, nat_beq_iff k j, elem-remove k j l)

-- No token occurs twice.
abbrev pub NoDuplicate : List ℕ → Type 0
NoDuplicate [] = Unit
NoDuplicate (x ∷ l) = (elem x l ≡ false) × NoDuplicate l

remove-NoDuplicate : (k : ℕ) (l : List ℕ) → NoDuplicate l → NoDuplicate (remove k l)
remove-NoDuplicate k [] h = tt
remove-NoDuplicate k (x ∷ l) h =
    if_split NoDuplicate (x == k) (λ _. remove-NoDuplicate k l h.1)
      (λ _. (ground (arith, elem-remove k x l, h.0), remove-NoDuplicate k l h.1))

remove_absent : (k : ℕ) (l : List ℕ) → elem k l ≡ false → remove k l ≡ l
remove_absent k [] h = refl
remove_absent k (x ∷ l) h = ground (arith, h, remove_absent k l)

length-remove :
    (k : ℕ) (l : List ℕ) → NoDuplicate l → elem k l ≡ true → length (remove k l) + 1 ≡ length l
length-remove k [] h there = cc
length-remove k (x ∷ l) h there =
    ground (arith, h.0, nat_beq_iff x k, remove_absent k l, length-remove k l h.1)

abbrev pub is_present {ℓ} : {A : Type ℓ} → Option A → Bool
is_present none = false
is_present (some _) = true

pub record IsCounted (t : DeliveryTracker) : Type 0 where
  pub total : t.attempted ≡ t.delivered + t.failed + length t.pending
  pub distinct : NoDuplicate t.pending
  pub older : (k : ℕ) → elem k t.pending ≡ true → k < t.next_token
  pub timed : (k : ℕ) → is_present (lookup k t.started) ≡ elem k t.pending
  pub kinds : (k : ℕ) → is_present (lookup k t.token_injection) ≡ elem k t.pending
  pub samples : length t.latencies_ms ≡ t.delivered
  pub ranges : All (λ (p : (String × ℕ) × List Range). Apart 0 p.1) t.offset_ranges

begin_attempt-IsCounted :
    (r : GeneratedRecord) (now : ℕ) (t : DeliveryTracker)
    → IsCounted t
    → IsCounted (begin_attempt r now t).1
unfolding begin_attempt
begin_attempt-IsCounted r now t h = record {
  total = omega (arith, h.total);
  distinct = (ground (arith, h.older t.next_token), h.distinct);
  older = λ k m. ground (arith, m, h.older k, nat_beq_iff t.next_token k);
  timed = λ k. ground (arith, h.timed k, lookup-insert t.next_token k now t.started);
  kinds = λ k. ground (
    arith,
    h.kinds k,
    lookup-insert t.next_token k (injection_value r.injection_kind) t.token_injection,
  );
  samples = h.samples;
  ranges = h.ranges;
}

mark_failed-IsCounted :
    (token : ℕ) (t : DeliveryTracker) → IsCounted t → IsCounted (mark_failed token t)
unfolding mark_failed
mark_failed-IsCounted token t h =
    if_split IsCounted (elem token t.pending)
      (λ there. record {
        total = omega (arith, h.total, length-remove token t.pending h.distinct there);
        distinct = remove-NoDuplicate token t.pending h.distinct;
        older = λ k m. h.older k (ground (arith, m, elem-remove token k t.pending));
        timed = λ k.
            ground
              (arith, h.timed k, lookup-erase token k t.started, elem-remove token k t.pending);
        kinds = λ k. ground (
          arith,
          h.kinds k,
          lookup-erase token k t.token_injection,
          elem-remove token k t.pending,
        );
        samples = h.samples;
        ranges = h.ranges;
      })
      (λ _. h)

fail_pending-IsCounted : (t : DeliveryTracker) → IsCounted t → IsCounted (fail_pending t).1
unfolding fail_pending
fail_pending-IsCounted t h = record {
  total = omega (arith, h.total);
  distinct = tt;
  older = λ k m. cc;
  timed = λ k. refl;
  kinds = λ k. refl;
  samples = h.samples;
  ranges = h.ranges;
}

add_location-Apart :
    (location : Option ((String × ℕ) × ℕ)) (d : Dict (String × ℕ) (List Range))
    → All (λ (p : (String × ℕ) × List Range). Apart 0 p.1) d
    → All (λ (p : (String × ℕ) × List Range). Apart 0 p.1) (add_location location d)
add_location-Apart none d h = h
add_location-Apart (some (key, offset)) d h =
    All-insert _ key _ d
      (insert_offset-IsInserted 0 offset (or_no_ranges (lookup key d)) (omega arith)
        (known (lookup key d) (λ ranges e. All-lookup _ key ranges d h e))).0
      h
  where
    known :
        (found : Option (List Range))
        → ((ranges : List Range) → found ≡ some ranges → Apart 0 ranges)
        → Apart 0 (or_no_ranges found)
    known none each = tt
    known (some ranges) each = each ranges refl

-- A delivery callback never raises.
mark_delivered-IsCounted :
    (token now : ℕ) (location : Option ((String × ℕ) × ℕ)) (t : DeliveryTracker)
    → IsCounted t
    → Post (λ _. IsCounted) (λ _. ⊥) (mark_delivered token now location t)
unfolding mark_delivered
mark_delivered-IsCounted token now location t h = elim (Bool-cases (elem token t.pending)) [
  | inl there ↦ elim (Option-cases (lookup token t.started)) [
    | inl absent ↦ absurd (ground (arith, h.timed token, there, absent))
    | inr (start, at) ↦ elim (Option-cases (lookup token t.token_injection)) [
      | inl absent ↦ absurd (ground (arith, h.kinds token, there, absent))
      | inr (injection, kind) ↦
          rw (there, at, kind)
            (record {
              total = omega (arith, h.total, length-remove token t.pending h.distinct there);
              distinct = remove-NoDuplicate token t.pending h.distinct;
              older = λ k m. h.older k (ground (arith, m, elem-remove token k t.pending));
              timed = λ k.
                  ground (
                    arith,
                    h.timed k,
                    lookup-erase token k t.started,
                    elem-remove token k t.pending,
                  );
              kinds = λ k. ground (
                arith,
                h.kinds k,
                lookup-erase token k t.token_injection,
                elem-remove token k t.pending,
              );
              samples =
                  omega
                    (arith, h.samples, length-append t.latencies_ms ((now - start) * 1000 ∷ []));
              ranges = add_location-Apart location t.offset_ranges h.ranges;
            })
    ]
  ]
  | inr gone ↦ rw gone h
]

-- The runs of a tracker: any calls in any order.
pub data Reach : DeliveryTracker → Type 0 where
  fresh : Reach new_tracker
  begins :
      {t : DeliveryTracker} (r : GeneratedRecord) (now : ℕ)
      → Reach t
      → Reach (begin_attempt r now t).1
  delivers :
      {t : DeliveryTracker} (token now : ℕ) (location : Option ((String × ℕ) × ℕ))
      → Reach t
      → Reach (mark_delivered token now location t).1
  fails : {t : DeliveryTracker} (token : ℕ) → Reach t → Reach (mark_failed token t)
  gives_up : {t : DeliveryTracker} → Reach t → Reach (fail_pending t).1

after :
    (r : Outcome (Unit {0}) × DeliveryTracker)
    → Post (λ _. IsCounted) (λ _. ⊥) r
    → (r.0 ≡ ok tt) × IsCounted r.1
after (ok _, t) h = (refl, h)
after (raised e, t) h = absurd h

Reach-IsCounted : {t : DeliveryTracker} → Reach t → IsCounted t
Reach-IsCounted fresh = record {
  total = refl;
  distinct = tt;
  older = λ k m. cc;
  timed = λ k. refl;
  kinds = λ k. refl;
  samples = refl;
  ranges = tt;
}
Reach-IsCounted (begins {t = t} r now run) = begin_attempt-IsCounted r now t (Reach-IsCounted run)
Reach-IsCounted (delivers {t = t} token now location run) =
    (after _ (mark_delivered-IsCounted token now location t (Reach-IsCounted run))).1
Reach-IsCounted (fails {t = t} token run) = mark_failed-IsCounted token t (Reach-IsCounted run)
Reach-IsCounted (gives_up {t = t} run) = fail_pending-IsCounted t (Reach-IsCounted run)

-- After any calls in any order, callbacks for unknown tokens and repeated ones included: the
-- attempted records are the delivered, the failed and the pending ones together; there is one
-- latency for each delivered record; the delivered ranges of each partition are in order with gaps
-- between them; and a delivery callback for any token returns, without a `KeyError`.
pub Reach-counted :
    {t : DeliveryTracker}
    → Reach t
    → (t.attempted ≡ t.delivered + t.failed + length t.pending)
      × (length t.latencies_ms ≡ t.delivered)
      × All (λ (p : (String × ℕ) × List Range). Apart 0 p.1) t.offset_ranges
      × ((token now : ℕ) (location : Option ((String × ℕ) × ℕ))
          → (mark_delivered token now location t).0 ≡ ok tt)
Reach-counted {t = t} run =
    let h = Reach-IsCounted run in
    (
      h.total,
      h.samples,
      h.ranges,
      λ token now location. (after _ (mark_delivered-IsCounted token now location t h)).0,
    )
