-- ===== src/Metrics/LogAggregation/Restore.antt =====
-- The buffer's well-formedness, and the round trip of a snapshot (metrics/log_aggregation.py).
use kafka_order_event_platfo.Prelude.{
  ℕ, ◌≡◌, refl, Option, none, some, [], ◌∷◌, ◌++◌, arith, nat_eq, nat_beq_iff, All, subst, sym, ◌∙◌,
}
use mathlib.Core.List.{append-nil, append_assoc}
use kafka_order_event_platfo.Dict.{lookup, insert, values, Distinct, insert-Distinct}
use kafka_order_event_platfo.Outcome.{ok}
use kafka_order_event_platfo.Metrics.LogAggregation.Buffer.{
  BufferedLogEvent, Buffer, Snapshot, merged, put_event, take_snapshot, restore,
}
use kafka_order_event_platfo.Metrics.LogAggregation.Coverage.{put_event_inv}

-- Every event is stored once, under its own identifier.
pub record IsBuffer (b : Buffer) : Type 0 where
  pub distinct : Distinct b
  pub named : All (λ (p : ℕ × BufferedLogEvent). p.1.event_id ≡ p.0) b

insert-append :
    (k : ℕ) (e : BufferedLogEvent) (b : Buffer)
    → lookup k b ≡ none
    → insert k e b ≡ b ++ (k, e) ∷ []
insert-append k e [] h = refl
insert-append k e ((j, v) ∷ b) h = ground (arith, insert-append k e b)

lookup-append : (k : ℕ) (b c : Buffer) → lookup k b ≡ none → lookup k (b ++ c) ≡ lookup k c
lookup-append k [] c h = refl
lookup-append k ((j, v) ∷ b) c h = ground (arith, lookup-append k b c)

-- An absent event is appended.
put_event_absent :
    (e : BufferedLogEvent) (b : Buffer)
    → lookup e.event_id b ≡ none
    → put_event e b ≡ (ok tt, b ++ (e.event_id, e) ∷ [])
unfolding put_event
put_event_absent e b h = ground (arith, h, insert-append e.event_id e b h)

-- No key of `c` is a key of `b`.
abbrev Apart : Buffer → Buffer → Type 0
Apart b c = All (λ (p : ℕ × BufferedLogEvent). lookup p.0 b ≡ none) c

Apart-append :
    (k : ℕ) (e : BufferedLogEvent) (b c : Buffer)
    → Apart b c
    → lookup k c ≡ none
    → Apart (b ++ (k, e) ∷ []) c
Apart-append k e b [] h absent = tt
Apart-append k e b ((j, v) ∷ c) h absent = ground (
  arith,
  h.0,
  absent,
  lookup-append j b ((k, e) ∷ []) h.0,
  nat_beq_iff j k,
  nat_beq_iff k j,
  Apart-append k e b c h.1,
)

restore_cons :
    (e : BufferedLogEvent) (rest : Snapshot) (b b' : Buffer)
    → put_event e b ≡ (ok tt, b')
    → restore (e ∷ rest) b ≡ restore rest b'
unfolding restore
restore_cons e rest b b' h = ground (arith, h)

restore-values : (c b : Buffer) → IsBuffer c → Apart b c → restore (values c) b ≡ (ok tt, b ++ c)
restore-values [] b h apart = unfold restore in rw append-nil
restore-values ((k, e) ∷ c) b h apart =
    let named : e.event_id ≡ k = h.named.0 in
    let put : put_event e b ≡ (ok tt, b ++ (k, e) ∷ []) =
      subst (λ j. put_event e b ≡ (ok tt, b ++ (j, e) ∷ [])) named
        (put_event_absent e b (subst (λ j. lookup j b ≡ none) (sym named) apart.0)) in
    restore_cons e (values c) b (b ++ (k, e) ∷ []) put
    ∙ restore-values c (b ++ (k, e) ∷ []) (record { distinct = h.distinct.1; named = h.named.1 })
        (Apart-append k e b c apart.1 h.distinct.0)
    ∙ rw (append_assoc b ((k, e) ∷ []) c)

pub merged-event_id :
    (found : Option BufferedLogEvent) (incoming m : BufferedLogEvent) (k : ℕ)
    → incoming.event_id ≡ k
    → ((e : BufferedLogEvent) → found ≡ some e → e.event_id ≡ k)
    → merged found incoming ≡ ok m
    → m.event_id ≡ k
unfolding merged
merged-event_id none incoming m k e known h = ground (arith, h)
merged-event_id (some old) incoming m k e known h = ground (arith, h, known old refl)

pub named_at :
    (k : ℕ) (e : BufferedLogEvent) (b : Buffer)
    → All (λ (p : ℕ × BufferedLogEvent). p.1.event_id ≡ p.0) b
    → lookup k b ≡ some e
    → e.event_id ≡ k
named_at k e [] h found = ground (arith, found)
named_at k e ((j, v) ∷ b) h found = ground (arith, found, h.0, nat_beq_iff j k, named_at k e b h.1)

insert-named :
    (k : ℕ) (e : BufferedLogEvent) (b : Buffer)
    → e.event_id ≡ k
    → All (λ (p : ℕ × BufferedLogEvent). p.1.event_id ≡ p.0) b
    → All (λ (p : ℕ × BufferedLogEvent). p.1.event_id ≡ p.0) (insert k e b)
insert-named k e [] named h = (named, tt)
insert-named k e ((j, v) ∷ b) named h =
    ground (arith, h.0, named, nat_beq_iff j k, insert-named k e b named h.1)

pub put_event-IsBuffer :
    (e : BufferedLogEvent) (b b' : Buffer) → IsBuffer b → put_event e b ≡ (ok tt, b') → IsBuffer b'
put_event-IsBuffer e b b' h put =
    let (m, eq, b'-eq) = put_event_inv e b b' put in
    let named =
      merged-event_id (lookup e.event_id b) e m e.event_id refl
        (λ old found. named_at e.event_id old b h.named found) eq in
    rw b'-eq (record {
      distinct = insert-Distinct e.event_id m b h.distinct;
      named = insert-named e.event_id m b named h.named;
    })

-- Taking a snapshot and putting it back restores the buffer as it was.
pub restore-take_snapshot :
    (b : Buffer)
    → IsBuffer b
    → let (snapshot, emptied) = take_snapshot b in restore snapshot emptied ≡ (ok tt, b)
unfolding take_snapshot
restore-take_snapshot b h = restore-values b [] h (all_apart b)
  where
    all_apart : (c : Buffer) → Apart [] c
    all_apart [] = tt
    all_apart (p ∷ c) = (refl, all_apart c)
