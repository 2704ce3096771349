-- ===== src/DataPlatform/Incidents/Diagnosis/Cited.antt =====
-- The evidence that a diagnosis cites.
use kafka_order_event_platfo.Prelude.{
  String, Bool, true, false, List, [], ◌∷◌, ◌++◌, map, elem, ◌==◌, string_eq, if◌then◌else◌, ◌≡◌,
  ◌≢◌, refl, sym, subst, arith, All, All-append, All-map, Option-cases, if_split, inl, inr,
  beq_refl,
}
use kafka_order_event_platfo.Prelude.Int.{pos, int_eq}
use kafka_order_event_platfo.Dict.{Dict, lookup, insert, All-lookup, All-insert}
use kafka_order_event_platfo.DataPlatform.Results.{Result, ok, ok_subst, first_ok}
use kafka_order_event_platfo.DataPlatform.Incidents.{
  IncidentAlert, AlertType, IncidentReport, EvidenceItem, Fact, Hypothesis,
}
use kafka_order_event_platfo.DataPlatform.Incidents.Tools.{Client}
use kafka_order_event_platfo.DataPlatform.Incidents.Inventory.{DiagnosisCodec, inventory}
use kafka_order_event_platfo.DataPlatform.Incidents.Correlation.{
  Responses, ids_from, id_or, cite, facts, quality_facts, failure_facts, lag_facts, explain, reject,
  correlate, known_status, tool_data, partitions_of, total_lag,
}
use kafka_order_event_platfo.DataPlatform.Incidents.Diagnosis.{diagnose, first_or, no_single_cause}
use kafka_order_event_platfo.DataPlatform.Incidents.Diagnosis.Parts.{
  Parts, evidence_of, diagnose-Parts,
}

abbrev pub evidence_ids : List EvidenceItem → List String
evidence_ids items = map (λ (i : EvidenceItem). i.evidence_id) items

-- Every identifier of a list is that of some evidence.
abbrev pub Cited : List EvidenceItem → List String → Type 0
Cited evidence ids = All (λ i. elem i (evidence_ids evidence) ≡ true) ids

abbrev pub FactsCited : List EvidenceItem → List Fact → Type 0
FactsCited evidence found = All (λ (f : Fact). (f.evidence ≢ []) × Cited evidence f.evidence) found

abbrev pub HypothesesCited : List EvidenceItem → List Hypothesis → Type 0
HypothesesCited evidence found = All (λ (h : Hypothesis). Cited evidence h.evidence) found

-- A report that cites nothing but its own inventory.
pub record IsCited (r : IncidentReport) : Type 0 where
  pub facts_cited : FactsCited r.evidence_inventory r.confirmed_facts
  pub hypotheses_cited : HypothesesCited r.evidence_inventory r.hypotheses
  pub rejected_cited : HypothesesCited r.evidence_inventory r.rejected_hypotheses
  pub cause_cited : Cited r.evidence_inventory r.most_likely_cause.evidence

All-self :
    (items : List EvidenceItem)
    → All (λ (i : EvidenceItem). elem i.evidence_id (evidence_ids items) ≡ true) items
All-self [] = tt
All-self (item ∷ items) = (
  ground (arith, beq_refl item.evidence_id),
  All-map (λ (i : EvidenceItem). elem i.evidence_id (evidence_ids items) ≡ true)
      (λ (i : EvidenceItem). elem i.evidence_id (evidence_ids (item ∷ items)) ≡ true) items
      (λ i h. ground (arith, h)) (All-self items),
)

abbrev Yields {ℓ} : {A : Type ℓ} → (A → Type 0) → Result (List A) → Type ℓ
Yields {A} P m = (found : List A) → m ≡ ok found → All P found

Yields-if {ℓ} :
    {A : Type ℓ} (P : A → Type 0) (b : Bool) (m n : Result (List A))
    → Yields P m
    → Yields P n
    → Yields P (if b then m else n)
Yields-if P true m n hm hn = hm
Yields-if P false m n hm hn = hn

Yields-nothing {ℓ} : {A : Type ℓ} (P : A → Type 0) → Yields P (ok [])
Yields-nothing P found h = subst (All P) {x = []} (ground (arith, h)) tt

module _ (evidence : List EvidenceItem) where
  abbrev IsKnown : String → Type 0
  IsKnown i = elem i (evidence_ids evidence) ≡ true

  -- the identifiers under the sources are those of evidence
  ids_from-IsKnown :
      (items : List EvidenceItem) (ids : Dict String String)
      → All (λ (i : EvidenceItem). IsKnown i.evidence_id) items
      → All (λ (e : String × String). IsKnown e.1) ids
      → All (λ (e : String × String). IsKnown e.1) (ids_from items ids)
  ids_from-IsKnown [] ids h known = known
  ids_from-IsKnown (item ∷ items) ids h known =
      ids_from-IsKnown items (insert item.source item.evidence_id ids) h.1 (
        All-insert (λ (e : String × String). IsKnown e.1) item.source item.evidence_id ids h.0
          known)

  module _ (ids : Dict String String) (known : All (λ (e : String × String). IsKnown e.1) ids)
      (alert_known : IsKnown "alert") where
    id_or-IsKnown : (tool : String) → IsKnown (id_or tool "alert" ids)
    id_or-IsKnown tool = elim (Option-cases (lookup tool ids)) [
      | inl missing ↦ rw (missing, id_or) alert_known
      | inr (i, found) ↦
          rw (found, id_or)
            (All-lookup (λ (e : String × String). IsKnown e.1) tool i ids known found)
    ]

    cite-known {ℓ} :
        {A : Type ℓ} (P : A → Type 0) (tool : String) (statement : String → A)
        → ((i : String) → IsKnown i → P (statement i))
        → Yields P (cite ids tool statement)
    cite-known P tool statement keeps found h = elim (Option-cases (lookup tool ids)) [
      | inl missing ↦ absurd (ground (arith, missing))
      | inr (i, at) ↦
          subst (All P) {x = statement i ∷ []} (ground (arith, at))
            (keeps i (All-lookup (λ (e : String × String). IsKnown e.1) tool i ids known at), tt)
    ]

    abbrev IsFactKnown : Fact → Type 0
    IsFactKnown f = (f.evidence ≢ []) × Cited evidence f.evidence

    abbrev IsHypothesisKnown : Hypothesis → Type 0
    IsHypothesisKnown h = Cited evidence h.evidence

    quality_facts-known : (responses : Responses) → Yields IsFactKnown (quality_facts responses ids)
    quality_facts-known responses found h =
        let (status, _, rest) =
          first_ok (known_status (tool_data "get_quality_status" responses)) _ h in
        elim (Option-cases status) [
          | inl nothing ↦ subst (All IsFactKnown) {x = []} (ground (arith, nothing)) tt
          | inr (s, is) ↦
              cite-known IsFactKnown "get_quality_status" _ (λ i k. ((λ e. cc), (k, tt))) found
                (rw is at rest)
        ]

    failure_facts-known : (responses : Responses) → Yields IsFactKnown (failure_facts responses ids)
    failure_facts-known responses =
        Yields-if IsFactKnown _ _ _
          (cite-known IsFactKnown "get_recent_pipeline_failures" _ (λ i k. ((λ e. cc), (k, tt))))
          (Yields-nothing IsFactKnown)

    lag_facts-known : (responses : Responses) → Yields IsFactKnown (lag_facts responses ids)
    lag_facts-known responses found h =
        elim (Option-cases (partitions_of (tool_data "get_consumer_lag" responses))) [
          | inl nothing ↦ Yields-nothing IsFactKnown found (rw (nothing, lag_facts) at h)
          | inr (rows, is) ↦
              cite-known IsFactKnown "get_consumer_lag" _ (λ i k. ((λ e. cc), (k, tt))) found
                (rw (is, lag_facts) at h)
        ]

    explain-known :
        (kind : AlertType) (responses : Responses)
        → Yields IsHypothesisKnown (explain kind responses ids)
    unfolding explain
    explain-known kind responses =
        Yields-if IsHypothesisKnown _ _ _
          (cite-known IsHypothesisKnown "get_recent_pipeline_failures" _
            (λ i k. (k, (id_or-IsKnown "get_quality_status", tt))))
          (Yields-if IsHypothesisKnown _ _ _
            (cite-known IsHypothesisKnown "get_consumer_lag" _
              (λ i k. (k, (id_or-IsKnown "get_quality_status", tt))))
            (Yields-if IsHypothesisKnown _ _ _
              (cite-known IsHypothesisKnown "get_quality_status" _ (λ i k. (k, tt)))
              (Yields-nothing IsHypothesisKnown)))

    reject-known : (responses : Responses) → All IsHypothesisKnown (reject responses ids)
    unfolding reject
    reject-known responses =
        if_split (All IsHypothesisKnown) (total_lag responses == pos 0)
          (λ _. elim (Option-cases (lookup "get_consumer_lag" ids)) [
            | inl missing ↦ rw missing tt
            | inr (i, at) ↦ rw at (
              (
                All-lookup (λ (e : String × String). IsKnown e.1) "get_consumer_lag" i ids known at,
                tt,
              ),
              tt,
            )
          ])
          (λ _. tt)

  module _ (alert_known : IsKnown "alert") where
    ids-IsKnown : All (λ (e : String × String). IsKnown e.1) (ids_from evidence [])
    ids-IsKnown = ids_from-IsKnown evidence [] (All-self evidence) tt

    facts-known :
        (a : IncidentAlert) (responses : Responses) {found : List Fact}
        → facts a responses evidence ≡ ok found
        → FactsCited evidence found
    unfolding facts
    facts-known a responses {found} h =
        let ids = ids_from evidence [] in
        let (first, h1, rest1) = first_ok (quality_facts responses ids) _ h in
        let (second, h2, rest2) = first_ok (failure_facts responses ids) _ rest1 in
        let (third, h3, rest3) = first_ok (lag_facts responses ids) _ rest2 in
        let others =
          All-append _ first (second ++ third)
            (quality_facts-known ids ids-IsKnown alert_known responses first h1)
            (All-append _ second third
              (failure_facts-known ids ids-IsKnown alert_known responses second h2)
              (lag_facts-known ids ids-IsKnown alert_known responses third h3)) in
        ok_subst (FactsCited evidence) rest3 (((λ e. cc), (alert_known, tt)), others)

    correlate-known :
        (a : IncidentAlert) (responses : Responses) (errors : Dict String String)
        {x : List Hypothesis × List Hypothesis × List String}
        → correlate a responses errors evidence ≡ ok x
        → HypothesesCited evidence x.0 × HypothesesCited evidence x.1
    unfolding correlate
    correlate-known a responses errors h =
        let ids = ids_from evidence [] in
        let (found, h1, rest) = first_ok (explain a.alert_type responses ids) _ h in
        ok_subst
          (λ (x : List Hypothesis × List Hypothesis × List String).
            HypothesesCited evidence x.0 × HypothesesCited evidence x.1)
          rest
          (
            explain-known ids ids-IsKnown alert_known a.alert_type responses found h1,
            reject-known ids ids-IsKnown alert_known responses,
          )

-- The identifiers of the inventory are known, and the alert is one of them.
module _ (codec : DiagnosisCodec) (client : Client) (a : IncidentAlert) where
  first_or-Cited :
      (evidence : List EvidenceItem) (hs : List Hypothesis)
      → HypothesesCited evidence hs
      → Cited evidence (first_or no_single_cause hs).evidence
  first_or-Cited evidence [] h = tt
  first_or-Cited evidence (x ∷ xs) h = h.0

  Parts-IsCited : {r : IncidentReport} → Parts codec client a r → IsCited r
  unfolding inventory
  Parts-IsCited {r} p =
      let evidence = evidence_of codec client a p.collected in
      let same = sym p.inventoried in
      let alert_known : elem "alert" (evidence_ids evidence) ≡ true = refl in
      let (hypotheses, rejected) =
        correlate-known evidence alert_known a p.collected.responses p.collected.errors
          p.correlated in
      record {
        facts_cited =
            subst (λ e. FactsCited e r.confirmed_facts) same
              (facts-known evidence alert_known a p.collected.responses p.stated);
        hypotheses_cited = subst (λ e. HypothesesCited e r.hypotheses) same hypotheses;
        rejected_cited = subst (λ e. HypothesesCited e r.rejected_hypotheses) same rejected;
        cause_cited =
            subst (λ e. Cited e r.most_likely_cause.evidence) same
              (subst (λ (c : Hypothesis). Cited evidence c.evidence) (sym p.caused)
                (first_or-Cited evidence r.hypotheses hypotheses));
      }

  -- Let a diagnosis return, whatever the tools have answered. Each of its facts cites at least one
  -- piece of evidence, and all that its facts, its hypotheses, its rejected hypotheses and its most
  -- likely cause cite is in the inventory of the report.
  pub diagnose-IsCited : {r : IncidentReport} → diagnose codec client a ≡ ok r → IsCited r
  diagnose-IsCited h = Parts-IsCited (diagnose-Parts codec client a h)
