-- ===== src/DataPlatform/Incidents/Diagnosis/Parts.antt =====
-- What a diagnosis that returns has computed.
use kafka_order_event_platfo.Prelude.{
  String, string_eq, List, [], ◌∷◌, ◌++◌, if◌then◌else◌, ◌≡◌, arith,
}
use kafka_order_event_platfo.Text.{le_text}
use kafka_order_event_platfo.Sorting.{sorted, distinct}
use kafka_order_event_platfo.DataPlatform.Results.{ok, first_ok}
use kafka_order_event_platfo.DataPlatform.Incidents.{
  received, validated, IncidentAlert, IncidentReport, EvidenceItem, completed, degraded,
}
use kafka_order_event_platfo.DataPlatform.Incidents.Tools.{Client, Collected, collect}
use kafka_order_event_platfo.DataPlatform.Incidents.Inventory.{DiagnosisCodec, inventory}
use kafka_order_event_platfo.DataPlatform.Incidents.Correlation.{facts, correlate}
use kafka_order_event_platfo.DataPlatform.Incidents.Diagnosis.{
  diagnose, is_degraded, closing_states, affected_assets, first_or, no_single_cause,
}

module _ (codec : DiagnosisCodec) (client : Client) (a : IncidentAlert) where
  abbrev pub evidence_of : Collected → List EvidenceItem
  evidence_of s = inventory codec a s.responses s.errors

  pub record Parts (r : IncidentReport) : Type 0 where
    pub collected : Collected
    pub all_unknowns : List String
    pub called : collect client a (received ∷ validated ∷ []) ≡ ok collected
    pub stated : facts a collected.responses (evidence_of collected) ≡ ok r.confirmed_facts
    pub correlated :
        correlate a collected.responses collected.errors (evidence_of collected)
        ≡ ok (r.hypotheses, r.rejected_hypotheses, all_unknowns)
    pub unknown_texts : r.unknowns ≡ sorted le_text (distinct all_unknowns)
    pub inventoried : r.evidence_inventory ≡ evidence_of collected
    pub gone_through :
        r.state_history
        ≡ collected.states ++ closing_states (is_degraded collected.errors (evidence_of collected))
    pub rated :
        r.status
        ≡ (if is_degraded collected.errors (evidence_of collected) then degraded else completed)
    pub caused : r.most_likely_cause ≡ first_or no_single_cause r.hypotheses

  pub diagnose-Parts : {r : IncidentReport} → diagnose codec client a ≡ ok r → Parts r
  unfolding diagnose
  diagnose-Parts {r} h =
      let (s, called, h1) = first_ok (collect client a (received ∷ validated ∷ [])) _ h in
      let (found, stated, h2) = first_ok (facts a s.responses (evidence_of s)) _ h1 in
      let ((hypotheses, rejected, unknowns), correlated, h3) =
        first_ok (correlate a s.responses s.errors (evidence_of s)) _ h2 in
      let (assets, _, h4) = first_ok (affected_assets a s.responses) _ h3 in
      record {
        collected = s;
        all_unknowns = unknowns;
        called = called;
        stated = ground arith;
        correlated = ground arith;
        unknown_texts = ground arith;
        inventoried = ground arith;
        gone_through = ground arith;
        rated = ground arith;
        caused = ground arith;
      }
