-- ===== src/DataPlatform/Incidents/Diagnosis/States.antt =====
-- The states that a diagnosis goes through.
use kafka_order_event_platfo.Prelude.{
  ℕ, ◌<◌, String, Bool, true, false, not, ◌&&◌, List, [], ◌∷◌, ◌++◌, ◌==◌, string_eq, if◌then◌else◌,
  ◌≡◌, refl, sym, ap, ◌∙◌, arith,
}
use kafka_order_event_platfo.DataPlatform.Results.{ok, first_ok}
use kafka_order_event_platfo.DataPlatform.Incidents.{
  IncidentState, received, validated, asset_resolved, quality_checked, lineage_traced,
  pipeline_checked, kafka_checked, evidence_correlated, diagnosis_produced, human_review_required,
  degraded_diagnosis, has_state, IncidentAlert, IncidentReport, ReportStatus, completed, degraded,
}
use kafka_order_event_platfo.DataPlatform.Incidents.Tools.{
  Client, ToolCall, Answer, answered, failed, escapes, Collected, asset_text, calls, add_state,
  is_skipped, needs_model, settle_answer, collect_from, collect,
}
use kafka_order_event_platfo.DataPlatform.Incidents.Inventory.{DiagnosisCodec}
use kafka_order_event_platfo.DataPlatform.Incidents.Diagnosis.{
  diagnose, is_degraded, closing_states,
}
use kafka_order_event_platfo.DataPlatform.Incidents.Diagnosis.Parts.{evidence_of, diagnose-Parts}

-- The order of the work. A degraded diagnosis is declared before the diagnosis is produced.
abbrev pub stage : IncidentState → ℕ
stage received = 0
stage validated = 1
stage asset_resolved = 2
stage quality_checked = 3
stage lineage_traced = 4
stage pipeline_checked = 5
stage kafka_checked = 6
stage evidence_correlated = 7
stage degraded_diagnosis = 8
stage diagnosis_produced = 9
stage human_review_required = 10

-- Each state is later than the one before it.
abbrev pub Advances : ℕ → List IncidentState → Type 0
Advances n [] = Unit
Advances n (s ∷ states) = (n < stage s) × Advances (stage s) states

abbrev pub ends_in_review : List IncidentState → Bool
ends_in_review [] = false
ends_in_review (s ∷ []) = has_state human_review_required (s ∷ [])
ends_in_review (s ∷ t ∷ states) = ends_in_review (t ∷ states)

abbrev pub is_degraded_status : ReportStatus → Bool
is_degraded_status degraded = true
is_degraded_status completed = false

-- What a history of states must be.
pub record IsHistory (a : IncidentAlert) (r : IncidentReport) : Type 0 where
  pub later : List IncidentState
  pub starts : r.state_history ≡ received ∷ later
  pub advances : Advances 0 later
  pub reviewed : ends_in_review r.state_history ≡ true
  pub produced : has_state diagnosis_produced r.state_history ≡ true
  pub resolved : has_state asset_resolved r.state_history ≡ true
  pub lag_checked : has_state kafka_checked r.state_history ≡ true
  pub traced : has_state lineage_traced r.state_history ≡ not (asset_text a == "")
  pub tested : has_state quality_checked r.state_history ≡ not (asset_text a == "")
  pub honest : has_state degraded_diagnosis r.state_history ≡ is_degraded_status r.status

-- the states after some calls, whatever the client answers
abbrev states_after : Bool → List ToolCall → List IncidentState → List IncidentState
states_after missing [] states = states
states_after missing (c ∷ cs) states =
    states_after missing cs
      (if missing && needs_model c.arguments then states else add_state c.state states)

settle_answer-states :
    (c : ToolCall) (w : Answer) (s : Collected) (skipped : Bool) {t : Collected}
    → (if skipped then ok s else settle_answer c w s) ≡ ok t
    → t.states ≡ (if skipped then s.states else add_state c.state s.states)
unfolding settle_answer
settle_answer-states c w s true h = ground arith
settle_answer-states c (answered response) s false h = ground arith
settle_answer-states c (failed category) s false h = ground arith
settle_answer-states c (escapes e) s false h = ground arith

collect_from-states :
    (client : Client) (asset : String) (cs : List ToolCall) (s : Collected) {t : Collected}
    → collect_from client asset cs s ≡ ok t
    → t.states ≡ states_after (asset == "") cs s.states
unfolding collect_from
collect_from-states client asset [] s h = ground arith
collect_from-states client asset (c ∷ cs) s h =
    let (u, first, rest) =
      first_ok
        (if is_skipped asset c.arguments
          then ok s
          else settle_answer c (client c.tool c.arguments) s)
        (collect_from client asset cs) h in
    collect_from-states client asset cs u rest
    ∙ ap (states_after (asset == "") cs)
        (settle_answer-states c (client c.tool c.arguments) s (is_skipped asset c.arguments) first)

-- the states of the calls, with an asset and without
abbrev checks : Bool → List IncidentState
checks false =
    asset_resolved ∷ quality_checked ∷ lineage_traced ∷ pipeline_checked ∷ kafka_checked ∷ []
checks true = asset_resolved ∷ pipeline_checked ∷ kafka_checked ∷ []

states_after-calls :
    (missing : Bool) (a : IncidentAlert)
    → states_after missing (calls a) (received ∷ validated ∷ [])
      ≡ received ∷ validated ∷ checks missing
states_after-calls true a = refl
states_after-calls false a = refl

collect-states :
    (client : Client) (a : IncidentAlert) {t : Collected}
    → collect client a (received ∷ validated ∷ []) ≡ ok t
    → t.states ≡ received ∷ validated ∷ checks (asset_text a == "")
unfolding collect
collect-states client a h =
    collect_from-states client (asset_text a) (calls a) _ h
    ∙ states_after-calls (asset_text a == "") a

abbrev after_reception : Bool → Bool → List IncidentState
after_reception missing degraded_run = validated ∷ (checks missing ++ closing_states degraded_run)

-- the requirements, for each of the four kinds of run
run_states :
    (missing degraded_run : Bool)
    → let states = received ∷ after_reception missing degraded_run in
      Advances 0 (after_reception missing degraded_run)
      × (ends_in_review states ≡ true)
      × (has_state diagnosis_produced states ≡ true)
      × (has_state asset_resolved states ≡ true)
      × (has_state kafka_checked states ≡ true)
      × (has_state lineage_traced states ≡ not missing)
      × (has_state quality_checked states ≡ not missing)
      × (has_state degraded_diagnosis states ≡ degraded_run)
unfolding closing_states
run_states true true = (omega arith, refl, refl, refl, refl, refl, refl, refl)
run_states true false = (omega arith, refl, refl, refl, refl, refl, refl, refl)
run_states false true = (omega arith, refl, refl, refl, refl, refl, refl, refl)
run_states false false = (omega arith, refl, refl, refl, refl, refl, refl, refl)

is_degraded_status-if : (b : Bool) → is_degraded_status (if b then degraded else completed) ≡ b
is_degraded_status-if true = refl
is_degraded_status-if false = refl

module _ (codec : DiagnosisCodec) (client : Client) (a : IncidentAlert) where
  history_of :
      (degraded_run : Bool) (r : IncidentReport)
      → r.state_history ≡ received ∷ after_reception (asset_text a == "") degraded_run
      → r.status ≡ (if degraded_run then degraded else completed)
      → IsHistory a r
  history_of d r e s =
      let (advances, reviewed, produced, resolved, lag, traced, tested, honest) =
        run_states (asset_text a == "") d in
      record {
        later = after_reception (asset_text a == "") d;
        starts = e;
        advances = advances;
        reviewed = ap ends_in_review e ∙ reviewed;
        produced = ap (has_state diagnosis_produced) e ∙ produced;
        resolved = ap (has_state asset_resolved) e ∙ resolved;
        lag_checked = ap (has_state kafka_checked) e ∙ lag;
        traced = ap (has_state lineage_traced) e ∙ traced;
        tested = ap (has_state quality_checked) e ∙ tested;
        honest =
            ap (has_state degraded_diagnosis) e
            ∙ honest
            ∙ sym (ap is_degraded_status s ∙ is_degraded_status-if d);
      }

  -- Let a diagnosis return, whatever the tools have answered. Its states begin with the reception
  -- and go through the work in its order, each state once. They hold the resolution of the asset,
  -- the check of Kafka and the production of the diagnosis, and end with the review by a human. The
  -- lineage is traced and the quality checked exactly when the alert has an asset. The history
  -- holds a degraded diagnosis exactly when the report has that status.
  pub diagnose-IsHistory : {r : IncidentReport} → diagnose codec client a ≡ ok r → IsHistory a r
  diagnose-IsHistory {r} h =
      let p = diagnose-Parts codec client a h in
      let d = is_degraded p.collected.errors (evidence_of codec client a p.collected) in
      history_of d r
        (p.gone_through
          ∙ ap (λ states. states ++ closing_states d) (collect-states client a p.called))
        p.rated
