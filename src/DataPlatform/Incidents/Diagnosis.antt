-- ===== src/DataPlatform/Incidents/Diagnosis.antt =====
-- `IncidentDiagnoser.diagnose` of incidents.py, and the report as Markdown.
pub mod Parts
pub mod States
pub mod Cited
pub mod Failing
use Prim.Native.String.{◌++◌ as concat}
use kafka_order_event_platfo.Prelude.{
  ℕ, String, Bool, true, false, not, ◌&&◌, ◌||◌, Option, none, some, List, [], ◌∷◌, ◌++◌, map, any,
  filter, elem, ◌==◌, string_eq, if◌then◌else◌,
}
use kafka_order_event_platfo.Dict.{Dict, lookup, keys}
use kafka_order_event_platfo.Text.{contains_text, le_text, join, decimal}
use kafka_order_event_platfo.Sorting.{sorted, distinct}
use kafka_order_event_platfo.DataPlatform.Values.{
  Value, null, bool, int, float, text, array, object, Items, items, entries, as_text, codes,
}
use kafka_order_event_platfo.DataPlatform.Results.{Result, ok, err, type_error, ◌>>=◌}
use kafka_order_event_platfo.DataPlatform.Incidents.{
  IncidentState, received, validated, evidence_correlated, diagnosis_produced,
  human_review_required, degraded_diagnosis, IncidentAlert, AlertType, EvidenceItem,
  EvidenceFreshness, current, stale, unknown, not_available, Fact, Hypothesis, Confidence,
  high_confidence, medium_confidence, low_confidence, IncidentReport, ReportStatus, completed,
  degraded,
}
use kafka_order_event_platfo.DataPlatform.Incidents.Tools.{Client, Collected, collect}
use kafka_order_event_platfo.DataPlatform.Incidents.Inventory.{DiagnosisCodec, inventory, day}
use kafka_order_event_platfo.DataPlatform.Incidents.Correlation.{
  Responses, facts, correlate, tool_data, hypothesis, is_incomplete, is_consumer_lag, is_quality,
}

abbrev pub prohibited_actions : List String
prohibited_actions =
    "No tables were deleted or truncated."
    ∷ "No schema, IAM, cloud resource, or production data was mutated."
    ∷ "No unrestricted SQL or arbitrary shell command was executed."
    ∷ "No pipeline was rerun and no Kafka offset or consumer group was changed."
    ∷ "No PR was approved, merged, committed, or pushed." ∷ []

abbrev pub is_stale : EvidenceFreshness → Bool
is_stale stale = true
is_stale current = false
is_stale unknown = false
is_stale not_available = false

-- evidence that makes a diagnosis a degraded one
abbrev pub degrades : EvidenceItem → Bool
degrades item =
    (is_incomplete item || is_stale item.freshness_status)
    && not (item.source == "get_cost_estimate")

abbrev pub has_errors : Dict String String → Bool
has_errors [] = false
has_errors (_ ∷ _) = true

unfoldable pub is_degraded : Dict String String → List EvidenceItem → Bool
is_degraded errors evidence = has_errors errors || any degrades evidence

-- the states after the calls
unfoldable pub closing_states : Bool → List IncidentState
closing_states degraded_run =
    evidence_correlated
    ∷ ((if degraded_run then degraded_diagnosis ∷ [] else [])
        ++ (diagnosis_produced ∷ human_review_required ∷ []))

abbrev pub first_or : Hypothesis → List Hypothesis → Hypothesis
first_or default [] = default
first_or default (h ∷ _) = h

abbrev pub no_single_cause : Hypothesis
no_single_cause =
    hypothesis "Available evidence does not support a single root cause." low_confidence []

abbrev pub texts : List Value → List String
texts [] = []
texts (v ∷ vs) = elim (as_text v) [ none ↦ texts vs | some s ↦ s ∷ texts vs ]

-- a text of one character for each of a text's characters
abbrev pub characters : String → List String
characters String.[] = []
characters (String.◌∷◌ c s) = String.◌∷◌ c "" ∷ characters s

-- the texts that `for item in value` goes over, where `value` can be iterated
abbrev pub iterated_texts : Option Value → Result (List String)
iterated_texts none = ok []
iterated_texts (some (array vs)) = ok (texts (items vs))
iterated_texts (some (text s)) = ok (characters s)
iterated_texts (some (object fs)) = ok (keys (entries fs))
iterated_texts (some null) = err type_error
iterated_texts (some (bool _)) = err type_error
iterated_texts (some (int _)) = err type_error
iterated_texts (some (float _ _)) = err type_error

abbrev pub named_asset : IncidentAlert → List String
named_asset a = elim a.asset [ none ↦ [] | some s ↦ if s == "" then [] else s ∷ [] ]

abbrev pub impacted : Responses → Result (List String)
impacted responses = elim (tool_data "get_downstream_impact" responses) [
  | none ↦ ok []
  | some d ↦ iterated_texts (lookup "impacted_assets" d)
]

-- `_affected_assets`
unfoldable pub affected_assets : IncidentAlert → Responses → Result (List String)
affected_assets a responses = do
  others ← impacted responses
  ok (sorted le_text (distinct (filter (λ s. not (s == "")) (named_asset a ++ others))))

-- `_summary`
unfoldable pub summary_of : IncidentAlert → Hypothesis → Bool → String
summary_of a cause degraded_run =
    concat (if degraded_run then "Degraded diagnosis" else "Evidence-based diagnosis")
      (concat " for " (concat a.incident_id (concat ": " cause.description)))

-- `_recommendations`
unfoldable pub recommendations : (String → String) → IncidentAlert → Hypothesis → List String
recommendations casefold a cause =
    "Have a human inspect the cited artifacts and validate the proposed cause."
    ∷ ((if contains_text (casefold cause.description) "pipeline"
          then "Review the failed task and approve a bounded idempotent rerun only if safe." ∷ []
          else [])
        ++ ((if contains_text (casefold cause.description) "kafka" || is_consumer_lag a.alert_type
              then "Inspect consumer health and partition lag without resetting offsets." ∷ []
              else [])
            ++ (if contains_text (casefold cause.description) "quality" || is_quality a.alert_type
                then "Identify invalid records and design a reviewed data repair plan." ∷ []
                else [])))

-- `_backfill_plan`
unfoldable pub backfill_plan : (ℕ → String) → IncidentAlert → List String
backfill_plan isoformat a =
    concat "Determine the bounded time window ending at " (concat (isoformat a.observed_at) ".")
    ∷ "Estimate affected models through lineage and confirm idempotent keys."
    ∷ "Obtain human approval before executing any rerun or backfill."
    ∷ []

-- `_validation_plan`
unfoldable pub validation_plan : IncidentAlert → List String
validation_plan a =
    concat "Review command: make dbt-build  # human executes after approving " a.incident_id
    ∷ "Review command: make dbt-test  # validation recommendation only"
    ∷ "Re-query quality, freshness, lineage impact, and Kafka lag through read-only MCP tools."
    ∷ []

module _ (codec : DiagnosisCodec) (client : Client) where
  -- `diagnose`
  unfoldable pub diagnose : IncidentAlert → Result IncidentReport
  diagnose a = do
    s ← collect client a (received ∷ validated ∷ [])
    let evidence = inventory codec a s.responses s.errors
    found ← facts a s.responses evidence
    (hypotheses, rejected, unknowns) ← correlate a s.responses s.errors evidence
    let degraded_run = is_degraded s.errors evidence
    let cause = first_or no_single_cause hypotheses
    assets ← affected_assets a s.responses
    ok (record {
      incident_id = a.incident_id;
      status = if degraded_run then degraded else completed;
      summary = summary_of a cause degraded_run;
      state_history = s.states ++ closing_states degraded_run;
      confirmed_facts = found;
      hypotheses = hypotheses;
      rejected_hypotheses = rejected;
      most_likely_cause = cause;
      affected_assets = assets;
      customer_or_business_impact =
          "Data consumers may observe stale or policy-blocked analytics outputs; row-level impact is unknown."
          ∷ [];
      recommended_actions = recommendations codec.casefold a cause;
      backfill_plan = backfill_plan codec.isoformat a;
      validation_plan = validation_plan a;
      unknowns = sorted le_text (distinct unknowns);
      evidence_inventory = evidence;
      prohibited_actions_not_executed = prohibited_actions;
      human_approval_required =
          "Approve any pipeline rerun or backfill after reviewing scope and idempotency."
          ∷ "Approve any production data repair, deployment, or Kafka consumer action." ∷ [];
      generated_at = a.observed_at;
    })
