-- ===== src/DataPlatform/Incidents.antt =====
-- incidents.py: the alert, the states, the evidence and the report of a diagnosis.
pub mod Tools
pub mod Inventory
pub mod Correlation
pub mod Diagnosis
pub mod Markdown
use Prim.Native.String.{◌++◌ as concat}
use kafka_order_event_platfo.Prelude.{
  ℕ, suc, length, String, Bool, true, false, ◌&&◌, ◌||◌, not, Option, none, some, List, [], ◌∷◌,
  leb, any, all, ◌==◌, string_eq, nat_eq, if◌then◌else◌,
}
use kafka_order_event_platfo.Prelude.Int.{ℤ, pos, negsuc}
use kafka_order_event_platfo.Text.{decimal, contains_text}
use kafka_order_event_platfo.DataPlatform.Values.{Value, codes}
use kafka_order_event_platfo.DataPlatform.Results.{
  Result, ok, err, input_error, ◌>>=◌, ◌>>◌, ensure,
}

pub data IncidentState : Type 0 where
  received validated asset_resolved quality_checked lineage_traced : IncidentState
  pipeline_checked kafka_checked evidence_correlated diagnosis_produced : IncidentState
  human_review_required degraded_diagnosis : IncidentState

-- the place of a state in its declaration
abbrev pub ordinal : IncidentState → ℕ
ordinal received = 0
ordinal validated = 1
ordinal asset_resolved = 2
ordinal quality_checked = 3
ordinal lineage_traced = 4
ordinal pipeline_checked = 5
ordinal kafka_checked = 6
ordinal evidence_correlated = 7
ordinal diagnosis_produced = 8
ordinal human_review_required = 9
ordinal degraded_diagnosis = 10

-- `state in states`
abbrev pub has_state : IncidentState → List IncidentState → Bool
has_state s = any (λ t. ordinal t == ordinal s)

pub data AlertType : Type 0 where
  freshness quality consumer_lag pipeline : AlertType

abbrev pub alert_type_text : AlertType → String
alert_type_text freshness = "freshness"
alert_type_text quality = "quality"
alert_type_text consumer_lag = "consumer_lag"
alert_type_text pipeline = "pipeline"

pub data AlertSeverity : Type 0 where
  low medium high critical : AlertSeverity

-- `observed_at` is an instant in microseconds.
pub record IncidentAlert : Type 0 where
  pub incident_id : String
  pub alert_type : AlertType
  pub asset : Option String
  pub pipeline_name : Option String
  pub observed_at : ℕ
  pub severity : AlertSeverity
  pub message : String

pub data EvidenceFreshness : Type 0 where
  current stale unknown not_available : EvidenceFreshness

pub record EvidenceItem : Type 0 where
  pub evidence_id : String
  pub source : String
  pub evidence_level : String
  pub observed_or_generated_at : Option ℕ
  pub freshness_status : EvidenceFreshness
  pub tool_status : String
  pub sanitized_summary : String

pub record Fact : Type 0 where
  pub statement : String
  pub evidence : List String

pub data Confidence : Type 0 where
  high_confidence medium_confidence low_confidence : Confidence

pub record Hypothesis : Type 0 where
  pub description : String
  pub confidence : Confidence
  pub evidence : List String

pub data ReportStatus : Type 0 where
  completed degraded : ReportStatus

pub record IncidentReport : Type 0 where
  pub incident_id : String
  pub status : ReportStatus
  pub summary : String
  pub state_history : List IncidentState
  pub confirmed_facts : List Fact
  pub hypotheses : List Hypothesis
  pub rejected_hypotheses : List Hypothesis
  pub most_likely_cause : Hypothesis
  pub affected_assets : List String
  pub customer_or_business_impact : List String
  pub recommended_actions : List String
  pub backfill_plan : List String
  pub validation_plan : List String
  pub unknowns : List String
  pub evidence_inventory : List EvidenceItem
  pub prohibited_actions_not_executed : List String
  pub human_approval_required : List String
  pub generated_at : ℕ

-- `alert.asset or alert.pipeline`, in a text
abbrev pub target : IncidentAlert → String
target a = elim a.asset [ some s ↦ s | none ↦ elim a.pipeline_name [ some p ↦ p | none ↦ "None" ] ]

abbrev pub text_of_int : ℤ → String
text_of_int (pos n) = decimal n
text_of_int (negsuc n) = concat "-" (decimal (suc n))

-- `SAFE_INCIDENT_ID.fullmatch`
abbrev pub is_capital_or_digit : ℕ → Bool
is_capital_or_digit c = (leb b'A' c && leb c b'Z') || (leb b'0' c && leb c b'9')

abbrev pub is_id_code : ℕ → Bool
is_id_code c = is_capital_or_digit c || c == b'_' || c == b'-'

abbrev pub tail_matches : List ℕ → Bool
tail_matches cs = all is_id_code cs && leb 2 (length cs) && leb (length cs) 63

abbrev pub is_safe_id : List ℕ → Bool
is_safe_id [] = false
is_safe_id (c ∷ cs) = is_capital_or_digit c && tail_matches cs

abbrev pub has_target : IncidentAlert → Bool
has_target a = elim a.asset [
  | some _ ↦ true
  | none ↦ elim a.pipeline_name [ some _ ↦ true | none ↦ false ]
]

-- `validate_identity`; `casefold` is `str.casefold`
unfoldable pub validate_identity : (String → String) → IncidentAlert → Result IncidentAlert
validate_identity casefold a = do
  let lowered = casefold a.message
  ensure (is_safe_id (codes a.incident_id))
      (input_error "incident_id must use uppercase letters, numbers, '_' or '-'")
  ensure (has_target a) (input_error "asset or pipeline is required")
  ensure
      (not
        (any (λ marker. contains_text lowered marker) ("../" ∷ "select " ∷ "drop " ∷ "rm -" ∷ [])))
      (input_error "message contains a prohibited path, SQL, or shell shape")
  ok a
