-- ===== src/DataPlatform/Incidents/Inventory.antt =====
-- The evidence of a diagnosis, `IncidentDiagnoser._inventory` of incidents.py.
use Prim.Native.String.{◌++◌ as concat}
use kafka_order_event_platfo.Prelude.{
  ℕ, ◌+◌, ◌*◌, String, Bool, true, false, ◌||◌, Option, none, some, List, [], ◌∷◌, ◌++◌, map, ltb,
  elem, ◌==◌, string_eq, if◌then◌else◌,
}
use kafka_order_event_platfo.Dict.{Dict, lookup}
use kafka_order_event_platfo.Text.{take_chars, le_text}
use kafka_order_event_platfo.Sorting.{sorted}
use kafka_order_event_platfo.DataPlatform.Values.{Value, as_text, as_object, is_falsy, object, end}
use kafka_order_event_platfo.DataPlatform.Redaction.{redact}
use kafka_order_event_platfo.DataPlatform.CostPolicy.Evaluation.{Moment, naive, aware}
use kafka_order_event_platfo.DataPlatform.Incidents.{
  IncidentAlert, alert_type_text, target, EvidenceItem, current, stale, not_available,
}

-- What the diagnosis takes from the standard library and from the regular expressions of
-- metadata_security.py: `str` of a value that is no text, `datetime.fromisoformat` of a text in
-- which "Z" is replaced by "+00:00", `json.dumps` with sorted keys, the search for SECRET_KEY, the
-- substitutions of CONNECTION and BEARER, `str.casefold` and `datetime.isoformat`.
pub record DiagnosisCodec : Type 0 where
  pub str_of : Value → String
  pub from_iso : String → Option Moment
  pub dumps : Value → String
  pub is_secret : String → Bool
  pub scrub : String → String
  pub casefold : String → String
  pub isoformat : ℕ → String

abbrev pub evidence_levels : List String
evidence_levels =
    "static_validation" ∷ "simulated" ∷ "sandbox_observed" ∷ "cloud_observed" ∷ "local_execution"
    ∷ "not_available" ∷ []

-- `response.get("data", {})`
abbrev pub data_of : Dict String Value → Value
data_of response = elim (lookup "data" response) [ none ↦ object end | some v ↦ v ]

-- 24 hours in microseconds
abbrev pub day : ℕ
day = 24 * 60 * 60 * 1000000

abbrev pub alert_evidence : IncidentAlert → EvidenceItem
alert_evidence a = record {
  evidence_id = "alert";
  source = "incident_alert";
  evidence_level = "local_execution";
  observed_or_generated_at = some a.observed_at;
  freshness_status = current;
  tool_status = "ok";
  sanitized_summary =
      concat "Validated "
        (concat (alert_type_text a.alert_type) (concat " alert for " (concat (target a) ".")));
}

abbrev pub tool_id : String → String
tool_id tool = concat "mcp:" tool

unfoldable pub error_evidence : IncidentAlert → String × String → EvidenceItem
error_evidence a (tool, category) = record {
  evidence_id = tool_id tool;
  source = tool;
  evidence_level = "not_available";
  observed_or_generated_at = some a.observed_at;
  freshness_status = not_available;
  tool_status = "error";
  sanitized_summary = concat "Tool failed with sanitized category " (concat category ".");
}

-- entries in the order of their keys, which are distinct
abbrev pub by_key {ℓ} : {A : Type ℓ} → String × A → String × A → Bool
by_key p q = le_text p.0 q.0

module _ (codec : DiagnosisCodec) where
  -- `str(d.get(k, default))`
  abbrev pub text_or : String → Option Value → String
  text_or default none = default
  text_or default (some v) = elim (as_text v) [ some s ↦ s | none ↦ codec.str_of v ]

  abbrev pub level_of : Dict String Value → String
  level_of response =
      let level = text_or "not_available" (lookup "evidence_level" response) in
      if elem level evidence_levels then level else "not_available"

  -- the time of a response, if it has a zone
  abbrev pub timestamp_of : Dict String Value → Option ℕ
  timestamp_of response = elim (codec.from_iso (text_or "None" (lookup "generated_at" response))) [
    | none ↦ none
    | some naive ↦ none
    | some (aware instant _) ↦ some instant
  ]

  abbrev pub warns_stale : Dict String Value → Bool
  warns_stale response = elim (as_object (data_of response)) [
    | none ↦ false
    | some d ↦ elim (lookup "stale_artifact_warning" d) [
      | none ↦ false
      | some v ↦ if is_falsy v then false else true
    ]
  ]

  abbrev pub is_old : ℕ → Option ℕ → Bool
  is_old observed_at none = false
  is_old observed_at (some instant) = ltb (instant + day) observed_at

  unfoldable pub response_evidence : IncidentAlert → String × Dict String Value → EvidenceItem
  response_evidence a (tool, response) =
      let status = text_or "error" (lookup "status" response) in
      let timestamp = timestamp_of response in
      record {
        evidence_id = tool_id tool;
        source = tool;
        evidence_level = level_of response;
        observed_or_generated_at = timestamp;
        freshness_status =
            if warns_stale response || is_old a.observed_at timestamp
            then stale
            else if status == "not_available"
            then not_available
            else current;
        tool_status = status;
        sanitized_summary =
            take_chars 500 (codec.dumps (redact codec.is_secret codec.scrub (data_of response)));
      }

  unfoldable pub inventory :
      IncidentAlert → Dict String (Dict String Value) → Dict String String → List EvidenceItem
  unfolding response_evidence error_evidence
  inventory a responses errors =
      alert_evidence a
      ∷ (map (response_evidence a) (sorted by_key responses)
          ++ map (error_evidence a) (sorted by_key errors))
