-- ===== src/DataPlatform/Incidents/Correlation.antt =====
-- The facts and the hypotheses of a diagnosis, `_facts` and `_correlate` of incidents.py.
use Prim.Native.String.{◌++◌ as concat}
use kafka_order_event_platfo.Prelude.{
  String, Bool, true, false, not, ◌&&◌, ◌||◌, Option, none, some, List, [], ◌∷◌, ◌++◌, map, elem,
  ◌==◌, string_eq, if◌then◌else◌,
}
use kafka_order_event_platfo.Prelude.Int.{ℤ, pos, ◌+ℤ◌, ltb_ℤ, int_eq}
use kafka_order_event_platfo.Dict.{Dict, lookup, insert, keys}
use kafka_order_event_platfo.DataPlatform.Values.{
  Value, null, bool, int, float, text, array, object, as_object, as_list, as_int, is_falsy,
  equals_text,
}
use kafka_order_event_platfo.DataPlatform.Results.{Result, ok, err, key_error, type_error, ◌>>=◌}
use kafka_order_event_platfo.DataPlatform.Incidents.{
  AlertType, freshness, quality, consumer_lag, pipeline, IncidentAlert, alert_type_text, target,
  EvidenceItem, Fact, Hypothesis, Confidence, high_confidence, medium_confidence, text_of_int,
}
use kafka_order_event_platfo.DataPlatform.Incidents.Inventory.{data_of}

abbrev pub Responses : Type 0
Responses = Dict String (Dict String Value)

-- `{item.source: item.evidence_id for item in evidence}`
abbrev pub ids_from : List EvidenceItem → Dict String String → Dict String String
ids_from [] ids = ids
ids_from (item ∷ items) ids = ids_from items (insert item.source item.evidence_id ids)

-- `ids[tool]`
abbrev pub id_of : String → Dict String String → Result String
id_of tool ids = elim (lookup tool ids) [ none ↦ err (key_error tool) | some i ↦ ok i ]

-- `ids.get(tool, default)`
abbrev pub id_or : String → String → Dict String String → String
id_or tool default ids = elim (lookup tool ids) [ none ↦ default | some i ↦ i ]

-- `responses.get(tool, {}).get("data", {})`, where that is a dict
abbrev pub tool_data : String → Responses → Option (Dict String Value)
tool_data tool responses = elim (lookup tool responses) [
  | none ↦ some []
  | some response ↦ as_object (data_of response)
]

-- `value in statuses`, for a set of texts: a list or a dict cannot be hashed
abbrev pub text_in : List String → Option Value → Result (Option String)
text_in statuses none = ok none
text_in statuses (some (text s)) = ok (if elem s statuses then some s else none)
text_in statuses (some null) = ok none
text_in statuses (some (bool _)) = ok none
text_in statuses (some (int _)) = ok none
text_in statuses (some (float _ _)) = ok none
text_in statuses (some (array _)) = err type_error
text_in statuses (some (object _)) = err type_error

-- `quality.get("overall_status")`, where the data is a dict and the status one of the three
abbrev pub known_status : Option (Dict String Value) → Result (Option String)
known_status none = ok none
known_status (some d) = text_in ("fail" ∷ "warn" ∷ "pass" ∷ []) (lookup "overall_status" d)

-- `isinstance(failures, dict) and failures.get("failures")`
abbrev pub has_failures : Option (Dict String Value) → Bool
has_failures none = false
has_failures (some d) = elim (lookup "failures" d) [ none ↦ false | some v ↦ not (is_falsy v) ]

-- the list of partitions, where the data is a dict that has one
abbrev pub partitions_of : Option (Dict String Value) → Option (List Value)
partitions_of none = none
partitions_of (some d) = elim (lookup "partitions" d) [ none ↦ none | some v ↦ as_list v ]

-- `int(row.get("lag", 0))` of a row that is a dict with an int
abbrev pub row_lag : Value → ℤ
row_lag row = elim (as_object row) [
  | none ↦ pos 0
  | some d ↦ elim (lookup "lag" d) [
    | none ↦ pos 0
    | some v ↦ elim (as_int v) [ none ↦ pos 0 | some z ↦ z ]
  ]
]

abbrev pub sum_lags : List Value → ℤ
sum_lags [] = pos 0
sum_lags (row ∷ rows) = row_lag row +ℤ sum_lags rows

abbrev pub fact : String → List String → Fact
fact statement evidence = record { statement = statement; evidence = evidence }

-- a statement that cites `ids[tool]`
abbrev pub cite {ℓ} : {A : Type ℓ} → Dict String String → String → (String → A) → Result (List A)
cite ids tool statement = id_of tool ids >>= λ i. ok (statement i ∷ [])

abbrev pub quality_facts : Responses → Dict String String → Result (List Fact)
quality_facts responses ids = known_status (tool_data "get_quality_status" responses) >>= λ known.
    elim known [
      | none ↦ ok []
      | some status ↦
          cite ids "get_quality_status"
            (λ i. fact (concat "Latest indexed quality status is " (concat status ".")) (i ∷ []))
    ]

abbrev pub failure_facts : Responses → Dict String String → Result (List Fact)
failure_facts responses ids =
    if has_failures (tool_data "get_recent_pipeline_failures" responses)
    then cite ids "get_recent_pipeline_failures"
        (λ i. fact "Indexed pipeline failure evidence is present." (i ∷ []))
    else ok []

abbrev pub lag_facts : Responses → Dict String String → Result (List Fact)
lag_facts responses ids = elim (partitions_of (tool_data "get_consumer_lag" responses)) [
  | none ↦ ok []
  | some rows ↦ cite ids "get_consumer_lag" (λ i.
      fact
        (concat "Observed total Kafka consumer lag is " (concat (text_of_int (sum_lags rows)) "."))
        (i ∷ []))
]

-- `_facts`
unfoldable pub facts : IncidentAlert → Responses → List EvidenceItem → Result (List Fact)
facts a responses evidence = do
  let ids = ids_from evidence []
  first ← quality_facts responses ids
  second ← failure_facts responses ids
  third ← lag_facts responses ids
  ok (
      fact
        (concat "A " (
          concat (alert_type_text a.alert_type)
            (concat " alert was received for " (concat (target a) "."))))
        ("alert" ∷ [])
      ∷ (first ++ (second ++ third)))

abbrev pub hypothesis : String → Confidence → List String → Hypothesis
hypothesis description confidence evidence = record {
  description = description;
  confidence = confidence;
  evidence = evidence;
}

abbrev pub total_lag : Responses → ℤ
total_lag responses = elim (partitions_of (tool_data "get_consumer_lag" responses)) [
  | none ↦ pos 0
  | some rows ↦ sum_lags rows
]

abbrev pub is_freshness : AlertType → Bool
is_freshness freshness = true
is_freshness quality = false
is_freshness consumer_lag = false
is_freshness pipeline = false

abbrev pub is_consumer_lag : AlertType → Bool
is_consumer_lag consumer_lag = true
is_consumer_lag freshness = false
is_consumer_lag quality = false
is_consumer_lag pipeline = false

abbrev pub is_quality : AlertType → Bool
is_quality quality = true
is_quality freshness = false
is_quality consumer_lag = false
is_quality pipeline = false

-- `isinstance(quality, dict) and quality.get("overall_status") == "fail"`
abbrev pub quality_failed : Option (Dict String Value) → Bool
quality_failed none = false
quality_failed (some d) = elim (lookup "overall_status" d) [
  | none ↦ false
  | some v ↦ equals_text "fail" (some v)
]

-- the chain of `if` and `elif`: the first explanation that fits
unfoldable pub explain : AlertType → Responses → Dict String String → Result (List Hypothesis)
explain kind responses ids =
    if has_failures (tool_data "get_recent_pipeline_failures" responses) && is_freshness kind
    then cite ids "get_recent_pipeline_failures" (λ i.
      hypothesis "A recent pipeline task failure may have caused the freshness breach."
        high_confidence (i ∷ id_or "get_quality_status" "alert" ids ∷ []))
    else if ltb_ℤ (pos 0) (total_lag responses) && (is_freshness kind || is_consumer_lag kind)
    then cite ids "get_consumer_lag" (λ i.
      hypothesis "Upstream ingestion delay from rising Kafka lag may explain stale inputs."
        high_confidence (i ∷ id_or "get_quality_status" "alert" ids ∷ []))
    else if quality_failed (tool_data "get_quality_status" responses) && is_quality kind
    then cite ids "get_quality_status" (λ i.
      hypothesis "A deterministic data quality gate failure may have blocked publication."
        high_confidence (i ∷ []))
    else ok []

unfoldable pub reject : Responses → Dict String String → List Hypothesis
reject responses ids =
    if total_lag responses == pos 0
    then elim (lookup "get_consumer_lag" ids) [
      | none ↦ []
      | some i ↦
          hypothesis "Kafka consumer backlog caused the incident." medium_confidence (i ∷ []) ∷ []
    ]
    else []

-- `item.tool_status in {"partial", "not_available", "error"}`
abbrev pub is_incomplete : EvidenceItem → Bool
is_incomplete item = elem item.tool_status ("partial" ∷ "not_available" ∷ "error" ∷ [])

abbrev pub incomplete_unknowns : List EvidenceItem → List String
incomplete_unknowns [] = []
incomplete_unknowns (item ∷ items) =
    let rest = incomplete_unknowns items in
    if is_incomplete item
    then concat item.source " did not provide complete current evidence." ∷ rest
    else rest

abbrev pub unavailable : String → String
unavailable tool = concat "Tool evidence unavailable: " (concat tool ".")

abbrev pub no_cause : List Hypothesis → List String
no_cause [] = "The available evidence does not establish one causal root cause." ∷ []
no_cause (_ ∷ _) = []

unfoldable pub unknowns_of : Dict String String → List EvidenceItem → List Hypothesis → List String
unknowns_of errors evidence hypotheses =
    map unavailable (keys errors) ++ (incomplete_unknowns evidence ++ no_cause hypotheses)

-- `_correlate`
unfoldable pub correlate :
    IncidentAlert
    → Responses
    → Dict String String
    → List EvidenceItem
    → Result (List Hypothesis × List Hypothesis × List String)
correlate a responses errors evidence = do
  let ids = ids_from evidence []
  hypotheses ← explain a.alert_type responses ids
  ok (hypotheses, reject responses ids, unknowns_of errors evidence hypotheses)
