-- ===== src/DataPlatform/Incidents/Tools.antt =====
-- The read-only calls of a diagnosis, `IncidentDiagnoser._collect` of incidents.py.
use kafka_order_event_platfo.Prelude.{
  String, Bool, true, false, ◌&&◌, none, some, List, [], ◌∷◌, ◌++◌, ◌==◌, string_eq, if◌then◌else◌,
}
use kafka_order_event_platfo.Prelude.Int.{pos}
use kafka_order_event_platfo.Dict.{Dict, lookup, insert}
use kafka_order_event_platfo.DataPlatform.Values.{Value, text, int}
use kafka_order_event_platfo.DataPlatform.Results.{Result, ok, err, Failure, ◌>>=◌}
use kafka_order_event_platfo.DataPlatform.Incidents.{
  IncidentState, asset_resolved, quality_checked, lineage_traced, pipeline_checked, kafka_checked,
  has_state, IncidentAlert,
}

-- What a call does: a response, an exception of a class that `_collect` catches, by its name, or
-- another exception.
pub data Answer : Type 0 where
  answered : Dict String Value → Answer
  failed : String → Answer
  escapes : Failure → Answer

-- `ReadOnlyEvidenceClient.call`. A diagnosis calls each tool once at most, so what the client does
-- is a function of the call.
abbrev pub Client : Type 0
Client = String → Dict String Value → Answer

pub record ToolCall : Type 0 where
  pub tool : String
  pub arguments : Dict String Value
  pub state : IncidentState

pub record Collected : Type 0 where
  pub responses : Dict String (Dict String Value)
  pub errors : Dict String String
  pub states : List IncidentState

abbrev pub call_of : String → Dict String Value → IncidentState → ToolCall
call_of tool arguments state = record { tool = tool; arguments = arguments; state = state }

abbrev pub asset_text : IncidentAlert → String
asset_text a = elim a.asset [ none ↦ "" | some s ↦ s ]

-- `alert.pipeline or fallback`
abbrev pub pipeline_or : String → IncidentAlert → String
pipeline_or fallback a = elim a.pipeline_name [
  | none ↦ fallback
  | some p ↦ if p == "" then fallback else p
]

-- `asset or alert.pipeline or "pipeline"`
abbrev pub search_query : IncidentAlert → String
search_query a = if asset_text a == "" then pipeline_or "pipeline" a else asset_text a

-- `calls`
abbrev pub calls : IncidentAlert → List ToolCall
calls a =
    call_of "search_data_assets" (("query", text (search_query a)) ∷ []) asset_resolved
    ∷ call_of "get_model_owner" (("model_name", text (asset_text a)) ∷ []) asset_resolved
    ∷ call_of "get_quality_status" (("model_name", text (asset_text a)) ∷ []) quality_checked
    ∷ call_of "get_upstream_lineage"
        (("model_name", text (asset_text a)) ∷ ("max_depth", int (pos 5)) ∷ []) lineage_traced
    ∷ call_of "get_downstream_impact"
        (("model_name", text (asset_text a)) ∷ ("max_depth", int (pos 5)) ∷ []) lineage_traced
    ∷ call_of "get_recent_pipeline_failures"
        (("pipeline_name", text (pipeline_or "retail_data_platform_pipeline" a))
          ∷ ("limit", int (pos 10))
          ∷ [])
        pipeline_checked
    ∷ call_of "get_consumer_lag" (("consumer_group", text "order-processing-group-v1") ∷ [])
        kafka_checked
    ∷ call_of "get_cost_estimate"
        (("model_name", text (asset_text a))
          ∷ ("preferred_evidence_level", text "best_available")
          ∷ [])
        pipeline_checked
    ∷ []

abbrev pub add_state : IncidentState → List IncidentState → List IncidentState
add_state s states = if has_state s states then states else states ++ (s ∷ [])

-- `not asset and "model_name" in arguments`
abbrev pub needs_model : Dict String Value → Bool
needs_model arguments = elim (lookup "model_name" arguments) [ none ↦ false | some _ ↦ true ]

abbrev pub is_skipped : String → Dict String Value → Bool
is_skipped asset arguments = asset == "" && needs_model arguments

unfoldable pub settle_answer : ToolCall → Answer → Collected → Result Collected
settle_answer c (answered response) s = ok (record s {
  responses = insert c.tool response s.responses;
  states = add_state c.state s.states;
})
settle_answer c (failed category) s =
    ok (record s { errors = insert c.tool category s.errors; states = add_state c.state s.states })
settle_answer c (escapes e) s = err e

-- the loop of `_collect`
unfoldable pub collect_from : Client → String → List ToolCall → Collected → Result Collected
unfolding settle_answer
collect_from client asset [] s = ok s
collect_from client asset (c ∷ cs) s =
    (if is_skipped asset c.arguments then ok s else settle_answer c (client c.tool c.arguments) s)
    >>= collect_from client asset cs

unfoldable pub collect : Client → IncidentAlert → List IncidentState → Result Collected
unfolding collect_from
collect client a states =
    collect_from client (asset_text a) (calls a)
      (record { responses = []; errors = []; states = states })
