-- ===== src/DataPlatform/Metadata.antt =====
-- metadata_models.py: the normalized assets, the index of them, and the answer of a tool.
pub mod Walk
pub mod Service
use kafka_order_event_platfo.Prelude.{ℕ, String, Bool, Option, none, some, List, [], ◌∷◌}
use kafka_order_event_platfo.Dict.{Dict}
use kafka_order_event_platfo.DataPlatform.Values.{
  Value, null, text, array, object, Items, nil, cons, Fields, end, field,
}

pub record ColumnMetadata : Type 0 where
  pub name : String
  pub data_type : Option String
  pub nullable : Option Bool
  pub description : String

pub record AssetMetadata : Type 0 where
  pub asset_id : String
  pub name : String
  pub resource_type : String
  pub layer : String
  pub owner : Option String
  pub domain : Option String
  pub data_product : Option String
  pub description : String
  pub grain : Option String
  pub maturity : Option String
  pub materialization : Option String
  pub slo : Fields
  pub columns : List ColumnMetadata
  pub upstream : List String
  pub downstream : List String
  pub quality_status : String
  pub quality_counts : Dict String ℕ
  pub freshness_status : Option String
  pub contract_status : String
  pub tests : List String
  pub last_run_at : Option ℕ
  pub source_artifacts : List String

pub data IndexStatus : Type 0 where
  complete degraded_index : IndexStatus

pub record EvidenceArtifact : Type 0 where
  pub artifact_id : String
  pub report_type : String
  pub status : String
  pub source_evidence_level : String
  pub observed_at : Option ℕ

pub record MetadataIndex : Type 0 where
  pub status : IndexStatus
  pub generated_at : ℕ
  pub assets : List AssetMetadata
  pub evidence_artifacts : List EvidenceArtifact
  pub missing_artifacts : List String
  pub warnings : List String

pub data ToolStatus : Type 0 where
  ok_status partial not_found not_available invalid_request error_status : ToolStatus

-- `data` holds JSON values, as `model_dump(mode="json")` gives them.
pub record ToolResponse : Type 0 where
  pub status : ToolStatus
  pub contents : Dict String Value
  pub evidence : List String
  pub evidence_level : String
  pub warnings : List String
  pub generated_at : ℕ

abbrev pub list_value : List Value → Items
list_value [] = nil
list_value (v ∷ vs) = cons v (list_value vs)

abbrev pub object_value : Dict String Value → Fields
object_value [] = end
object_value ((k, v) ∷ d) = field k v (object_value d)

abbrev pub text_values : List String → List Value
text_values [] = []
text_values (s ∷ l) = text s ∷ text_values l

abbrev pub texts_value : List String → Value
texts_value l = array (list_value (text_values l))

abbrev pub optional_text : Option String → Value
optional_text none = null
optional_text (some s) = text s
