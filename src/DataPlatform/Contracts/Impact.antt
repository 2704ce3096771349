-- ===== src/DataPlatform/Contracts/Impact.antt =====
-- _downstream_paths of contracts.py: the models below a model.
pub mod Ends
use kafka_order_event_platfo.Prelude.{
  ℕ, zero, suc, String, Bool, true, false, not, ◌&&◌, Option, none, some, List, [], ◌∷◌, ◌++◌,
  length, ltb, elem, ◌==◌, nat_eq, string_eq, if◌then◌else◌,
}
use kafka_order_event_platfo.Dict.{Dict, lookup}
use kafka_order_event_platfo.Sorting.{sorted}
use kafka_order_event_platfo.Text.{le_text}
use kafka_order_event_platfo.DataPlatform.Values.{
  Value, null, bool, int, float, text, array, object, as_object, as_list,
}
use kafka_order_event_platfo.DataPlatform.Results.{Result, ok, err, type_error, other_error, ◌>>=◌}
use kafka_order_event_platfo.DataPlatform.Contracts.{Python, Object, Manifest, get_text, is_model}

-- The variables of the loop.
pub record Search : Type 0 where
  pub paths : List (List String)
  pub queue : List (String × List String)
  pub visited : List String

-- A key that a dict can be asked for: of those, a manifest's keys are texts.
abbrev pub key_of : Value → Result (Option String)
key_of (text s) = ok (some s)
key_of null = ok none
key_of (bool _) = ok none
key_of (int _) = ok none
key_of (float _ _) = ok none
key_of (array _) = err type_error
key_of (object _) = err type_error

-- the order of tuples of texts
abbrev pub le_path : List String → List String → Bool
le_path [] q = true
le_path (s ∷ p) [] = false
le_path (s ∷ p) (t ∷ q) = let rest = le_path p q in if s == t then rest else le_text s t

module _ (python : Python) (manifest : Manifest) where
  -- the node of a child that is a model
  abbrev pub model_of : String → Option Object
  model_of id = elim (lookup id manifest.nodes) [
    | none ↦ none
    | some v ↦ elim (as_object v) [
      | none ↦ none
      | some node ↦ if is_model python node then some node else none
    ]
  ]

  unfoldable pub add_child : String → List String → Object → Search → Search
  add_child id path node s =
      let child_path = path ++ (get_text python "name" id node ∷ []) in
      if elem id s.visited then record s { paths = s.paths ++ (child_path ∷ []) } else record {
        paths = s.paths ++ (child_path ∷ []);
        queue = s.queue ++ ((id, child_path) ∷ []);
        visited = id ∷ s.visited;
      }

  abbrev pub visit_key : List String → Option String → Search → Search
  visit_key path none s = s
  visit_key path (some id) s = elim (model_of id) [
    | none ↦ s
    | some node ↦ add_child id path node s
  ]

  unfoldable pub visit_children : List String → List Value → Search → Result Search
  visit_children path [] s = ok s
  visit_children path (v ∷ vs) s = key_of v >>= λ key. visit_children path vs (visit_key path key s)

  -- the children of a node, where they are a list
  abbrev pub children_of : String → List Value
  children_of id = elim (lookup id manifest.child_map) [
    | none ↦ []
    | some v ↦ elim (as_list v) [ none ↦ [] | some vs ↦ vs ]
  ]

  unfoldable pub expand : ℕ → String → List String → Search → Result Search
  expand max_depth id path s =
      if ltb max_depth (length path) then ok s else visit_children path (children_of id) s

  -- `while queue`; fuel bounds the rounds
  unfoldable pub search_from : ℕ → ℕ → Search → List (String × List String) → Result (Option Search)
  search_from max_depth fuel s [] = ok (some s)
  search_from max_depth zero s (_ ∷ _) = ok none
  search_from max_depth (suc fuel) s ((id, path) ∷ rest) =
      expand max_depth id path (record s { queue = rest }) >>= λ t.
      search_from max_depth fuel t t.queue

  -- the name of the model where the search begins
  abbrev pub start_name : String → String
  start_name id = elim (lookup id manifest.nodes) [
    | none ↦ id
    | some v ↦ elim (as_object v) [ none ↦ id | some node ↦ get_text python "name" id node ]
  ]

  abbrev pub first_search : String → Search
  first_search id = record { paths = []; queue = (id, start_name id ∷ []) ∷ []; visited = id ∷ [] }

  abbrev pub paths_of : Option Search → Result (List (List String))
  paths_of none = err (other_error "out of fuel")
  paths_of (some s) = ok (sorted le_path s.paths)

  -- `_downstream_paths`, with a round for the model and one for each node
  unfoldable pub downstream_paths : String → Result (List (List String))
  downstream_paths id =
      search_from 10 (suc (length manifest.nodes)) (first_search id) (first_search id).queue
      >>= paths_of
